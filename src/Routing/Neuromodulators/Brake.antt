-- ===== src/Routing/Neuromodulators/Brake.antt =====
-- What a request that glycine lets through may add.
use cortex_cognitive_runtime.Prelude.{
  ℕ, suc, ◌≤◌, ◌<◌, ◌/◌, ◌≡◌, ◌≢◌, refl, Bool, true, false, Option, none, some, List, [], ◌∷◌, ◌++◌,
  length, select, leb, if◌then◌else◌, arith, String, String_discrete,
}
use cortex_cognitive_runtime.OrderedDict.{get}
use cortex_cognitive_runtime.OrderedDict.Laws.{get-set_self, get-set_ne}
use cortex_cognitive_runtime.OrderedDict.Bounded.{found_or}
use cortex_cognitive_runtime.Float.{Float64, sub, ◌<=?◌}
use cortex_cognitive_runtime.Routing.Neuromodulators.{
  Glycine, GlycineConfig, GlycineReason, GlycineSession, check_pre_flight, empty_session,
  guard_session, recent, recorded, repeated, token_budget_exceeded,
}

select-append-length :
    {A : Type 0} (p : A → Bool) (xs : List A) (x : A)
    → length (select p (xs ++ x ∷ [])) ≤ suc (length (select p xs))
select-append-length p [] x = ground arith
select-append-length p (y ∷ xs) x = ground (arith, select-append-length p xs x)

module _ {F : Type 0} ⦃fl : Float64 F⦄ where
  abbrev pub session_after : String → Glycine F → GlycineSession F
  session_after session g = found_or String_discrete session empty_session g.sessions

  guard_session-passed :
      (cfg : GlycineConfig F) (hash : String) (now : F) (s : GlycineSession F)
      → guard_session cfg hash now s ≡ none
      → (length (recent cfg now s) < cfg.rate_max_requests)
        × (suc (length (repeated cfg now hash s)) < cfg.loop_threshold)
  unfolding guard_session
  guard_session-passed cfg hash now s e = (ground arith, ground arith)

  check_pre_flight-passed :
      (size : String → ℕ) (digest : String → String) (prompt session : String) (now : F)
      (g : Glycine F)
      → (check_pre_flight size digest prompt session now g).0 ≡ none
      → (leb g.config.token_budget (size prompt / 4) ≡ false)
        × (guard_session g.config (digest prompt) now (session_after session g) ≡ none)
  unfolding check_pre_flight
  check_pre_flight-passed size digest prompt session now g e =
      by_test (leb g.config.token_budget (size prompt / 4)) _ _ e
    where
      by_test :
          (b : Bool) (v : Option GlycineReason) (x : Glycine F)
          → (let r : Option GlycineReason × Glycine F =
                if b then (some token_budget_exceeded, g) else (v, x) in
              r.0 ≡ none)
          → (b ≡ false) × (v ≡ none)
      by_test true v x h = absurd (cc)
      by_test false v x h = (refl, h)

  -- A request that passes is within the token budget; after it the window holds at most the allowed
  -- number of requests of the session, and fewer repetitions of the prompt than the threshold. The
  -- state of every other session stays.
  pub check_pre_flight_lem :
      (size : String → ℕ) (digest : String → String) (prompt session : String) (now : F)
      (g : Glycine F)
      → (check_pre_flight size digest prompt session now g).0 ≡ none
      → let g' = (check_pre_flight size digest prompt session now g).1 in
        let s' = recorded (digest prompt) now (session_after session g) in
        (size prompt / 4 < g.config.token_budget)
        × (get String_discrete session g'.sessions ≡ some s')
        × (length (recent g.config now s') ≤ g.config.rate_max_requests)
        × (length (repeated g.config now (digest prompt) s') < g.config.loop_threshold)
        × ((j : String)
            → j ≢ session
            → get String_discrete j g'.sessions ≡ get String_discrete j g.sessions)
  unfolding check_pre_flight
  check_pre_flight_lem size digest prompt session now g e =
      let (budget, passed) = check_pre_flight-passed size digest prompt session now g e in
      let s = session_after session g in
      let (rate, loop) = guard_session-passed g.config (digest prompt) now s passed in
      rw (budget, passed)
        (
          ground arith,
          get-set_self String_discrete session (recorded (digest prompt) now s) g.sessions,
          omega (
            arith,
            select-append-length (λ t. sub now g.config.rate_window_seconds <=? t)
                s.request_timestamps now,
          ),
          omega (arith, select-append-length _ s.prompt_history (digest prompt, now)),
          λ j n. get-set_ne String_discrete session j (recorded (digest prompt) now s) g.sessions n,
        )
