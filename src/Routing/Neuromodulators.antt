-- ===== src/Routing/Neuromodulators.antt =====
-- app/routing/neuromodulators.py: epinephrine's gates, norepinephrine's change of the parameters, and
-- glycine's brake. `size` is len of a text in characters, `digest` the first eight digits of its
-- MD5 sum, `now` the clock's reading.
pub mod Boost
pub mod Brake
mod Tests
use cortex_cognitive_runtime.Prelude.{
  ℕ, suc, ◌+◌, ◌/◌, Bool, true, false, Option, none, some, List, [], ◌∷◌, ◌++◌, leb, ltb, max,
  length, select, if◌then◌else◌, ite, String, String_discrete,
}
use cortex_cognitive_runtime.OrderedDict.{OrderedDict, get, set}
use cortex_cognitive_runtime.OrderedDict.Bounded.{found_or}
use cortex_cognitive_runtime.Float.{Float64, ratio, sub, min_f, ◌<=?◌, ◌<?◌}
use cortex_cognitive_runtime.Routing.Task.{ModelTier, standard, tier_value}

pub data EpinephrineReason : Type 0 where
  unknown_category category_gate_fail similarity_gate_fail activated : EpinephrineReason

-- EpinephrineConfig of app/core/config.py
pub record EpinephrineConfig (F : Type 0) : Type 0 where
  pub category_tier_map : OrderedDict String ModelTier
  pub high_compute_categories : List String
  pub similarity_threshold : F

abbrev pub is_listed : String → List String → Bool
is_listed x [] = false
is_listed x (y ∷ ys) = ite (String_discrete x y) true (is_listed x ys)

-- The parameters that norepinephrine changes.
pub record GenerationParams (F : Type 0) : Type 0 where
  pub temperature : F
  pub top_k : ℕ
  pub ne_applied : Bool
  pub ne_reason : Option String

pub record GlycineConfig (F : Type 0) : Type 0 where
  pub token_budget : ℕ
  pub rate_window_seconds : F
  pub rate_max_requests : ℕ
  pub loop_threshold : ℕ
  pub loop_window_seconds : F

pub data GlycineReason : Type 0 where
  token_budget_exceeded rate_limit_exceeded loop_detected : GlycineReason

-- `_SessionState`
pub record GlycineSession (F : Type 0) : Type 0 where
  pub request_timestamps : List F
  pub prompt_history : List (String × F)

pub record Glycine (F : Type 0) : Type 0 where
  pub config : GlycineConfig F
  pub sessions : OrderedDict String (GlycineSession F)

-- `Norepinephrine.should_activate`
unfoldable pub should_activate : ℕ → Bool
should_activate difficulty = leb 4 difficulty

module _ {F : Type 0} ⦃fl : Float64 F⦄ where
  -- `Epinephrine.decide`
  unfoldable pub epinephrine_decide :
      EpinephrineConfig F → String → F → Bool × ModelTier × EpinephrineReason
  epinephrine_decide cfg category similarity =
      elim (get String_discrete category cfg.category_tier_map) [
        | none ↦ (false, standard, unknown_category)
        | some tier ↦
            if is_listed category cfg.high_compute_categories
            then if similarity <? cfg.similarity_threshold
              then (false, standard, similarity_gate_fail)
              else (true, tier, activated)
            else (false, tier, category_gate_fail)
      ]

  -- `Norepinephrine.modify_params`
  unfoldable pub modify_params : GenerationParams F → ModelTier → Bool → GenerationParams F
  unfolding tier_value
  modify_params params tier ne_active =
      if ne_active
      then if ltb (tier_value tier) (tier_value standard)
        then record params { ne_applied = false; ne_reason = some "tier_mismatch" }
        else record params {
          temperature = min_f params.temperature (ratio 1 10);
          top_k = max params.top_k 80;
          ne_applied = true;
          ne_reason = some "high_difficulty";
        }
      else record params { ne_applied = false; ne_reason = none }

  abbrev pub empty_session : GlycineSession F
  empty_session = record { request_timestamps = []; prompt_history = [] }

  -- `[t for t in state.request_timestamps if t >= window_start]`
  abbrev pub recent : GlycineConfig F → F → GlycineSession F → List F
  recent cfg now s = select (λ t. sub now cfg.rate_window_seconds <=? t) s.request_timestamps

  -- The entries of `prompt_history` that the loop guard counts.
  abbrev pub repeated : GlycineConfig F → F → String → GlycineSession F → List (String × F)
  repeated cfg now hash s =
      select
        (λ e.
          if sub now cfg.loop_window_seconds <=? e.1
          then ite (String_discrete e.0 hash) true false
          else false)
        s.prompt_history

  abbrev pub recorded : String → F → GlycineSession F → GlycineSession F
  recorded hash now s = record {
    request_timestamps = s.request_timestamps ++ now ∷ [];
    prompt_history = s.prompt_history ++ (hash, now) ∷ [];
  }

  -- The guards after the first, on the session's state.
  unfoldable pub guard_session :
      GlycineConfig F → String → F → GlycineSession F → Option GlycineReason
  guard_session cfg hash now s =
      if leb cfg.rate_max_requests (length (recent cfg now s))
      then some rate_limit_exceeded
      else if leb cfg.loop_threshold (suc (length (repeated cfg now hash s)))
      then some loop_detected
      else none

  -- `check_pre_flight`: why the request is blocked, if it is. A session that was not known is
  -- created once the budget is kept.
  unfoldable pub check_pre_flight :
      (String → ℕ)
      → (String → String)
      → String
      → String
      → F
      → Glycine F
      → Option GlycineReason × Glycine F
  unfolding guard_session found_or
  check_pre_flight size digest prompt session now g =
      let s = found_or String_discrete session empty_session g.sessions in
      let verdict = guard_session g.config (digest prompt) now s in
      if leb g.config.token_budget (size prompt / 4) then (some token_budget_exceeded, g) else (
        verdict,
        record g {
          sessions =
              set String_discrete session
                (elim verdict [ none ↦ recorded (digest prompt) now s | some reason ↦ s ])
                g.sessions;
        },
      )
