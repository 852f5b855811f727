-- ===== src/Routing/Neuromodulators/Tests.antt =====
-- Runs of glycine's guards, and the instance of their theorem.
use cortex_cognitive_runtime.Prelude.{
  ◌≡◌, ◌≢◌, ◌≤◌, ◌<◌, refl, some, [], ◌∷◌, length, String, String_discrete, ℕ, dec_of_iff,
  ℕ_discrete,
}
use cortex_cognitive_runtime.Int.{ℤ, pos}
use cortex_cognitive_runtime.Float.Fixed.{thousandths}
use cortex_cognitive_runtime.OrderedDict.{get, set}
use cortex_cognitive_runtime.OrderedDict.Bounded.{found_or}
use cortex_cognitive_runtime.Routing.Neuromodulators.{
  Glycine, GlycineConfig, check_pre_flight, guard_session, loop_detected, rate_limit_exceeded,
  recent, recorded, repeated, token_budget_exceeded,
}
use cortex_cognitive_runtime.Routing.Neuromodulators.Brake.{check_pre_flight_lem, session_after}

program : Unit {0}
unfolding String_discrete ℕ_discrete dec_of_iff get set found_or check_pre_flight guard_session
program = tt

-- Two requests in a window of ten seconds, and no prompt thrice in five.
abbrev config : GlycineConfig ℤ
config = record {
  token_budget = 100;
  rate_window_seconds = pos 10000;
  rate_max_requests = 2;
  loop_threshold = 3;
  loop_window_seconds = pos 5000;
}

-- One request at the first second.
abbrev brake : Glycine ℤ
brake = record {
  config = config;
  sessions =
      ("s", record { request_timestamps = pos 1000 ∷ []; prompt_history = ("p", pos 1000) ∷ [] })
      ∷ [];
}

abbrev size : String → ℕ
size p = 8

abbrev digest : String → String
digest p = p

-- The second request passes, the third is one too many.
third_request :
    (check_pre_flight size digest "q" "s"
      (pos 3000)
      (check_pre_flight size digest "p" "s" (pos 2000) brake).1).0
    ≡ some rate_limit_exceeded
unfolding program
third_request = refl

long_request :
    (check_pre_flight (λ p. 400) digest "p" "s" (pos 2000) brake).0 ≡ some token_budget_exceeded
unfolding program
long_request = refl

-- With room for more requests, the third of one prompt is a loop.
looping_request :
    (check_pre_flight size digest "p" "s"
      (pos 3000)
      (check_pre_flight size digest "p" "s"
        (pos 2000)
        (record brake { config = record config { rate_max_requests = 9 } })).1).0
    ≡ some loop_detected
unfolding program
looping_request = refl

check_pre_flight_lem_example :
    let g' = (check_pre_flight size digest "p" "s" (pos 2000) brake).1 in
    let s' = recorded "p" (pos 2000) (session_after "s" brake) in
    (2 < 100)
    × (get String_discrete "s" g'.sessions ≡ some s')
    × (length (recent config (pos 2000) s') ≤ 2)
    × (length (repeated config (pos 2000) "p" s') < 3)
    × ((j : String)
        → j ≢ "s"
        → get String_discrete j g'.sessions ≡ get String_discrete j brake.sessions)
unfolding program
check_pre_flight_lem_example = check_pre_flight_lem size digest "p" "s" (pos 2000) brake refl
