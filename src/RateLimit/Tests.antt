-- ===== src/RateLimit/Tests.antt =====
-- Runs of the limiter, and the instances of its theorems: two requests a minute, three a session,
-- four in all.
use cortex_cognitive_runtime.Prelude.{
  ℕ, ◌≡◌, refl, true, false, List, [], ◌∷◌, String, String_discrete, dec_of_iff,
}
use cortex_cognitive_runtime.Int.{ℤ, pos, negsuc}
use cortex_cognitive_runtime.Float.Fixed.{thousandths}
use cortex_cognitive_runtime.OrderedDict.{get, set}
use cortex_cognitive_runtime.RateLimit.{RateLimiter, drop_expired, retry_of, check}
use cortex_cognitive_runtime.RateLimit.Reference.{answers}

limiter_program : Unit {0}
unfolding String_discrete dec_of_iff get set drop_expired retry_of check answers
limiter_program = tt

abbrev seconds : ℤ → ℕ
seconds (pos n) = n
seconds (negsuc n) = 0

abbrev idle_limiter : RateLimiter ℤ
idle_limiter = record {
  per_minute = 2;
  per_session = 3;
  global_total = 4;
  window_seconds = pos 60;
  minute_hits = [];
  session_totals = [];
  global_count = 0;
}

abbrev requests : List (String × ℤ)
requests = ("a", pos 100) ∷ ("a", pos 110) ∷ ("a", pos 120) ∷ ("a", pos 165) ∷ ("b", pos 166) ∷ []

-- The third request comes too early, the fourth is served again.
requests_answered : answers seconds requests idle_limiter ≡ true ∷ true ∷ false ∷ true ∷ true ∷ []
unfolding limiter_program
requests_answered = refl
