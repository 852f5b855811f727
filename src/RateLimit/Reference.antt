-- ===== src/RateLimit/Reference.antt =====
-- The limiter against a specification that keeps no counters: a request has room if the requests
-- admitted before it leave room for it.
use cortex_cognitive_runtime.Prelude.{
  ℕ, ◌≡◌, Bool, true, ◌&&◌, List, [], ◌∷◌, length, ltb, ite, if◌then◌else◌, String, String_discrete,
}
use cortex_cognitive_runtime.Float.{Float64, sub, ◌<=?◌}
use cortex_cognitive_runtime.RateLimit.{
  RateLimiter, RateLimitResult, total_of, hits_of, drop_expired, check,
}
use cortex_cognitive_runtime.RateLimit.Windows.{Tracks, later_than}

-- The times of the requests of a session.
abbrev pub times : {F : Type 0} → String → List (String × F) → List F
times id [] = []
times id (e ∷ log) = ite (String_discrete e.0 id) (e.1 ∷ times id log) (times id log)

module _ {F : Type 0} ⦃fl : Float64 F⦄ where
  -- Whether the requests of the log leave room for one more, by the limits of `r`.
  abbrev pub has_room : RateLimiter F → List (String × F) → String → F → Bool
  has_room r log id now =
      ltb (length log) r.global_total
      && ltb (length (times id log)) r.per_session
      && ltb (later_than (sub now r.window_seconds) (times id log)) r.per_minute

  -- The answers that the limits of `r` ask for after the requests of the log were admitted.
  unfoldable pub reference : RateLimiter F → List (String × F) → List (String × F) → List Bool
  reference r log [] = []
  reference r log (q ∷ qs) =
      let room = has_room r log q.0 q.1 in room ∷ reference r (if room then q ∷ log else log) qs

  -- The answers of the limiter to the requests, one after the other.
  unfoldable pub answers : (F → ℕ) → List (String × F) → RateLimiter F → List Bool
  answers truncate [] r = []
  answers truncate (q ∷ qs) r =
      let (answer, r') = check truncate q.0 q.1 r in answer.allowed ∷ answers truncate qs r'

  -- The requests come in the order of their times, none before `start`.
  abbrev pub InOrder : F → List (String × F) → Type 0
  InOrder start [] = Unit
  InOrder start (q ∷ qs) = (start <=? q.1 ≡ true) × InOrder q.1 qs

module _ {F : Type 0} ⦃fl : Float64 F⦄ (r0 : RateLimiter F) where
  -- The limiter has the limits of `r0`, and its counters stand for the log.
  record Agrees (last : F) (log : List (String × F)) (r : RateLimiter F) : Type 0 where
    limits :
        (r.per_minute ≡ r0.per_minute)
        × (r.per_session ≡ r0.per_session)
        × (r.global_total ≡ r0.global_total)
        × (r.window_seconds ≡ r0.window_seconds)
    globally : r.global_count ≡ length log
    by_session : (id : String) → total_of id r ≡ length (times id log)
    by_minute : (id : String) → Tracks r0.window_seconds last (hits_of id r) (times id log)

  abbrev Fits : List (String × F) → String → F → RateLimitResult × RateLimiter F → Type 0
  Fits log id now x =
      (x.0.allowed ≡ has_room r0 log id now)
      × Agrees now (if has_room r0 log id now then (id, now) ∷ log else log) x.1

  module _ (truncate : F → ℕ) (id : String) (now last : F) (log : List (String × F))
      (r : RateLimiter F) (on : last <=? now ≡ true) (a : Agrees last log r) where
    abbrev kept_hits : List F
    kept_hits = drop_expired (sub now r0.window_seconds) (hits_of id r)
