-- ===== src/RateLimit.antt =====
-- demo_backend/rate_limit.py: the three limits of the demo's request counter. A check is atomic in
-- the source, so it is one function of the state.
pub mod Reference
pub mod Windows
mod Tests
use cortex_cognitive_runtime.Prelude.{
  ℕ, suc, ◌+◌, max, Bool, true, false, Option, none, some, List, [], ◌∷◌, ◌++◌, leb, length,
  if◌then◌else◌, String, String_discrete,
}
use cortex_cognitive_runtime.OrderedDict.{OrderedDict, get, set}
use cortex_cognitive_runtime.Float.{Float64, add, sub, ◌<=?◌}

pub data Scope : Type 0 where
  per_minute per_session global : Scope

pub record RateLimitResult : Type 0 where
  pub allowed : Bool
  pub scope : Option Scope
  pub limit : Option ℕ
  pub retry_after : Option ℕ

pub record RateLimiter (F : Type 0) : Type 0 where
  pub per_minute : ℕ
  pub per_session : ℕ
  pub global_total : ℕ
  pub window_seconds : F
  pub minute_hits : OrderedDict String (List F)
  pub session_totals : OrderedDict String ℕ
  pub global_count : ℕ

abbrev pub granted : RateLimitResult
granted = record { allowed = true; scope = none; limit = none; retry_after = none }

abbrev pub refused : Scope → ℕ → Option ℕ → RateLimitResult
refused s n retry = record { allowed = false; scope = some s; limit = some n; retry_after = retry }

module _ {F : Type 0} where
  -- `self._session_totals.get(session_id, 0)`
  abbrev pub total_of : String → RateLimiter F → ℕ
  total_of id r = elim (get String_discrete id r.session_totals) [ none ↦ 0 | some n ↦ n ]

  -- `self._minute_hits.setdefault(session_id, deque())`
  abbrev pub hits_of : String → RateLimiter F → List F
  hits_of id r = elim (get String_discrete id r.minute_hits) [ none ↦ [] | some hs ↦ hs ]

module _ {F : Type 0} ⦃fl : Float64 F⦄ where
  -- `while hits and hits[0] <= cutoff: hits.popleft()`
  unfoldable pub drop_expired : F → List F → List F
  drop_expired cutoff [] = []
  drop_expired cutoff (h ∷ hs) =
      let rest = drop_expired cutoff hs in if h <=? cutoff then rest else h ∷ hs

  abbrev pub recent_hits : String → F → RateLimiter F → List F
  recent_hits id now r = drop_expired (sub now r.window_seconds) (hits_of id r)

  -- `max(1, int(hits[0] + window - now) + 1)`. `truncate` is `int`, and 0 below 0, which the `max`
  -- does not see.
  unfoldable pub retry_of : (F → ℕ) → F → F → List F → ℕ
  retry_of truncate window now [] = 1
  retry_of truncate window now (h ∷ hs) = max 1 (truncate (sub (add h window) now) + 1)

  -- `check`
  unfoldable pub check : (F → ℕ) → String → F → RateLimiter F → RateLimitResult × RateLimiter F
  unfolding drop_expired retry_of
  check truncate id now r =
      let hits = recent_hits id now r in
      let pruned : RateLimiter F = record r {
        minute_hits = set String_discrete id hits r.minute_hits;
      } in
      if leb r.global_total r.global_count
      then (refused global r.global_total none, r)
      else if leb r.per_session (total_of id r)
      then (refused per_session r.per_session none, r)
      else if leb r.per_minute (length hits)
      then (
        refused per_minute r.per_minute (some (retry_of truncate r.window_seconds now hits)),
        pruned,
      )
      else (
        granted,
        record r {
          minute_hits = set String_discrete id (hits ++ now ∷ []) r.minute_hits;
          session_totals = set String_discrete id (suc (total_of id r)) r.session_totals;
          global_count = suc r.global_count;
        },
      )
