-- ===== src/Routing/Pipeline.antt =====
-- app/api/routes.py, steps 7.15 to 8.2 of the routed path (the continuation path repeats them):
-- decay, gate, skip router, override, ratchet, and the promotion by the basal ganglia.
pub mod Advised
pub mod Protection
pub mod Sessions
use cortex_cognitive_runtime.Prelude.{
  ℕ, Bool, true, false, Option, none, some, [], ◌∷◌, ◌++◌, leb, if◌then◌else◌, String,
}
use cortex_cognitive_runtime.Float.{Float64}
use cortex_cognitive_runtime.Rpe.WeightStore.{WeightStore}
use cortex_cognitive_runtime.BasalGanglia.Models.{CandidateType, candidate_path}
use cortex_cognitive_runtime.Routing.Task.{
  RoutePath, lightweight, standard, full_pipeline, other, RouteDecision, TaskContext, bg_promote,
}
use cortex_cognitive_runtime.Routing.Override.{Thresholds}
use cortex_cognitive_runtime.Routing.Ratchet.{Ratchet}
use cortex_cognitive_runtime.Routing.Decay.{Decay}
use cortex_cognitive_runtime.Routing.SkipRouter.{route}
use cortex_cognitive_runtime.Routing.Override
use cortex_cognitive_runtime.Routing.Ratchet
use cortex_cognitive_runtime.Routing.Decay
use cortex_cognitive_runtime.Routing.Gate.{overlay}

-- `_band_index` of routes.py, one higher: it gives -1 for what is no band.
unfoldable pub ladder_index : RoutePath → ℕ
ladder_index lightweight = 1
ladder_index standard = 2
ladder_index full_pipeline = 3
ladder_index (other _) = 0

abbrev is_full : RoutePath → Bool
is_full full_pipeline = true
is_full _ = false

module _ {F : Type 0} where
  -- `route_path`, and epinephrine derived from it
  unfoldable pub stamp : RoutePath → TaskContext F → TaskContext F
  stamp path t = record t {
    route_path = some path;
    epinephrine_active = is_full path;
    epinephrine_reason = if is_full path then some "limit_break" else none;
  }

  -- `_basal_ganglia_apply`: `selected` is the type of the advisor's candidate, if it selected one.
  unfoldable pub bg_apply :
      Bool
      → Option CandidateType
      → TaskContext F
      → RouteDecision F
      → TaskContext F × RouteDecision F
  unfolding stamp ladder_index candidate_path
  bg_apply enabled none t d = (t, d)
  bg_apply enabled (some selected) t d =
      let band = candidate_path selected in
      if enabled
      then if leb (ladder_index band) (ladder_index d.path) then (t, d) else (
        stamp band t,
        record d { path = band; reason = d.reason ++ bg_promote d.path band ∷ [] },
      )
      else (t, d)

-- The organs' state and settings; `advise` is what the advisor selects for a context.
pub record Organs (S F : Type 0) : Type 0 where
  pub store : S
  pub ratchet : Ratchet
  pub decay : Decay
  pub thresholds : Thresholds F
  pub gate_enabled : Bool
  pub bg_enabled : Bool
  pub advise : TaskContext F → Option CandidateType

module _ {S F : Type 0} ⦃fl : Float64 F⦄ ⦃w : WeightStore S F⦄ where
  -- Steps 8 and 8.1: the decision behind the ratchet.
  unfoldable pub decide :
      Thresholds F → TaskContext F → Option String → S → Ratchet → RouteDecision F × S × Ratchet
  decide h t session s r =
      let (d, s') = Override.apply h (route t) t session s in
      let (d', r') = Ratchet.apply d t session r in (d', s', r')

  -- Steps 7.15 to 8.2
  unfoldable pub route_request :
      TaskContext F → Option String → Organs S F → TaskContext F × RouteDecision F × Organs S F
  route_request t session o =
      let (decay', s1, r1) = Decay.step t session o.decay o.store o.ratchet in
      let (t1, s2) = overlay o.gate_enabled t session s1 in
      let (d, s3, r2) = decide o.thresholds t1 session s2 r1 in
      let t2 = stamp d.path t1 in
      let (t3, d') = bg_apply o.bg_enabled (o.advise t2) t2 d in
      (t3, d', record o { store = s3; ratchet = r2; decay = decay' })
