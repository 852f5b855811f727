-- ===== src/Routing/Pipeline/Advised.antt =====
-- `_basal_ganglia_apply` of app/api/routes.py with the advisor of app/basal_ganglia in it.
use cortex_cognitive_runtime.Prelude.{◌≡◌, Bool, true, Option, some, String, max, arith}
use cortex_cognitive_runtime.Float.{Float64}
use cortex_cognitive_runtime.Rpe.RecentCounter.{RecentCounter}
use cortex_cognitive_runtime.Routing.Task.{TaskContext, RouteDecision}
use cortex_cognitive_runtime.BasalGanglia.Models.{
  CandidateType, ActionCandidate, PolicyConfig, candidate_path, context_ok, ActionSelectionContext,
}
use cortex_cognitive_runtime.BasalGanglia.Policy.{demand_of, score_of}
use cortex_cognitive_runtime.BasalGanglia.Advisor.{PfcSnapshot, recommended, request_context}
use cortex_cognitive_runtime.BasalGanglia.Choice.{Outranks}
use cortex_cognitive_runtime.BasalGanglia.Evaluation.{evaluate_lem}
use cortex_cognitive_runtime.Routing.Pipeline.{ladder_index, bg_apply}

module _ {F : Type 0} ⦃fl : Float64 F⦄ where
  unfoldable pub apply_stage :
      (ActionCandidate F → ActionCandidate F → Bool)
      → (String → String → Bool)
      → PolicyConfig F
      → Option (PfcSnapshot F)
      → Option RecentCounter
      → String
      → Bool
      → TaskContext F
      → RouteDecision F
      → TaskContext F × RouteDecision F
  unfolding bg_apply recommended request_context
  apply_stage same id_lt cfg pfc counter session enabled t d =
      bg_apply enabled (recommended same id_lt cfg (request_context pfc counter session t)) t d

  recommended_lem :
      (same : ActionCandidate F → ActionCandidate F → Bool) (id_lt : String → String → Bool)
      (cfg : PolicyConfig F) (context : ActionSelectionContext F)
      → ((x : ActionCandidate F) → same x x ≡ true)
      → context_ok context ≡ true
      → (best : CandidateType) × (recommended same id_lt cfg context ≡ some best)
        × ((kind : CandidateType)
            → Outranks best
                (score_of (demand_of cfg context).0 best)
                kind
                (score_of (demand_of cfg context).0 kind))
  unfolding recommended
  recommended_lem same id_lt cfg context same-refl ok =
      let (s, selected, best, _) = evaluate_lem same id_lt cfg context same-refl ok in
      (s.candidate_type, ground (arith, selected, ok), best)

  bg_apply-max :
      (kind : CandidateType) (t : TaskContext F) (d : RouteDecision F)
      → ladder_index (bg_apply true (some kind) t d).1.path
        ≡ max (ladder_index d.path) (ladder_index (candidate_path kind))
  unfolding bg_apply
  bg_apply-max kind t d = ground arith

  -- With the promotion enabled and a valid context, a request leaves the basal ganglia on the
  -- heavier of two bands: the one that it came on, and the one of the candidate type that fits the
  -- demand best, which the advisor always finds. The equality of candidates has to be reflexive.
  pub apply_stage_lem :
      (same : ActionCandidate F → ActionCandidate F → Bool) (id_lt : String → String → Bool)
      (cfg : PolicyConfig F) (pfc : Option (PfcSnapshot F)) (counter : Option RecentCounter)
      (session : String) (t : TaskContext F) (d : RouteDecision F)
      → ((x : ActionCandidate F) → same x x ≡ true)
      → context_ok (request_context pfc counter session t) ≡ true
      → (best : CandidateType) × ((kind : CandidateType)
          → Outranks best
              (score_of (demand_of cfg (request_context pfc counter session t)).0 best)
              kind
              (score_of (demand_of cfg (request_context pfc counter session t)).0 kind))
        × (ladder_index (apply_stage same id_lt cfg pfc counter session true t d).1.path
            ≡ max (ladder_index d.path) (ladder_index (candidate_path best)))
  unfolding apply_stage
  apply_stage_lem same id_lt cfg pfc counter session t d same-refl ok =
      let (best, e, outranks) =
        recommended_lem same id_lt cfg (request_context pfc counter session t) same-refl ok in
      (best, outranks, rw e (bg_apply-max best t d))
