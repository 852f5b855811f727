-- ===== src/BasalGanglia/Tests.antt =====
-- Runs of the advisor in thousandths, and the instances of its theorems.
use text.Mathlib.Text.{◌==◌ as str_beq}
use text.Mathlib.TextEquality.{eq_iff}
use cortex_cognitive_runtime.Prelude.{
  ◌≡◌, refl, Bool, true, false, none, some, [], ◌∷◌, String, max,
}
use cortex_cognitive_runtime.Int.{ℤ, pos}
use cortex_cognitive_runtime.Float.{clamp}
use cortex_cognitive_runtime.Float.Fixed.{thousandths}
use cortex_cognitive_runtime.Sorting.{sort_with, insert_sorted}
use cortex_cognitive_runtime.Routing.Task.{
  Difficulty, ModelTier, TaskContext, RouteDecision, level, standard,
}
use cortex_cognitive_runtime.BasalGanglia.Models.{
  CandidateType, swarm_full, swarm_minimal, ActionCandidate, ActionSelectionContext, PolicyConfig,
  candidate_ok, candidate_path, context_ok, decision_ok, in_unit, is_member, is_seen, pairs_ok,
}
use cortex_cognitive_runtime.BasalGanglia.Policy.{
  before_by, compute_level, confidence_of, context_synapse, deltas, demand_of, difficulty_demand,
  largest, primary_of, score_of, select, select_by, type_priority, weight_of,
}
use cortex_cognitive_runtime.BasalGanglia.Advisor.{
  PfcSnapshot, all_built, build_default_candidates, default_candidate, default_id, evaluate,
  evaluate_built, fail_safe, non_empty, recent_counts, recommended, request_context,
}
use cortex_cognitive_runtime.BasalGanglia.Choice.{Outranks, IsChoice, select_lem}
use cortex_cognitive_runtime.BasalGanglia.Evaluation.{evaluate_lem}
use cortex_cognitive_runtime.Routing.Pipeline.{bg_apply, ladder_index, stamp}
use cortex_cognitive_runtime.Routing.Pipeline.Advised.{apply_stage, apply_stage_lem}

-- All that a run computes with.
advisor_program : Unit {0}
unfolding clamp sort_with insert_sorted level candidate_ok candidate_path context_ok decision_ok
    in_unit is_member is_seen pairs_ok before_by compute_level confidence_of context_synapse deltas
    demand_of difficulty_demand largest primary_of score_of select select_by type_priority weight_of
    all_built build_default_candidates default_candidate default_id evaluate evaluate_built
    fail_safe non_empty recent_counts recommended request_context bg_apply ladder_index stamp
    apply_stage
advisor_program = tt

abbrev factors : PolicyConfig ℤ
factors = record {
  ne_demand_factor = pos 200;
  rpe_demand_factor = pos 150;
  synapse_demand_factor = pos 150;
  pfc_demand_factor = pos 100;
}

abbrev same_id : ActionCandidate ℤ → ActionCandidate ℤ → Bool
same_id x y = str_beq x.candidate_id y.candidate_id

same_id_refl : (x : ActionCandidate ℤ) → same_id x x ≡ true
same_id_refl x = (eq_iff x.candidate_id x.candidate_id).1 refl

abbrev never : String → String → Bool
never s t = false

abbrev hard_task : TaskContext ℤ
hard_task = record {
  trace_id = "t";
  prompt = "p";
  category = some "coding";
  difficulty = Difficulty.hard;
  ne_boost = true;
  synapse_snapshot = ("coding", pos 100) ∷ [];
  epinephrine_active = false;
  epinephrine_reason = none;
  selected_tier = ModelTier.heavy;
  route_path = none;
}

abbrev unsure : PfcSnapshot ℤ
unsure = record { cue_type = "new"; confidence = pos 100; intent_category = none }

abbrev hard_context : ActionSelectionContext ℤ
hard_context = request_context (some unsure) none "s" hard_task

hard_context_ok : context_ok hard_context ≡ true
unfolding advisor_program
hard_context_ok = refl

-- An unfamiliar hard request with the boost on asks for the swarm.
hard_context-recommended : recommended same_id never factors hard_context ≡ some swarm_full
unfolding advisor_program
hard_context-recommended = refl

evaluate_lem_example :
    (s : ActionCandidate ℤ) × ((evaluate same_id never factors hard_context).selected ≡ some s)
    × ((kind : CandidateType)
        → Outranks s.candidate_type
            (score_of (demand_of factors hard_context).0 s.candidate_type)
            kind
            (score_of (demand_of factors hard_context).0 kind))
    × (in_unit (evaluate same_id never factors hard_context).confidence ≡ true)
evaluate_lem_example = evaluate_lem same_id never factors hard_context same_id_refl hard_context_ok

abbrev light_candidate : ActionCandidate ℤ
light_candidate = default_candidate hard_context swarm_minimal

abbrev heavy_candidate : ActionCandidate ℤ
heavy_candidate = default_candidate hard_context swarm_full

select_lem_example :
    IsChoice
      (demand_of factors hard_context).0
      (light_candidate ∷ heavy_candidate ∷ [])
      (select never factors hard_context (light_candidate ∷ heavy_candidate ∷ [])).0
      (select never factors hard_context (light_candidate ∷ heavy_candidate ∷ [])).1
select_lem_example = select_lem never factors hard_context light_candidate (heavy_candidate ∷ [])

abbrev standard_decision : RouteDecision ℤ
standard_decision = record { path = standard; skip_layers = []; reason = [] }

apply_stage_lem_example :
    (best : CandidateType) × ((kind : CandidateType)
      → Outranks best
          (score_of (demand_of factors hard_context).0 best)
          kind
          (score_of (demand_of factors hard_context).0 kind))
    × (ladder_index
          (apply_stage same_id never factors
            (some unsure)
            none
            "s"
            true
            hard_task
            standard_decision).1.path
        ≡ max (ladder_index standard) (ladder_index (candidate_path best)))
apply_stage_lem_example =
    apply_stage_lem same_id never factors (some unsure) none "s" hard_task standard_decision
      same_id_refl hard_context_ok
