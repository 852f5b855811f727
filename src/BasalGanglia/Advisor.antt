-- ===== src/BasalGanglia/Advisor.antt =====
-- BasalGangliaAdvisor of app/basal_ganglia/advisor.py and the call of it in _basal_ganglia_apply of
-- app/api/routes.py. `same` is the equality of candidates that the dataclass generates, `id_lt` the
-- order of Python's strings.
use text.Mathlib.Text.{◌==◌ as str_beq}
use cortex_cognitive_runtime.Prelude.{
  Bool, false, Option, none, some, List, [], ◌∷◌, map, if◌then◌else◌, String, is_some, ℕ,
}
use cortex_cognitive_runtime.Float.{Float64, ratio}
use cortex_cognitive_runtime.Routing.Task.{TaskContext, level}
use cortex_cognitive_runtime.Rpe.RecentCounter.{RecentCounter, counts}
use cortex_cognitive_runtime.BasalGanglia.Models.{
  CandidateType, swarm_full, swarm_minimal, tier_1_5_augment, fallback, ActionCandidate,
  ActionSelectionContext, ActionSelectionDecision, error, PolicyConfig, candidate_ok, context_ok,
  decision_ok,
}
use cortex_cognitive_runtime.BasalGanglia.Policy.{context_synapse, select}

-- The f-string `default:{ctype}`
unfoldable pub default_id : CandidateType → String
default_id swarm_full = "default:swarm_full"
default_id swarm_minimal = "default:swarm_minimal"
default_id tier_1_5_augment = "default:tier_1_5_augment"
default_id fallback = "default:fallback"

abbrev pub default_types : List CandidateType
default_types = swarm_full ∷ swarm_minimal ∷ tier_1_5_augment ∷ fallback ∷ []

-- What the apply stage reads of the prefrontal cortex's decision.
pub record PfcSnapshot (F : Type 0) : Type 0 where
  pub cue_type : String
  pub confidence : F
  pub intent_category : Option String

-- `_safe_getattr_str`
unfoldable pub non_empty : Option String → Option String
non_empty none = none
non_empty (some s) = if str_beq s "" then none else some s

unfoldable pub recent_counts : Option RecentCounter → String → Option String → ℕ × ℕ
unfolding counts non_empty
recent_counts none session category = (0, 0)
recent_counts (some counter) session category = elim (non_empty category) [
  | none ↦ (0, 0)
  | some c ↦ counts (record { session = session; category = c }) counter
]

module _ {F : Type 0} ⦃fl : Float64 F⦄ where
  unfoldable pub default_candidate : ActionSelectionContext F → CandidateType → ActionCandidate F
  unfolding default_id context_synapse
  default_candidate context kind = record {
    candidate_id = default_id kind;
    candidate_type = kind;
    target_category = context.category;
    synapse_weight = context_synapse context;
    pfc_confidence = context.pfc_confidence;
    lc_ne_level = context.lc_ne_level;
    rpe_recent_positive_count = context.rpe_recent_positive_count;
    rpe_recent_negative_count = context.rpe_recent_negative_count;
    metadata = [];
  }

  -- The constructors raise where a validator refuses: no result then.
  unfoldable pub all_built : List (ActionCandidate F) → Option (List (ActionCandidate F))
  unfolding candidate_ok
  all_built [] = some []
  all_built (c ∷ cs) =
      let rest = all_built cs in
      if candidate_ok c then elim rest [ none ↦ none | some l ↦ some (c ∷ l) ] else none

  unfoldable pub build_default_candidates :
      ActionSelectionContext F → Option (List (ActionCandidate F))
  unfolding all_built default_candidate
  build_default_candidates context = all_built (map (default_candidate context) default_types)

  -- The answer of the `except` clause
  unfoldable pub fail_safe : ActionSelectionContext F → ActionSelectionDecision F
  fail_safe context = record {
    context = context;
    candidates = [];
    selected = none;
    confidence = ratio 0 1;
    reason = error;
    applied = false;
  }

  -- `evaluate`, with `none` for the candidates
  unfoldable pub evaluate_built :
      (ActionCandidate F → ActionCandidate F → Bool)
      → (String → String → Bool)
      → PolicyConfig F
      → ActionSelectionContext F
      → Option (List (ActionCandidate F))
      → ActionSelectionDecision F
  unfolding select fail_safe decision_ok
  evaluate_built same id_lt cfg context none = fail_safe context
  evaluate_built same id_lt cfg context (some candidates) =
      let (selected, confidence, reason) = select id_lt cfg context candidates in
      let decision : ActionSelectionDecision F = record {
        context = context;
        candidates = candidates;
        selected = selected;
        confidence = confidence;
        reason = reason;
        applied = false;
      } in
      if decision_ok same decision then decision else fail_safe context

  unfoldable pub evaluate :
      (ActionCandidate F → ActionCandidate F → Bool)
      → (String → String → Bool)
      → PolicyConfig F
      → ActionSelectionContext F
      → ActionSelectionDecision F
  unfolding evaluate_built build_default_candidates
  evaluate same id_lt cfg context =
      evaluate_built same id_lt cfg context (build_default_candidates context)

  -- The context that the apply stage builds of a request.
  unfoldable pub request_context :
      Option (PfcSnapshot F)
      → Option RecentCounter
      → String
      → TaskContext F
      → ActionSelectionContext F
  unfolding recent_counts level non_empty
  request_context pfc counter session t =
      let (positive, negative) = recent_counts counter session t.category in
      record {
        trace_id = t.trace_id;
        session_id = some session;
        category = t.category;
        difficulty = level t.difficulty;
        pfc_active = is_some pfc;
        pfc_cue_type = elim pfc [ none ↦ none | some p ↦ non_empty (some p.cue_type) ];
        pfc_confidence = elim pfc [ none ↦ none | some p ↦ some p.confidence ];
        pfc_intent_category = elim pfc [ none ↦ none | some p ↦ non_empty p.intent_category ];
        lc_ne_level = some (if t.ne_boost then ratio 1 1 else ratio 0 1);
        lc_intent_label = none;
        synapse_weights = t.synapse_snapshot;
        ifom_ttl_overrides = [];
        rpe_recent_positive_count = positive;
        rpe_recent_negative_count = negative;
        metadata = [];
      }

  -- The type of the candidate that the apply stage is given; none where an exception is caught.
  unfoldable pub recommended :
      (ActionCandidate F → ActionCandidate F → Bool)
      → (String → String → Bool)
      → PolicyConfig F
      → ActionSelectionContext F
      → Option CandidateType
  unfolding evaluate context_ok
  recommended same id_lt cfg context =
      let decision = evaluate same id_lt cfg context in
      if context_ok context
      then elim decision.selected [ none ↦ none | some c ↦ some c.candidate_type ]
      else none
