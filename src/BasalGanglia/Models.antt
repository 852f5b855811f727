-- ===== src/BasalGanglia/Models.antt =====
-- app/basal_ganglia/models.py: the candidates, the context, the decision and the configuration, with
-- the validators of their dataclasses. The type checks of the validators hold by typing, and so do
-- the lower bounds of counts and difficulty, which are natural numbers here.
use text.Mathlib.Text.{◌==◌ as str_beq}
use cortex_cognitive_runtime.Prelude.{
  ℕ, Bool, true, false, not, ◌&&◌, ◌||◌, Option, none, some, List, [], ◌∷◌, String,
}
use cortex_cognitive_runtime.Int.{ℤ}
use cortex_cognitive_runtime.Float.{Float64, ◌<=?◌, ◌<?◌, ratio}
use cortex_cognitive_runtime.Routing.Task.{RoutePath, lightweight, standard, full_pipeline}

-- ActionCandidateType of app/basal_ganglia/models.py
pub data CandidateType : Type 0 where
  swarm_full swarm_minimal tier_1_5_augment fallback : CandidateType

-- `route_path_for_candidate_type` of app/basal_ganglia/advisor.py
unfoldable pub candidate_path : CandidateType → RoutePath
candidate_path swarm_full = full_pipeline
candidate_path swarm_minimal = standard
candidate_path tier_1_5_augment = lightweight
candidate_path fallback = lightweight

pub data JsonScalar (F : Type 0) : Type 0 where
  str : String → JsonScalar F
  int : ℤ → JsonScalar F
  float : F → JsonScalar F
  bool : Bool → JsonScalar F
  null : JsonScalar F

pub record ActionCandidate (F : Type 0) : Type 0 where
  pub candidate_id : String
  pub candidate_type : CandidateType
  pub target_category : Option String
  pub synapse_weight : Option F
  pub pfc_confidence : Option F
  pub lc_ne_level : Option F
  pub rpe_recent_positive_count : ℕ
  pub rpe_recent_negative_count : ℕ
  pub metadata : List (String × JsonScalar F)

pub record ActionSelectionContext (F : Type 0) : Type 0 where
  pub trace_id : String
  pub session_id : Option String
  pub category : Option String
  pub difficulty : ℕ
  pub pfc_active : Bool
  pub pfc_cue_type : Option String
  pub pfc_confidence : Option F
  pub pfc_intent_category : Option String
  pub lc_ne_level : Option F
  pub lc_intent_label : Option String
  pub synapse_weights : List (String × F)
  pub ifom_ttl_overrides : List (String × F)
  pub rpe_recent_positive_count : ℕ
  pub rpe_recent_negative_count : ℕ
  pub metadata : List (String × JsonScalar F)

-- What shifts the demand, and the label of the anchor.
pub data Signal : Type 0 where
  ne rpe synapse pfc difficulty : Signal

-- The text of a reason, by its parts.
pub data Reason (F : Type 0) : Type 0 where
  no_candidates error : Reason F
  matched : (selected : CandidateType) (compute demand score : F) (primary : Signal) → Reason F

pub record ActionSelectionDecision (F : Type 0) : Type 0 where
  pub context : ActionSelectionContext F
  pub candidates : List (ActionCandidate F)
  pub selected : Option (ActionCandidate F)
  pub confidence : F
  pub reason : Reason F
  pub applied : Bool

-- ActionSelectionPolicyConfig
pub record PolicyConfig (F : Type 0) : Type 0 where
  pub ne_demand_factor : F
  pub rpe_demand_factor : F
  pub synapse_demand_factor : F
  pub pfc_demand_factor : F

unfoldable pub is_seen : String → List String → Bool
is_seen key [] = false
is_seen key (s ∷ seen) = str_beq key s || is_seen key seen

-- `_validate_scalar_pairs` and `_validate_float_pairs`: the keys are distinct and not empty, and
-- `fits` tests the values.
unfoldable pub pairs_ok : {V : Type 0} → (V → Bool) → List String → List (String × V) → Bool
unfolding is_seen
pairs_ok fits seen [] = true
pairs_ok fits seen ((key, value) ∷ pairs) =
    let rest = pairs_ok fits (key ∷ seen) pairs in
    not (str_beq key "") && not (is_seen key seen) && fits value && rest

module _ {F : Type 0} ⦃fl : Float64 F⦄ where
  unfoldable pub in_unit : F → Bool
  in_unit x = ratio 0 1 <=? x && x <=? ratio 1 1

  abbrev pub none_or_unit : Option F → Bool
  none_or_unit none = true
  none_or_unit (some x) = in_unit x

  -- `ActionCandidate.__post_init__` accepts the candidate.
  unfoldable pub candidate_ok : ActionCandidate F → Bool
  unfolding pairs_ok in_unit
  candidate_ok c =
      not (str_beq c.candidate_id "")
      && none_or_unit c.synapse_weight
      && none_or_unit c.pfc_confidence
      && none_or_unit c.lc_ne_level
      && pairs_ok (λ _. true) [] c.metadata

  -- `ActionSelectionContext.__post_init__` accepts the context.
  unfoldable pub context_ok : ActionSelectionContext F → Bool
  unfolding pairs_ok in_unit
  context_ok c =
      not (str_beq c.trace_id "")
      && none_or_unit c.pfc_confidence
      && none_or_unit c.lc_ne_level
      && pairs_ok in_unit [] c.synapse_weights
      && pairs_ok (λ ttl. ratio 0 1 <? ttl) [] c.ifom_ttl_overrides
      && pairs_ok (λ _. true) [] c.metadata

  -- `selected in candidates`; `same` is identity or the equality that the dataclass generates.
  unfoldable pub is_member :
      (ActionCandidate F → ActionCandidate F → Bool)
      → ActionCandidate F
      → List (ActionCandidate F)
      → Bool
  is_member same c [] = false
  is_member same c (x ∷ xs) = same x c || is_member same c xs

  -- `ActionSelectionDecision.__post_init__`; no reason that the code builds is empty.
  unfoldable pub decision_ok :
      (ActionCandidate F → ActionCandidate F → Bool) → ActionSelectionDecision F → Bool
  unfolding is_member in_unit
  decision_ok same d =
      not d.applied
      && in_unit d.confidence
      && elim d.selected [ none ↦ true | some c ↦ is_member same c d.candidates ]
