-- ===== src/Rpe/Proposal.antt =====
-- app/rpe/models.py and app/rpe/calculators.py: what was observed of a request, and the change of a
-- learned weight that is proposed for it.
pub mod Bounds
use cortex_cognitive_runtime.Prelude.{
  ℕ, Bool, true, false, not, ◌&&◌, ◌||◌, Option, none, some, List, [], ◌∷◌, ltb, if◌then◌else◌,
  String, String_discrete, ite,
}
use text.Mathlib.Text.{◌==◌ as str_beq}
use cortex_cognitive_runtime.Float.{Float64, ratio, add, sub, mul, neg, clamp, ◌<=?◌}
use cortex_cognitive_runtime.Rpe.Cell.{CellKey}

-- `RPESignalSource`
pub data SignalSource : Type 0 where
  mock heuristic cp3 user_feedback : SignalSource

-- The targets that a proposal may have.
pub data Target : Type 0 where
  synapse_weight ifom_ttl : Target

-- The fields of RPEContext that learning reads.
pub record RpeContext : Type 0 where
  pub trace_id : String
  pub session_id : Option String
  pub category : Option String
  pub difficulty : ℕ

pub record RpeReward (F : Type 0) : Type 0 where
  pub source : SignalSource
  pub expected_reward : F
  pub actual_reward : F
  pub confidence : F

pub record RpeDecision (F : Type 0) : Type 0 where
  pub reward : RpeReward F
  pub context : RpeContext

-- The fields of DryRunConfig that concern weights; `enabled` is whether "synapse_weight" is among
-- the enabled targets.
pub record DryRunConfig (F : Type 0) : Type 0 where
  pub enabled : Bool
  pub max_delta : F
  pub allowed_categories : List String
  pub synapse_weight_min : F
  pub synapse_weight_max : F

-- RPEProposal. The key is what its string spells, here of any type K.
pub record RpeProposal (K F : Type 0) : Type 0 where
  pub decision : RpeDecision F
  pub target : Target
  pub target_key : K
  pub current_value : Option F
  pub proposed_delta : F
  pub proposed_value : Option F
  pub max_delta : F
  pub rollback_id : String
  pub confidence : F

-- `category in allowed_categories`
abbrev pub is_allowed : String → List String → Bool
is_allowed c [] = false
is_allowed c (d ∷ ds) = ite (String_discrete c d) true (is_allowed c ds)

module _ {F : Type 0} ⦃fl : Float64 F⦄ where
  -- `RPEReward.prediction_error`
  unfoldable pub prediction_error : RpeReward F → F
  prediction_error r = clamp (sub r.actual_reward r.expected_reward) (neg (ratio 1 1)) (ratio 1 1)

  -- `lo <= v <= hi`
  abbrev pub in_range : F → F → F → Bool
  in_range lo hi v = lo <=? v && v <=? hi

  -- `current_value is not None and not (min <= current_value <= max)`
  unfoldable pub out_of_range : DryRunConfig F → Option F → Bool
  out_of_range cfg none = false
  out_of_range cfg (some v) = not (in_range cfg.synapse_weight_min cfg.synapse_weight_max v)

  unfoldable pub delta_of : DryRunConfig F → RpeReward F → F
  unfolding prediction_error
  delta_of cfg r =
      clamp (mul (mul (prediction_error r) r.confidence) cfg.max_delta) (neg cfg.max_delta)
        cfg.max_delta

  unfoldable pub proposed_from : DryRunConfig F → F → Option F → Option F
  proposed_from cfg delta none = none
  proposed_from cfg delta (some v) =
      some (clamp (add v delta) cfg.synapse_weight_min cfg.synapse_weight_max)

  -- `SynapseDifficultyDryRunCalculator.compute_proposal`. The checks that RPEProposal makes on
  -- construction hold of what is built here.
  unfoldable pub compute_proposal :
      DryRunConfig F → String → RpeDecision F → Option F → Option (RpeProposal CellKey F)
  unfolding out_of_range delta_of proposed_from
  compute_proposal cfg rollback_id decision current =
      if not cfg.enabled then none else elim decision.context.category [
        | none ↦ none
        | some category ↦
            if str_beq category ""
            then none
            else if not (is_allowed category cfg.allowed_categories)
            then none
            else if ltb decision.context.difficulty 1
            then none
            else if out_of_range cfg current
            then none
            else some (record {
              decision = decision;
              target = synapse_weight;
              target_key = record { category = category; difficulty = decision.context.difficulty };
              current_value = current;
              proposed_delta = delta_of cfg decision.reward;
              proposed_value = proposed_from cfg (delta_of cfg decision.reward) current;
              max_delta = cfg.max_delta;
              rollback_id = rollback_id;
              confidence = decision.reward.confidence;
            })
      ]
