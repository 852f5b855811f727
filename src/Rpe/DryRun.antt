-- ===== src/Rpe/DryRun.antt =====
-- SynapseWeightDryRunCalculator of app/rpe/calculators.py, and dry_run of app/rpe/dopamine.py, which
-- proposes of every decision a change of the category's weight and one of each TTL.
pub mod Proposals
mod Tests
use text.Mathlib.Text.{◌==◌ as str_beq}
use cortex_cognitive_runtime.Prelude.{
  Bool, true, false, not, Option, none, some, List, [], ◌∷◌, ◌++◌, if◌then◌else◌, String,
}
use cortex_cognitive_runtime.Float.{Float64}
use cortex_cognitive_runtime.Memory.Goal.{active, paused, completed}
use cortex_cognitive_runtime.Memory.Ifom.{TtlType, of_status, low_priority}
use cortex_cognitive_runtime.Rpe.Proposal.{
  DryRunConfig, RpeContext, RpeDecision, RpeProposal, RpeReward, delta_of, is_allowed, out_of_range,
  proposed_from, synapse_weight,
}
use cortex_cognitive_runtime.Rpe.Reward.{observe_rewards}
use cortex_cognitive_runtime.Rpe.Ttl.{TtlConfig, compute_ttl_proposal}
use cortex_cognitive_runtime.Rpe.Ttl.Keys.{TtlKey}

-- A proposal of either target; the key of a weight is the category that its string names.
pub data AnyProposal (F : Type 0) : Type 0 where
  weight_proposal : RpeProposal String F → AnyProposal F
  ttl_proposal : RpeProposal TtlKey F → AnyProposal F

-- `_IFOM_TTL_TYPES`
abbrev pub ttl_types : List TtlType
ttl_types = of_status active ∷ of_status paused ∷ of_status completed ∷ low_priority ∷ []

module _ {F : Type 0} ⦃fl : Float64 F⦄ where
  -- `SynapseWeightDryRunCalculator.compute_proposal`. The checks that RPEProposal makes on
  -- construction hold of what is built here.
  unfoldable pub compute_category_proposal :
      DryRunConfig F → String → RpeDecision F → Option F → Option (RpeProposal String F)
  unfolding out_of_range delta_of proposed_from
  compute_category_proposal cfg rollback_id decision current =
      if not cfg.enabled then none else elim decision.context.category [
        | none ↦ none
        | some category ↦
            if str_beq category ""
            then none
            else if not (is_allowed category cfg.allowed_categories)
            then none
            else if out_of_range cfg current
            then none
            else some (record {
              decision = decision;
              target = synapse_weight;
              target_key = category;
              current_value = current;
              proposed_delta = delta_of cfg decision.reward;
              proposed_value = proposed_from cfg (delta_of cfg decision.reward) current;
              max_delta = cfg.max_delta;
              rollback_id = rollback_id;
              confidence = decision.reward.confidence;
            })
      ]

-- What a dry run reads: the two halves of its configuration, the current values that the caller
-- names, and the fresh ids of the proposals.
pub record DryRun (F : Type 0) : Type 0 where
  pub weights : DryRunConfig F
  pub ttls : TtlConfig F
  pub current_weight : String → Option F
  pub current_ttl : TtlKey → Option F
  pub weight_id : RpeDecision F → String
  pub ttl_id : RpeDecision F → TtlType → String

module _ {F : Type 0} where
  abbrev pub listed_as : {A : Type 0} → (A → AnyProposal F) → Option A → List (AnyProposal F)
  listed_as f none = []
  listed_as f (some a) = f a ∷ []

  -- `(current_values or {}).get(key)`, where the context has a category
  abbrev pub named_weight : DryRun F → Option String → Option F
  named_weight r none = none
  named_weight r (some category) = if str_beq category "" then none else r.current_weight category

module _ {F : Type 0} ⦃fl : Float64 F⦄ where
  unfoldable pub weight_proposals : DryRun F → RpeDecision F → List (AnyProposal F)
  unfolding compute_category_proposal
  weight_proposals r d =
      listed_as weight_proposal
        (compute_category_proposal r.weights (r.weight_id d) d (named_weight r d.context.category))

  unfoldable pub ttl_proposals : DryRun F → RpeDecision F → List TtlType → List (AnyProposal F)
  unfolding compute_ttl_proposal
  ttl_proposals r d [] = []
  ttl_proposals r d (t ∷ ts) =
      listed_as ttl_proposal (
        compute_ttl_proposal r.ttls (r.ttl_id d t) d t
          (r.current_ttl (record { ttl_type = t; category = d.context.category })))
      ++ ttl_proposals r d ts

  unfoldable pub proposals_of : DryRun F → List (RpeDecision F) → List (AnyProposal F)
  unfolding weight_proposals ttl_proposals
  proposals_of r [] = []
  proposals_of r (d ∷ ds) =
      weight_proposals r d ++ (ttl_proposals r d ttl_types ++ proposals_of r ds)

  -- `dry_run`, of what each source answered
  unfoldable pub dry_run :
      DryRun F → RpeContext → List (Option (RpeReward F)) → List (AnyProposal F)
  unfolding proposals_of observe_rewards
  dry_run r context rewards = proposals_of r (observe_rewards context rewards)
