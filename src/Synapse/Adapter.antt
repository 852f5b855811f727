-- ===== src/Synapse/Adapter.antt =====
-- SynapseStoreAdapter and SynapseWeightMutator of app/rpe/mutators.py: the weight of a category,
-- without its difficulty, changed in the store of app/synapse. The mutator's seed is of no use here.
use cortex_cognitive_runtime.Prelude.{
  Bool, not, Option, none, some, String, String_discrete, if◌then◌else◌,
}
use cortex_cognitive_runtime.OrderedDict.{get, set}
use cortex_cognitive_runtime.OrderedDict.Bounded.{found_or}
use cortex_cognitive_runtime.Float.{Float64}
use cortex_cognitive_runtime.Synapse.{
  SynapseState, SynapseStore, get_state, initial_state, update_state,
}
use cortex_cognitive_runtime.Rpe.Proposal.{RpeProposal, in_range}
use cortex_cognitive_runtime.Rpe.Mutator.{
  MutationRecord, Mutator, applied_record, built, is_sound, reverse_record, target_value,
}

module _ {F : Type 0} ⦃fl : Float64 F⦄ where
  -- `SynapseStoreAdapter.read_weight`
  unfoldable pub adapter_read : String → String → SynapseStore F → Option F × SynapseStore F
  unfolding get_state
  adapter_read session category m =
      let (s, m') = get_state session m in (get String_discrete category s.weights, m')

  -- `SynapseStoreAdapter.write_weight`; the state that it changes in place is the one it stores.
  unfoldable pub adapter_write : String → String → F → SynapseStore F → SynapseStore F
  unfolding get_state update_state
  adapter_write session category value m =
      let (s, m') = get_state session m in
      update_state session (record s { weights = set String_discrete category value s.weights }) m'

  -- `SynapseWeightMutator.apply_mutation`
  unfoldable pub apply_category_mutation :
      Mutator F
      → RpeProposal String F
      → F
      → Bool
      → F
      → SynapseStore F
      → Option (MutationRecord String F) × SynapseStore F
  unfolding is_sound adapter_write
  apply_category_mutation mu p previous mismatch now m =
      if not (in_range mu.weight_min mu.weight_max previous)
      then (none, m)
      else elim p.decision.context.session_id [
        | none ↦ (none, m)
        | some session ↦ (
          built (applied_record mu p previous mismatch now),
          adapter_write session p.target_key (target_value mu p previous) m,
        )
      ]

  -- `SynapseWeightMutator.rollback`
  unfoldable pub rollback_category :
      MutationRecord String F
      → F
      → SynapseStore F
      → Option (MutationRecord String F) × SynapseStore F
  unfolding is_sound adapter_write
  rollback_category r now m = elim r.proposal.decision.context.session_id [
    | none ↦ (none, m)
    | some session ↦ (
      built (reverse_record r now),
      adapter_write session r.proposal.target_key r.previous_value m,
    )
  ]

  abbrev weights_after : String → SynapseStore F → SynapseState F
  weights_after session m = found_or String_discrete session initial_state m.states
