-- ===== src/Rpe/Service/Lifecycle.antt =====
-- After the mutation: `rollback` and `confirm_mutation` of app/rpe/service.py, the job of
-- app/rpe/rollback_scheduler.py, and `learn` of app/rpe/difficulty_learner.py.
pub mod Settled
use text.Mathlib.Text.{◌==◌ as str_beq}
use cortex_cognitive_runtime.Prelude.{
  ℕ, Bool, true, false, not, ◌&&◌, Option, none, some, List, [], ◌∷◌, ltb, select, is_some,
  if◌then◌else◌, String, String_discrete, ite,
}
use cortex_cognitive_runtime.OrderedDict.{OrderedDict, get, set}
use cortex_cognitive_runtime.Float.{Float64}
use cortex_cognitive_runtime.Rpe.Cell.{CellKey}
use cortex_cognitive_runtime.Rpe.WeightStore.{WeightStore}
use cortex_cognitive_runtime.Rpe.Proposal.{
  synapse_weight, ifom_ttl, RpeContext, RpeDecision, RpeProposal, DryRunConfig, compute_proposal,
}
use cortex_cognitive_runtime.Rpe.Mutator
use cortex_cognitive_runtime.Rpe.Mutator.{
  MutationRecord, RollbackStatus, available, rolled_back, expired,
}
use cortex_cognitive_runtime.Rpe.Service.{Service, apply_proposals}

abbrev pub is_pending : String → List String → Bool
is_pending id [] = false
is_pending id (j ∷ ids) = ite (String_discrete j id) true (is_pending id ids)

-- `self._pending.discard(rollback_id)`
abbrev pub discard : String → List String → List String
discard id = select (λ j. ite (String_discrete j id) false true)

-- `RollbackScheduler.confirm`; `has_job` is whether `remove_job` finds the job.
unfoldable pub confirm : Bool → String → List String → Bool × List String
confirm has_job id ids = if is_pending id ids then (has_job, discard id ids) else (false, ids)

module _ {S F : Type 0} where
  -- `confirm_mutation`
  unfoldable pub confirm_mutation : Bool → String → Service S F → Bool × Service S F
  unfolding confirm
  confirm_mutation has_job id v = elim v.pending [
    | none ↦ (false, v)
    | some ids ↦
        ((confirm has_job id ids).0, record v { pending = some (confirm has_job id ids).1 })
  ]

module _ {S F : Type 0} ⦃fl : Float64 F⦄ ⦃ws : WeightStore S F⦄ where
  -- The `try` of `rollback`: what the mutator raises leaves the record as it is.
  unfoldable pub take_back :
      String → MutationRecord CellKey F → F → Service S F → MutationRecord CellKey F × Service S F
  unfolding Mutator.rollback
  take_back id r now v = elim r.proposal.target [
    | ifom_ttl ↦ (r, v)
    | synapse_weight ↦
        let (result, st) = Mutator.rollback r now v.store in
        elim result [
          | none ↦ (r, record v { store = st })
          | some r' ↦ (r', record v { store = st; records = set String_discrete id r' v.records })
        ]
  ]

  -- `rollback`
  unfoldable pub rollback :
      String → F → Service S F → Option (MutationRecord CellKey F) × Service S F
  unfolding take_back
  rollback id now v = elim (get String_discrete id v.records) [
    | none ↦ (none, v)
    | some r ↦ elim r.rollback_status [
      | available ↦ let (r', v') = take_back id r now v in (some r', v')
      | rolled_back ↦ (some r, v)
      | expired ↦ (some r, v)
    ]
  ]

  -- `RollbackScheduler._fire`, with the service's `rollback` as its callback
  unfoldable pub fire : String → F → Service S F → Service S F
  unfolding rollback
  fire id now v =
      let v' : Service S F = elim v.pending [
        | none ↦ v
        | some ids ↦ record v { pending = some (discard id ids) }
      ] in
      (rollback id now v').1

module _ {F : Type 0} ⦃fl : Float64 F⦄ where
  -- The loop of `learn` over the decisions; each proposal takes a fresh id.
  unfoldable pub propose_all :
      DryRunConfig F → List (RpeDecision F × String) → List (RpeProposal CellKey F)
  unfolding compute_proposal
  propose_all cfg [] = []
  propose_all cfg ((decision, id) ∷ ds) = elim (compute_proposal cfg id decision none) [
    | none ↦ propose_all cfg ds
    | some p ↦ p ∷ propose_all cfg ds
  ]

module _ {S F : Type 0} ⦃fl : Float64 F⦄ ⦃ws : WeightStore S F⦄ where
  -- `learn`: `observed` is what `DopamineRPE.observe` returned, with the fresh ids.
  unfoldable pub learn :
      (CellKey → F → S → S)
      → (CellKey → Bool)
      → DryRunConfig F
      → F
      → RpeContext
      → List (RpeDecision F × String)
      → Service S F
      → List (MutationRecord CellKey F) × Service S F
  unfolding propose_all apply_proposals
  learn update_ema acquires cfg now context observed v =
      if not v.config.difficulty_learning_enabled
      then ([], v)
      else if not (is_some context.session_id)
      then ([], v)
      else elim context.category [
        | none ↦ ([], v)
        | some category ↦
            if str_beq category ""
            then ([], v)
            else if ltb context.difficulty 1
            then ([], v)
            else elim (propose_all cfg observed) [
              | [] ↦ ([], v)
              | p ∷ ps ↦ apply_proposals update_ema acquires none now (p ∷ ps) v
            ]
      ]
