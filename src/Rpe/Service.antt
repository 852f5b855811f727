-- ===== src/Rpe/Service.antt =====
-- RPEMutationService of app/rpe/service.py over the store of category and difficulty, with the
-- pending set of app/rpe/rollback_scheduler.py. `now` is the clock's reading and `acquires` tells for
-- each key whether its lock is had in time.
pub mod Lifecycle
pub mod SingleApply
pub mod Again
use text.Mathlib.Text.{◌==◌ as str_beq}
use cortex_cognitive_runtime.Prelude.{
  ℕ, Bool, true, false, not, ◌||◌, Option, none, some, List, [], ◌∷◌, ltb, select, if◌then◌else◌,
  String, String_discrete, ite,
}
use cortex_cognitive_runtime.OrderedDict.{OrderedDict, get, set}
use cortex_cognitive_runtime.Float.{Float64, ratio, sub, abs, ◌<?◌}
use cortex_cognitive_runtime.Rpe.Cell.{CellKey, CellKey_discrete}
use cortex_cognitive_runtime.Rpe.WeightStore.{WeightStore}
use cortex_cognitive_runtime.Rpe.Proposal.{synapse_weight, ifom_ttl, RpeProposal}
use cortex_cognitive_runtime.Rpe.Mutator.{
  Mutator, MutationRecord, addressed, read_current_weight, apply_mutation,
}
use cortex_cognitive_runtime.Rpe.Selection.{
  TraceKey, TraceKey_discrete, ActiveConfig, threshold_block_reason, qualifies, group_from,
  select_winner,
}

-- `pending` is the scheduler's set, if there is a scheduler.
pub record Service (S F : Type 0) : Type 0 where
  pub config : ActiveConfig F
  pub mutator : Mutator F
  pub store : S
  pub applied_in_trace : OrderedDict TraceKey String
  pub records : OrderedDict String (MutationRecord CellKey F)
  pub pending : Option (List String)

-- `RollbackScheduler.schedule`: the pending set, with the id once.
unfoldable pub schedule : String → Option (List String) → Option (List String)
schedule id none = none
schedule id (some ids) = some (id ∷ select (λ j. ite (String_discrete j id) false true) ids)

module _ {F : Type 0} ⦃fl : Float64 F⦄ where
  -- Whether the caller's value of the weight is off by more than 1e-9.
  unfoldable pub mismatches : Option (OrderedDict CellKey F) → CellKey → F → Bool
  mismatches none k stored = false
  mismatches (some hints) k stored = elim (get CellKey_discrete k hints) [
    | none ↦ false
    | some hint ↦ ratio 1 1000000000 <? abs (sub hint stored)
  ]

module _ {S F : Type 0} ⦃fl : Float64 F⦄ ⦃ws : WeightStore S F⦄ where
  -- `_apply_with_lock` and `_apply_synapse_weight`. Whatever is raised inside ends as no record.
  unfoldable pub apply_with_lock :
      (CellKey → Bool)
      → Option (OrderedDict CellKey F)
      → Mutator F
      → RpeProposal CellKey F
      → F
      → S
      → Option (MutationRecord CellKey F) × S
  unfolding mismatches read_current_weight apply_mutation
  apply_with_lock acquires hints m p now st = elim p.target [
    | ifom_ttl ↦ (none, st)
    | synapse_weight ↦
        if not (acquires p.target_key) then (none, st) else elim p.decision.context.session_id [
          | none ↦ (none, st)
          | some session ↦
              let (stored, st') = read_current_weight m (addressed session p.target_key) st in
              apply_mutation m p stored (mismatches hints p.target_key stored) now st'
        ]
  ]

  -- `_safe_roll_up`: the learned weight goes into the global preset.
  unfoldable pub roll_up : (CellKey → F → S → S) → MutationRecord CellKey F → S → S
  roll_up update_ema r st = elim r.proposal.decision.context.category [
    | none ↦ st
    | some category ↦
        if str_beq category "" || ltb r.proposal.decision.context.difficulty 1
        then st
        else update_ema
            (record { category = category; difficulty = r.proposal.decision.context.difficulty })
            r.new_value st
  ]

  -- What the loop of `apply_proposals` does with a record.
  unfoldable pub register :
      (CellKey → F → S → S) → TraceKey → MutationRecord CellKey F → S → Service S F → Service S F
  unfolding roll_up schedule
  register update_ema key r st v = record v {
    store = roll_up update_ema r st;
    applied_in_trace = set TraceKey_discrete key r.rollback_id v.applied_in_trace;
    records = set String_discrete r.rollback_id r v.records;
    pending = schedule r.rollback_id v.pending;
  }

  -- One turn of that loop. No group is empty.
  unfoldable pub apply_group :
      (CellKey → F → S → S)
      → (CellKey → Bool)
      → Option (OrderedDict CellKey F)
      → F
      → TraceKey
      → List (RpeProposal CellKey F)
      → Service S F
      → Option (MutationRecord CellKey F) × Service S F
  unfolding select_winner apply_with_lock register
  apply_group update_ema acquires hints now key [] v = (none, v)
  apply_group update_ema acquires hints now key (p ∷ ps) v =
      elim (get TraceKey_discrete key v.applied_in_trace) [
        | some id ↦ (none, v)
        | none ↦
            let (result, st) =
              apply_with_lock acquires hints v.mutator (select_winner p ps) now v.store in
            elim result [
              | none ↦ (none, record v { store = st })
              | some r ↦ (some r, register update_ema key r st v)
            ]
      ]

  unfoldable pub apply_groups :
      (CellKey → F → S → S)
      → (CellKey → Bool)
      → Option (OrderedDict CellKey F)
      → F
      → OrderedDict TraceKey (List (RpeProposal CellKey F))
      → Service S F
      → List (MutationRecord CellKey F) × Service S F
  unfolding apply_group
  apply_groups update_ema acquires hints now [] v = ([], v)
  apply_groups update_ema acquires hints now ((key, group) ∷ groups) v =
      let (result, v') = apply_group update_ema acquires hints now key group v in
      let (rs, v'') = apply_groups update_ema acquires hints now groups v' in
      (elim result [ none ↦ rs | some r ↦ r ∷ rs ], v'')

  -- `apply_proposals`
  unfoldable pub apply_proposals :
      (CellKey → F → S → S)
      → (CellKey → Bool)
      → Option (OrderedDict CellKey F)
      → F
      → List (RpeProposal CellKey F)
      → Service S F
      → List (MutationRecord CellKey F) × Service S F
  unfolding threshold_block_reason group_from apply_groups
  apply_proposals update_ema acquires hints now proposals v =
      if v.config.active_enabled
      then apply_groups update_ema acquires hints now
          (group_from [] (select (qualifies v.config) proposals)) v
      else ([], v)
