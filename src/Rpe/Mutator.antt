-- ===== src/Rpe/Mutator.antt =====
-- SynapseDifficultyWeightMutator of app/rpe/mutators.py: one proposal written to the store of weights,
-- and taken back. `now` is the clock's reading.
pub mod Undo
use cortex_cognitive_runtime.Prelude.{
  ℕ, Bool, true, false, not, ◌&&◌, Option, none, some, if◌then◌else◌, String,
}
use cortex_cognitive_runtime.Float.{Float64, ratio, add, sub, abs, clamp, ◌<=?◌}
use cortex_cognitive_runtime.Rpe.Cell.{Cell, CellKey}
use cortex_cognitive_runtime.Rpe.WeightStore.{WeightStore}
use cortex_cognitive_runtime.Rpe.Proposal.{RpeProposal, in_range}

pub record Mutator (F : Type 0) : Type 0 where
  pub weight_min : F
  pub weight_max : F
  pub seed_weight : F

pub data RollbackStatus : Type 0 where
  available rolled_back expired : RollbackStatus

-- RPEMutationRecord, without the lock's key, which is the proposal's, and `expires_at`, which is
-- never set.
pub record MutationRecord (K F : Type 0) : Type 0 where
  pub proposal : RpeProposal K F
  pub previous_value : F
  pub applied_delta : F
  pub new_value : F
  pub applied_at : F
  pub rollback_id : String
  pub rollback_status : RollbackStatus
  pub weight_min : F
  pub weight_max : F
  pub current_value_mismatch : Bool

abbrev pub addressed : String → CellKey → Cell
addressed session k = record { session = session; category = k.category; difficulty = k.difficulty }

module _ {F : Type 0} ⦃fl : Float64 F⦄ where
  -- `RPEMutationRecord.__post_init__`: whether the record may be built. The epsilon is 1e-6.
  unfoldable pub is_sound : {K : Type 0} → MutationRecord K F → Bool
  is_sound r =
      abs r.applied_delta <=? add r.proposal.max_delta (ratio 1 1000000)
      && in_range r.weight_min r.weight_max r.previous_value
      && in_range r.weight_min r.weight_max r.new_value
      && abs (sub (add r.previous_value r.applied_delta) r.new_value) <=? ratio 1 1000000

  abbrev pub built : {K : Type 0} → MutationRecord K F → Option (MutationRecord K F)
  built r = if is_sound r then some r else none

  abbrev pub target_value : {K : Type 0} → Mutator F → RpeProposal K F → F → F
  target_value m p previous = clamp (add previous p.proposed_delta) m.weight_min m.weight_max

  abbrev pub applied_record :
      {K : Type 0} → Mutator F → RpeProposal K F → F → Bool → F → MutationRecord K F
  applied_record m p previous mismatch now = record {
    proposal = p;
    previous_value = previous;
    applied_delta = sub (target_value m p previous) previous;
    new_value = target_value m p previous;
    applied_at = now;
    rollback_id = p.rollback_id;
    rollback_status = available;
    weight_min = m.weight_min;
    weight_max = m.weight_max;
    current_value_mismatch = mismatch;
  }

  abbrev pub reverse_record : {K : Type 0} → MutationRecord K F → F → MutationRecord K F
  reverse_record r now = record r {
    previous_value = r.new_value;
    applied_delta = sub r.previous_value r.new_value;
    new_value = r.previous_value;
    applied_at = now;
    rollback_status = rolled_back;
  }

module _ {S F : Type 0} ⦃fl : Float64 F⦄ ⦃ws : WeightStore S F⦄ where
  -- `read_current_weight`: the seed stands for a cell that is not learned.
  unfoldable pub read_current_weight : Mutator F → Cell → S → F × S
  read_current_weight m c st =
      let (value, st') = ws.read_weight c st in
      (elim value [ none ↦ m.seed_weight | some v ↦ v ], st')

  -- `apply_mutation`: no record where the source raises. The store is written before the record is
  -- checked.
  unfoldable pub apply_mutation :
      Mutator F → RpeProposal CellKey F → F → Bool → F → S → Option (MutationRecord CellKey F) × S
  unfolding is_sound
  apply_mutation m p previous mismatch now st =
      if not (in_range m.weight_min m.weight_max previous)
      then (none, st)
      else elim p.decision.context.session_id [
        | none ↦ (none, st)
        | some session ↦ (
          built (applied_record m p previous mismatch now),
          ws.write_weight (addressed session p.target_key) (target_value m p previous) st,
        )
      ]

  -- `rollback`
  unfoldable pub rollback : MutationRecord CellKey F → F → S → Option (MutationRecord CellKey F) × S
  unfolding is_sound
  rollback r now st = elim r.proposal.decision.context.session_id [
    | none ↦ (none, st)
    | some session ↦ (
      built (reverse_record r now),
      ws.write_weight (addressed session r.proposal.target_key) r.previous_value st,
    )
  ]
