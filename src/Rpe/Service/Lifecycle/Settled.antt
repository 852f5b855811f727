-- ===== src/Rpe/Service/Lifecycle/Settled.antt =====
-- A mutation is taken back once, and confirmed once.
use cortex_cognitive_runtime.Prelude.{
  ◌≡◌, ◌∙◌, refl, inl, inr, Bool, false, some, List, [], ◌∷◌, arith, Option-cases, Bool-cases,
  String, String_discrete,
}
use cortex_cognitive_runtime.OrderedDict.{get}
use cortex_cognitive_runtime.OrderedDict.Laws.{get-set_self}
use cortex_cognitive_runtime.Float.{Float64}
use cortex_cognitive_runtime.Rpe.Cell.{CellKey}
use cortex_cognitive_runtime.Rpe.WeightStore.{WeightStore}
use cortex_cognitive_runtime.Rpe.Mutator
use cortex_cognitive_runtime.Rpe.Mutator.{MutationRecord, available, rolled_back, expired}
use cortex_cognitive_runtime.Rpe.Service.{Service}
use cortex_cognitive_runtime.Rpe.Service.Lifecycle.{
  is_pending, discard, confirm, take_back, rollback,
}

is_pending-discard : (id : String) (ids : List String) → is_pending id (discard id ids) ≡ false
is_pending-discard id [] = refl
is_pending-discard id (j ∷ ids) = ground (arith, is_pending-discard id ids)

-- A mutation is confirmed at most once: after a first attempt, whatever came of it, another one
-- cancels nothing and leaves the pending set as it is.
pub confirm_once :
    (has_job again : Bool) (id : String) (ids : List String)
    → confirm again id (confirm has_job id ids).1 ≡ (false, (confirm has_job id ids).1)
unfolding confirm
confirm_once has_job again id ids = elim (Bool-cases (is_pending id ids)) [
  | inl e ↦ rw (e, is_pending-discard id ids) refl
  | inr e ↦ rw (e, e) refl
]

module _ {S F : Type 0} ⦃fl : Float64 F⦄ ⦃ws : WeightStore S F⦄ where
  rollback-unavailable :
      (id : String) (now : F) (v : Service S F) (r : MutationRecord CellKey F)
      → get String_discrete id v.records ≡ some r
      → r.rollback_status ≡ rolled_back
      → rollback id now v ≡ (some r, v)
  unfolding rollback
  rollback-unavailable id now v r e h = ground (arith, e, h)

  take_back-stored :
      (id : String) (now : F) (v : Service S F) (r0 : MutationRecord CellKey F)
      → r0.rollback_status ≡ available
      → (take_back id r0 now v).0.rollback_status ≡ rolled_back
      → get String_discrete id (take_back id r0 now v).1.records ≡ some (take_back id r0 now v).0
  unfolding take_back
  take_back-stored id now v r0 a h = elim (Option-cases (Mutator.rollback r0 now v.store).0) [
    | inl e ↦ ground (arith, e, a, h)
    | inr (r, e) ↦ ground (arith, e, a, h, get-set_self String_discrete id r v.records)
  ]

  rollback-stored :
      (id : String) (now : F) (v v' : Service S F) (r : MutationRecord CellKey F)
      → rollback id now v ≡ (some r, v')
      → r.rollback_status ≡ rolled_back
      → get String_discrete id v'.records ≡ some r
  unfolding rollback
  rollback-stored id now v v' r e h = elim (Option-cases (get String_discrete id v.records)) [
    | inl f ↦ ground (arith, e, f)
    | inr (r0, f) ↦ ground (arith, e, h, f, take_back-stored id now v r0)
  ]

  -- A rollback that succeeded is final: in any later state of the service that still has its record,
  -- whatever its store has learned since, a second one returns the same record and changes nothing.
  pub rollback_settled :
      (id : String) (now later : F) (v v' w : Service S F) (r : MutationRecord CellKey F)
      → rollback id now v ≡ (some r, v')
      → r.rollback_status ≡ rolled_back
      → get String_discrete id w.records ≡ get String_discrete id v'.records
      → rollback id later w ≡ (some r, w)
  rollback_settled id now later v v' w r e h kept =
      rollback-unavailable id later w r (kept ∙ rollback-stored id now v v' r e h) h
