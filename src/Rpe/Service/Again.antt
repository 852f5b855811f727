-- ===== src/Rpe/Service/Again.antt =====
-- What was applied once is not applied again, whenever it is proposed.
use cortex_cognitive_runtime.Prelude.{
  ◌≡◌, ◌∙◌, ap, refl, ◌⊎◌, inl, inr, Bool, true, false, Option, none, some, List, [], ◌∷◌, arith,
  All, All-map, Option-cases, Bool-cases, select, if◌then◌else◌, String, subst,
}
use cortex_cognitive_runtime.OrderedDict.{OrderedDict, get, set}
use cortex_cognitive_runtime.Float.{Float64}
use cortex_cognitive_runtime.Rpe.Cell.{CellKey}
use cortex_cognitive_runtime.Rpe.WeightStore.{WeightStore}
use cortex_cognitive_runtime.Rpe.Proposal.{RpeProposal}
use cortex_cognitive_runtime.Rpe.Mutator.{MutationRecord}
use cortex_cognitive_runtime.Rpe.Selection.{
  TraceKey, TraceKey_discrete, trace_key, qualifies, into_group, group_from,
}
use cortex_cognitive_runtime.Rpe.Service.{Service, apply_group, apply_groups, apply_proposals}
use cortex_cognitive_runtime.Rpe.Service.SingleApply.{SinglyApplied, apply_proposals-SinglyApplied}

select-All :
    {A : Type 0} (P : A → Type 0) (p : A → Bool) (xs : List A) → All P xs → All P (select p xs)
select-All P p [] h = tt
select-All P p (x ∷ xs) h = elim (Bool-cases (p x)) [
  | inl e ↦ rw (e) (h.0, select-All P p xs h.1)
  | inr e ↦ rw (e) (select-All P p xs h.1)
]

module _ {F : Type 0} (P : TraceKey → Type 0) where
  -- All keys of the groups have the property.
  abbrev KeysAll : OrderedDict TraceKey (List (RpeProposal CellKey F)) → Type 0
  KeysAll = All (λ g. P g.0)

  set-KeysAll :
      (k : TraceKey) (ps : List (RpeProposal CellKey F))
      (groups : OrderedDict TraceKey (List (RpeProposal CellKey F)))
      → P k
      → KeysAll groups
      → KeysAll (set TraceKey_discrete k ps groups)
  unfolding set
  set-KeysAll k ps [] h g = (h, tt)
  set-KeysAll k ps (e ∷ groups) h g = elim (TraceKey_discrete e.0 k) [
    | yes p ↦ ground (arith, h, g.1)
    | no n ↦ ground (arith, g.0, set-KeysAll k ps groups h g.1)
  ]

  into_group-KeysAll :
      (p : RpeProposal CellKey F) (groups : OrderedDict TraceKey (List (RpeProposal CellKey F)))
      → P (trace_key p)
      → KeysAll groups
      → KeysAll (into_group p groups)
  unfolding into_group
  into_group-KeysAll p groups h g =
      elim (Option-cases (get TraceKey_discrete (trace_key p) groups)) [
        | inl e ↦ rw (e, into_group) (set-KeysAll (trace_key p) _ groups h g)
        | inr (qs, e) ↦ rw (e, into_group) (set-KeysAll (trace_key p) _ groups h g)
      ]

  group_from-KeysAll :
      (groups : OrderedDict TraceKey (List (RpeProposal CellKey F)))
      (ps : List (RpeProposal CellKey F))
      → All (λ p. P (trace_key p)) ps
      → KeysAll groups
      → KeysAll (group_from groups ps)
  unfolding group_from
  group_from-KeysAll groups [] h g = g
  group_from-KeysAll groups (p ∷ ps) h g =
      group_from-KeysAll (into_group p groups) ps h.1 (into_group-KeysAll p groups h.0 g)

-- Some record in the list is of the trace and the key.
abbrev pub AppliedIn : {F : Type 0} → TraceKey → List (MutationRecord CellKey F) → Type 0
AppliedIn k [] = ⊥
AppliedIn k (r ∷ rs) = (trace_key r.proposal ≡ k) ⊎ AppliedIn k rs

module _ {F : Type 0} where
  AppliedIn-All :
      (P : MutationRecord CellKey F → Type 0) (k : TraceKey) (rs : List (MutationRecord CellKey F))
      → All P rs
      → AppliedIn k rs
      → (r : MutationRecord CellKey F) × P r × (trace_key r.proposal ≡ k)
  AppliedIn-All P k [] h m = absurd m
  AppliedIn-All P k (r ∷ rs) h (inl e) = (r, h.0, e)
  AppliedIn-All P k (r ∷ rs) h (inr m) = AppliedIn-All P k rs h.1 m

module _ {S F : Type 0} ⦃fl : Float64 F⦄ ⦃ws : WeightStore S F⦄ where
  -- Some id is registered for the key.
  abbrev IsRegistered : Service S F → TraceKey → Type 0
  IsRegistered v k = (id : String) × (get TraceKey_discrete k v.applied_in_trace ≡ some id)

  module _ (update_ema : CellKey → F → S → S) (acquires : CellKey → Bool)
      (hints : Option (OrderedDict CellKey F)) (now : F) where
    apply_group-registered :
        (key : TraceKey) (group : List (RpeProposal CellKey F)) (v : Service S F)
        → IsRegistered v key
        → apply_group update_ema acquires hints now key group v ≡ (none, v)
    unfolding apply_group
    apply_group-registered key [] v h = refl
    apply_group-registered key (p ∷ ps) v (id, e) = rw (e, apply_group) refl

    apply_groups-registered :
        (groups : OrderedDict TraceKey (List (RpeProposal CellKey F))) (v : Service S F)
        → KeysAll (IsRegistered v) groups
        → apply_groups update_ema acquires hints now groups v ≡ ([], v)
    unfolding apply_groups
    apply_groups-registered [] v h = refl
    apply_groups-registered ((key, group) ∷ groups) v h =
        ap
          (λ x. (
            elim x.0 [
              | none ↦ (apply_groups update_ema acquires hints now groups x.1).0
              | some r ↦ r ∷ (apply_groups update_ema acquires hints now groups x.1).0
            ],
            (apply_groups update_ema acquires hints now groups x.1).1,
          ))
          (apply_group-registered key group v h.0)
        ∙ apply_groups-registered groups v h.1

    apply_proposals-registered :
        (proposals : List (RpeProposal CellKey F)) (v : Service S F)
        → All (λ p. IsRegistered v (trace_key p)) proposals
        → apply_proposals update_ema acquires hints now proposals v ≡ ([], v)
    unfolding apply_proposals
    apply_proposals-registered proposals v h = by_switch v.config.active_enabled _ (
        apply_groups-registered (group_from [] (select (qualifies v.config) proposals)) v (
          group_from-KeysAll (IsRegistered v) [] (select (qualifies v.config) proposals)
            (select-All _ (qualifies v.config) proposals h) tt))
      where
        by_switch :
            (b : Bool) (out : List (MutationRecord CellKey F) × Service S F)
            → out ≡ ([], v)
            → (if b then out else ([], v)) ≡ ([], v)
        by_switch true out e = e
        by_switch false out e = refl

  -- Whatever is proposed: for each trace and target key at most one proposal is applied and recorded,
  -- and none where one was registered before. Proposals for the traces and keys that were applied may
  -- come again at any time, in any state of the service that still has the registry's entries:
  -- nothing of that state changes then, neither the store nor the registry, and no record is made.
  pub apply_proposals_once :
      (update_ema : CellKey → F → S → S) (acquires acquires' : CellKey → Bool)
      (hints hints' : Option (OrderedDict CellKey F)) (now later : F)
      (proposals again : List (RpeProposal CellKey F)) (v w : Service S F)
      → All
          (λ p.
            AppliedIn (trace_key p) (apply_proposals update_ema acquires hints now proposals v).0)
          again
      → ((k : TraceKey) (id : String)
          → get TraceKey_discrete k
              (apply_proposals update_ema acquires hints now proposals v).1.applied_in_trace
            ≡ some id
          → get TraceKey_discrete k w.applied_in_trace ≡ some id)
      → SinglyApplied update_ema acquires hints now v
          (apply_proposals update_ema acquires hints now proposals v)
        × (apply_proposals update_ema acquires' hints' later again w ≡ ([], w))
  apply_proposals_once update_ema acquires acquires' hints hints' now later proposals again v w
        before kept =
      let once = apply_proposals-SinglyApplied update_ema acquires hints now proposals v in
      (
        once,
        apply_proposals-registered update_ema acquires' hints' later again w (
            All-map again
              (λ p m.
                (let (r, there, e) = AppliedIn-All _ (trace_key p) _ once.0 m in
                  (
                    r.rollback_id,
                    kept (trace_key p) r.rollback_id (
                        subst
                          (λ k.
                            get TraceKey_discrete k
                              (apply_proposals update_ema acquires hints now proposals
                                v).1.applied_in_trace
                            ≡ some r.rollback_id)
                          e there.1),
                  )))
              before),
      )
