-- ===== src/Rpe/Service/SingleApply.antt =====
-- At most one mutation for each trace and target key, whatever is proposed and however often.
use cortex_cognitive_runtime.Prelude.{
  ◌≡◌, refl, sym, ap, ◌∙◌, ◌≢◌, inl, inr, Bool, true, false, Option, none, some, List, [], ◌∷◌,
  arith, All, All-map, Option-cases, select, if◌then◌else◌, String,
}
use cortex_cognitive_runtime.OrderedDict.{OrderedDict, get}
use cortex_cognitive_runtime.OrderedDict.Laws.{get-set_self, get-set_ne}
use cortex_cognitive_runtime.Float.{Float64}
use cortex_cognitive_runtime.Rpe.Cell.{CellKey}
use cortex_cognitive_runtime.Rpe.WeightStore.{WeightStore}
use cortex_cognitive_runtime.Rpe.Proposal.{RpeProposal}
use cortex_cognitive_runtime.Rpe.Mutator.{
  Mutator, MutationRecord, addressed, read_current_weight, apply_mutation,
}
use cortex_cognitive_runtime.Rpe.Selection.{
  TraceKey, TraceKey_discrete, trace_key, qualifies, group_from, select_winner,
}
use cortex_cognitive_runtime.Rpe.Selection.Winner.{
  IsGrouped, group_from-IsGrouped, select_winner-All,
}
use cortex_cognitive_runtime.Rpe.Service.{
  Service, mismatches, apply_with_lock, register, apply_group, apply_groups, apply_proposals,
}

module _ {S F : Type 0} ⦃fl : Float64 F⦄ ⦃ws : WeightStore S F⦄ where
  apply_mutation-proposal :
      (m : Mutator F) (p : RpeProposal CellKey F) (previous : F) (mismatch : Bool) (now : F)
      (st : S) (r : MutationRecord CellKey F)
      → (apply_mutation m p previous mismatch now st).0 ≡ some r
      → (r.proposal ≡ p) × (r.rollback_id ≡ p.rollback_id)
  unfolding apply_mutation
  apply_mutation-proposal m p previous mismatch now st r e =
      elim (Option-cases p.decision.context.session_id) [
        | inl none_set ↦ (ground (arith, e, none_set), ground (arith, e, none_set))
        | inr (session, f) ↦ (ground (arith, e, f), ground (arith, e, f))
      ]

  apply_with_lock-proposal :
      (acquires : CellKey → Bool) (hints : Option (OrderedDict CellKey F)) (m : Mutator F)
      (p : RpeProposal CellKey F) (now : F) (st : S) (r : MutationRecord CellKey F)
      → (apply_with_lock acquires hints m p now st).0 ≡ some r
      → r.proposal ≡ p
  unfolding apply_with_lock
  apply_with_lock-proposal acquires hints m p now st r e =
      elim (Option-cases p.decision.context.session_id) [
        | inl none_set ↦ ground (arith, e, none_set)
        | inr (session, f) ↦
            let c = addressed session p.target_key in
            let read = read_current_weight m c st in
            ground (
              arith,
              e,
              f,
              apply_mutation-proposal m p read.0 (mismatches hints p.target_key read.0) now read.1
                  r,
            )
      ]

  module _ (update_ema : CellKey → F → S → S) (acquires : CellKey → Bool)
      (hints : Option (OrderedDict CellKey F)) (now : F) where
    abbrev registered : TraceKey → Service S F → Option String
    registered k v = get TraceKey_discrete k v.applied_in_trace

    -- What one turn of the loop does to the registry.
    abbrev Turn : TraceKey → Service S F → Option (MutationRecord CellKey F) × Service S F → Type 0
    Turn key v (none, v') = (k : TraceKey) → registered k v' ≡ registered k v
    Turn key v (some r, v') =
        (trace_key r.proposal ≡ key)
        × (registered key v ≡ none)
        × (registered key v' ≡ some r.rollback_id)
        × ((k : TraceKey) → k ≢ key → registered k v' ≡ registered k v)

    apply_group-Turn :
        (key : TraceKey) (group : List (RpeProposal CellKey F)) (v : Service S F)
        → All (λ p. trace_key p ≡ key) group
        → Turn key v (apply_group update_ema acquires hints now key group v)
    unfolding apply_group register
    apply_group-Turn key [] v h = λ k. refl
    apply_group-Turn key (p ∷ ps) v h = elim (Option-cases (registered key v)) [
      | inr (id, e) ↦ rw (e, apply_group) (λ k. refl)
      | inl new ↦
          let result = apply_with_lock acquires hints v.mutator (select_winner p ps) now v.store in
          elim (Option-cases result.0) [
            | inl e ↦ rw (new, e, apply_group) (λ k. refl)
            | inr (r, e) ↦
                rw (new, e, apply_group)
                  (
                    ap trace_key (
                          apply_with_lock-proposal acquires hints v.mutator (select_winner p ps) now
                            v.store r e)
                        ∙ select_winner-All (λ q. trace_key q ≡ key) p ps h.0 h.1,
                    new,
                    get-set_self TraceKey_discrete key r.rollback_id v.applied_in_trace,
                    λ k n. get-set_ne TraceKey_discrete key k r.rollback_id v.applied_in_trace n,
                  )
          ]
    ]

    -- No two records have the same trace and key.
    abbrev pub NoRepeat : List (MutationRecord CellKey F) → Type 0
    NoRepeat [] = Unit
    NoRepeat (r ∷ rs) = All (λ q. trace_key q.proposal ≢ trace_key r.proposal) rs × NoRepeat rs

    abbrev pub SinglyApplied : Service S F → List (MutationRecord CellKey F) × Service S F → Type 0
    SinglyApplied v (rs, v') =
        All
          (λ r.
            (registered (trace_key r.proposal) v ≡ none)
            × (registered (trace_key r.proposal) v' ≡ some r.rollback_id))
          rs
        × NoRepeat rs
        × ((k : TraceKey) (id : String) → registered k v ≡ some id → registered k v' ≡ some id)

    with-Turn :
        (key : TraceKey) (v v1 : Service S F) (result : Option (MutationRecord CellKey F))
        (rs : List (MutationRecord CellKey F)) (v' : Service S F)
        → Turn key v (result, v1)
        → SinglyApplied v1 (rs, v')
        → SinglyApplied v (elim result [ none ↦ rs | some r ↦ r ∷ rs ], v')
    with-Turn key v v1 none rs v' t rest = (
      All-map rs (λ r h. (sym (t (trace_key r.proposal)) ∙ h.0, h.1)) rest.0,
      rest.1,
      λ k id e. rest.2 k id (t k ∙ e),
    )
    with-Turn key v v1 (some r) rs v' t rest =
        let own = trace_key r.proposal in
        let stored : registered own v1 ≡ some r.rollback_id = ap (λ k. registered k v1) t.0 ∙ t.2 in
        let apart : (k : TraceKey) → registered k v1 ≡ none → k ≢ own =
          λ k h same. clash (sym h ∙ ap (λ j. registered j v1) same ∙ stored) in
        (
          (
            (ap (λ k. registered k v) t.0 ∙ t.1, rest.2 own r.rollback_id stored),
            All-map rs
                (λ q h. (
                  sym (
                        t.3 (trace_key q.proposal)
                          (λ same. apart (trace_key q.proposal) h.0 (same ∙ sym t.0)))
                      ∙ h.0,
                  h.1,
                ))
                rest.0,
          ),
          (All-map rs (λ q h. apart (trace_key q.proposal) h.0) rest.0, rest.1),
          λ k id e.
              rest.2 k id
                (t.3 k (λ same. clash (sym t.1 ∙ ap (λ j. registered j v) (sym same) ∙ e)) ∙ e),
        )
      where
        clash : {id : String} → none ≡ some id → ⊥
        clash h = cc

    apply_groups-SinglyApplied :
        (groups : OrderedDict TraceKey (List (RpeProposal CellKey F))) (v : Service S F)
        → IsGrouped groups
        → SinglyApplied v (apply_groups update_ema acquires hints now groups v)
    unfolding apply_groups
    apply_groups-SinglyApplied [] v g = (tt, tt, λ k id e. e)
    apply_groups-SinglyApplied ((key, group) ∷ groups) v g =
        let turn = apply_group update_ema acquires hints now key group v in
        let out = apply_groups update_ema acquires hints now groups turn.1 in
        with-Turn key v turn.1 turn.0 out.0 out.1 (apply_group-Turn key group v g.0)
          (apply_groups-SinglyApplied groups turn.1 g.1)

    enabled-SinglyApplied :
        (v : Service S F) (enabled : Bool) (out : List (MutationRecord CellKey F) × Service S F)
        → SinglyApplied v out
        → SinglyApplied v (if enabled then out else ([], v))
    enabled-SinglyApplied v true out h = h
    enabled-SinglyApplied v false out h = (tt, tt, λ k id e. e)

    -- Whatever is proposed: for each trace and target key at most one proposal is applied, and none
    -- where one was applied before; each record that is returned is in the registry afterwards, and
    -- nothing that was in the registry changes.
    pub apply_proposals-SinglyApplied :
        (proposals : List (RpeProposal CellKey F)) (v : Service S F)
        → SinglyApplied v (apply_proposals update_ema acquires hints now proposals v)
    unfolding apply_proposals
    apply_proposals-SinglyApplied proposals v =
        enabled-SinglyApplied v v.config.active_enabled
          (apply_groups update_ema acquires hints now
            (group_from [] (select (qualifies v.config) proposals)) v)
          (apply_groups-SinglyApplied (group_from [] (select (qualifies v.config) proposals)) v
            (group_from-IsGrouped [] (select (qualifies v.config) proposals) tt))
