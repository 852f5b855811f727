-- ===== src/Rpe/Ttl/Learning.antt =====
-- A learned TTL and the forgetting of goals: what IFOM reads after a change and after its rollback.
use cortex_cognitive_runtime.Prelude.{
  ◌≡◌, ◌∙◌, refl, Bool, true, false, Option, some, String, arith, inl, inr, Option-cases, ap, subst,
}
use cortex_cognitive_runtime.OrderedDict.{OrderedDict}
use cortex_cognitive_runtime.OrderedDict.Laws.{get-set_self}
use cortex_cognitive_runtime.Float.{Float64, ratio, ◌<=?◌, ◌<?◌}
use cortex_cognitive_runtime.Memory.Goal.{Goal}
use cortex_cognitive_runtime.Memory.Ifom.{
  IfomConfig, Resolved, TtlType, adjust_ttl, found, goal_to_ttl_type, overridden,
}
use cortex_cognitive_runtime.Rpe.Proposal.{RpeProposal, in_range}
use cortex_cognitive_runtime.Rpe.Mutator.{MutationRecord}
use cortex_cognitive_runtime.Rpe.Ttl.{
  TtlMutator, TtlOverride, TtlStore, apply_ttl, apply_ttl_with_lock, new_override, override_ok,
  read_override, restored_override, rollback_ttl, ttl_before, ttl_mismatches, ttl_record,
  write_override,
}
use cortex_cognitive_runtime.Rpe.Ttl.Keys.{TtlKey, TtlScope_discrete}

module _ {F : Type 0} ⦃fl : Float64 F⦄ where
  -- What the constructor of the mutator demands.
  pub record IsTtlMutator (m : TtlMutator F) : Type 0 where
    pub positive : ratio 0 1 <? m.ttl_min ≡ true
    pub ordered : m.ttl_min <? m.ttl_max ≡ true

  -- A record comes of a value in range, and its override is in the store.
  apply_ttl-runs :
      (m : TtlMutator F) (p : RpeProposal TtlKey F) (previous : F) (mismatch : Bool) (now : F)
      (st : TtlStore F) (session : String) (r : MutationRecord TtlKey F)
      → p.decision.context.session_id ≡ some session
      → (apply_ttl m p previous mismatch now st).0 ≡ some r
      → (in_range m.ttl_min m.ttl_max previous ≡ true)
        × (override_ok (new_override m p previous session now) ≡ true)
        × (r ≡ ttl_record m p previous mismatch now)
        × ((apply_ttl m p previous mismatch now st).1
            ≡ write_override (new_override m p previous session now) st)
  unfolding apply_ttl
  apply_ttl-runs m p previous mismatch now st session r e run = (
    ground (arith, e, run),
    ground (arith, e, run),
    ground (arith, e, run),
    ground (arith, e, run),
  )

  -- What IFOM reads of a store through a resolver that answers with its overrides.
  abbrev pub Resolves : (Option String → Option String → TtlType → Resolved F) → TtlStore F → Type 0
  Resolves resolve st =
      (session : String) (k : TtlKey) (o : TtlOverride F)
      → read_override (record { session = session; key = k }) st ≡ some o
      → resolve (some session) k.category k.ttl_type ≡ found o.override_seconds

  adjusted :
      (config : IfomConfig F) (resolve : Option String → Option String → TtlType → Resolved F)
      (st : TtlStore F) (g : Goal F) (base : Option F) (session : String) (k : TtlKey)
      (o : TtlOverride F)
      → Resolves resolve st
      → g.session_id ≡ some session
      → g.category ≡ k.category
      → goal_to_ttl_type (record { config = config; resolver = some resolve }) g ≡ k.ttl_type
      → read_override (record { session = session; key = k }) st ≡ some o
      → ratio 0 1 <? o.override_seconds ≡ true
      → adjust_ttl (record { config = config; resolver = some resolve }) g base
        ≡ some o.override_seconds
  unfolding adjust_ttl overridden
  adjusted config resolve st g base session k o answers s c t stored positive =
      rw (s, c, t, answers session k o stored, positive) refl

  positive_of : (o : TtlOverride F) → override_ok o ≡ true → ratio 0 1 <? o.override_seconds ≡ true
  unfolding override_ok
  positive_of o h = ground arith

  written :
      (o : TtlOverride F) (st : TtlStore F) → read_override o.scope (write_override o st) ≡ some o
  unfolding read_override write_override
  written o st = get-set_self TtlScope_discrete o.scope o st

  with_lock-runs :
      (acquires : TtlKey → Bool) (hints : Option (OrderedDict TtlKey F)) (m : TtlMutator F)
      (p : RpeProposal TtlKey F) (now : F) (st : TtlStore F) (session : String)
      (r : MutationRecord TtlKey F)
      → p.decision.context.session_id ≡ some session
      → (apply_ttl_with_lock acquires hints (some m) p now st).0 ≡ some r
      → (previous : F) × (mismatch : Bool) × (apply_ttl_with_lock acquires hints (some m) p now st
          ≡ apply_ttl m p previous mismatch now st)
  unfolding apply_ttl_with_lock
  with_lock-runs acquires hints m p now st session r e run =
      elim (Option-cases (ttl_before hints (record { session = session; key = p.target_key }) st)) [
        | inl missing ↦ absurd (ground (arith, e, missing, run))
        | inr (v, held) ↦ (v, ttl_mismatches hints p.target_key v, ground (arith, e, held, run))
      ]

  restored_ok :
      (m : TtlMutator F) (p : RpeProposal TtlKey F) (previous : F) (mismatch : Bool) (now later : F)
      (session : String)
      → IsTtlMutator m
      → in_range m.ttl_min m.ttl_max previous ≡ true
      → override_ok (new_override m p previous session now) ≡ true
      → (previous <=? ratio 0 1 ≡ false)
        × (override_ok (restored_override (ttl_record m p previous mismatch now) session later)
            ≡ true)
  unfolding override_ok
  restored_ok m p previous mismatch now later session v in_bounds accepted =
      let low : m.ttl_min <=? previous ≡ true = ground arith in
      let above : previous <=? ratio 0 1 ≡ false =
        ground (arith, v.positive, fl.leb_trans m.ttl_min previous (ratio 0 1) low) in
      (above, ground (arith, above))

  rollback_ttl-runs :
      (r : MutationRecord TtlKey F) (later : F) (st : TtlStore F) (session : String)
      → r.proposal.decision.context.session_id ≡ some session
      → r.previous_value <=? ratio 0 1 ≡ false
      → override_ok (restored_override r session later) ≡ true
      → (rollback_ttl r later st).1 ≡ write_override (restored_override r session later) st
  unfolding rollback_ttl override_ok
  rollback_ttl-runs r later st session e above ok = ground (arith, e, above, ok)

  -- The rollback of a learned TTL, at any later time, never deletes the override: it writes the
  -- previous value back as an override of its own, and this is what IFOM goes by from then on for
  -- every goal of the session, category and type, also where there was no override before.
  pub rollback_ttl_lem :
      (acquires : TtlKey → Bool) (hints : Option (OrderedDict TtlKey F)) (m : TtlMutator F)
      (p : RpeProposal TtlKey F) (now later : F) (st st' : TtlStore F) (session : String)
      (r : MutationRecord TtlKey F) (config : IfomConfig F)
      (resolve : Option String → Option String → TtlType → Resolved F) (g : Goal F)
      (base : Option F)
      → IsTtlMutator m
      → p.decision.context.session_id ≡ some session
      → (apply_ttl_with_lock acquires hints (some m) p now st).0 ≡ some r
      → Resolves resolve (rollback_ttl r later st').1
      → g.session_id ≡ some session
      → g.category ≡ p.target_key.category
      → goal_to_ttl_type (record { config = config; resolver = some resolve }) g
        ≡ p.target_key.ttl_type
      → (read_override
            (record { session = session; key = p.target_key })
            (rollback_ttl r later st').1
          ≡ some (restored_override r session later))
        × (adjust_ttl (record { config = config; resolver = some resolve }) g base
            ≡ some r.previous_value)
  rollback_ttl_lem acquires hints m p now later st st' session r config resolve g base v e run
        answers s c t =
      let (previous, mismatch, same) = with_lock-runs acquires hints m p now st session r e run in
      let (in_bounds, accepted, is_r, _) =
        apply_ttl-runs m p previous mismatch now st session r e
          (subst (λ x. x.0 ≡ some r) same run) in
      let made = ttl_record m p previous mismatch now in
      let (above, ok) = restored_ok m p previous mismatch now later session v in_bounds accepted in
      let after = rollback_ttl-runs made later st' session e above ok in
      let restored = restored_override made session later in
      let answers' : Resolves resolve (write_override restored st') =
        subst (Resolves resolve) (ap (λ x. (rollback_ttl x later st').1) is_r ∙ after) answers in
      rw (is_r, after)
        (
          written restored st',
          adjusted config resolve (write_override restored st') g base session p.target_key restored
              answers' s c t (written restored st') (positive_of restored ok),
        )
