-- ===== src/Locks/Exclusion.antt =====
-- Mutual exclusion on the field of a trace: all that ever take its lock take one object.
use cortex_cognitive_runtime.Prelude.{
  ℕ, suc, ◌≡◌, ◌≢◌, ◌⊎◌, refl, sym, ap, ◌∙◌, Option, none, some, List, ◌∷◌, inl, inr, Option-cases,
  String, String_discrete, ℕ_discrete, arith, subst,
}
use cortex_cognitive_runtime.OrderedDict.{get}
use cortex_cognitive_runtime.OrderedDict.Laws.{get-set_self, get-set_ne}
use cortex_cognitive_runtime.Locks.{
  AsyncLock, LockManager, LockType, Pc, Reach, Step, System, clear, clear_force_push,
  get_or_create_lock, give_up, grant, take_lock, holding, later, leave, lock_key, mark,
  mark_force_pushed, outside, refuse, release_lock, request, start, start_acquire, update, waiting,
}

-- The key and the object that a task waits for or holds.
abbrev pub bound : Pc → Option (String × ℕ)
bound outside = none
bound (waiting key lock_type trace_id object) = some (key, object)
bound (holding key lock_type trace_id object) = some (key, object)

-- The object that a task holds.
abbrev pub held : Pc → Option ℕ
held (holding key lock_type trace_id object) = some object
held _ = none

update-cases :
    {A B : Type 0} (g : A → B) (f : ℕ → A) (i : ℕ) (p : A) (j : ℕ)
    → ((i ≡ j) × (g (update f i p j) ≡ g p)) ⊎ ((i ≢ j) × (g (update f i p j) ≡ g (f j)))
update-cases g f i p j = elim (ℕ_discrete i j) [
  | yes e ↦ inl (e, ground arith)
  | no n ↦ inr (n, ground arith)
]

-- Changing the waiters of an object changes no owner.
update-owner :
    (f : ℕ → AsyncLock) (object : ℕ) (a : AsyncLock) (o : ℕ)
    → a.owner ≡ (f object).owner
    → (update f object a o).owner ≡ (f o).owner
update-owner f object a o e = elim (ℕ_discrete object o) [
  | yes p ↦ ground (arith, p, e)
  | no n ↦ ground (arith, n)
]

module _ {F : Type 0} where
  -- Whoever waits for or holds the lock of a key does so with the object that the manager has for
  -- the key, and whoever holds an object is its owner.
  pub record IsOwned (s : System F) : Type 0 where
    pub bound_to :
        (i : ℕ) (key : String) (object : ℕ)
        → bound (s.pc i) ≡ some (key, object)
        → get String_discrete key s.manager.locks ≡ some object
    pub owner : (i object : ℕ) → held (s.pc i) ≡ some object → (s.objects object).owner ≡ some i

  get_or_create_lock-made :
      (key : String) (fresh : ℕ) (m : LockManager F)
      → get String_discrete key (get_or_create_lock key fresh m).1.locks
        ≡ some (get_or_create_lock key fresh m).0
  unfolding get_or_create_lock
  get_or_create_lock-made key fresh m = elim (Option-cases (get String_discrete key m.locks)) [
    | inl e ↦ ground (arith, e, get-set_self String_discrete key fresh m.locks)
    | inr (o, e) ↦ ground (arith, e)
  ]

  get_or_create_lock-keeps :
      (key k : String) (fresh object : ℕ) (m : LockManager F)
      → get String_discrete k m.locks ≡ some object
      → get String_discrete k (get_or_create_lock key fresh m).1.locks ≡ some object
  unfolding get_or_create_lock
  get_or_create_lock-keeps key k fresh object m h =
      elim (Option-cases (get String_discrete key m.locks)) [
        | inr (o, e) ↦ ground (arith, e, h)
        | inl e ↦ elim (String_discrete k key) [
          | yes p ↦
              let clash : none ≡ some object =
                sym (subst (λ x. get String_discrete x m.locks ≡ none) (sym p) e) ∙ h in
              absurd (cc)
          | no n ↦ ground (arith, e, get-set_ne String_discrete key k fresh m.locks n, h)
        ]
      ]

  start_acquire-made :
      (trace_id field_name : String) (fresh : ℕ) (m : LockManager F) (x : ℕ × LockManager F)
      → start_acquire trace_id field_name fresh m ≡ some x
      → get_or_create_lock (lock_key trace_id field_name) fresh m ≡ x
  unfolding start_acquire
  start_acquire-made trace_id field_name fresh m x e = ground arith

  -- A change that gives no task a new object, of objects that no other task holds.
  moved :
      (s t : System F) (i : ℕ) (p : Pc)
      → t.pc ≡ update s.pc i p
      → ((k : String) (o : ℕ)
          → get String_discrete k s.manager.locks ≡ some o
          → get String_discrete k t.manager.locks ≡ some o)
      → ((k : String) (o : ℕ)
          → bound p ≡ some (k, o)
          → get String_discrete k t.manager.locks ≡ some o)
      → ((j o : ℕ)
          → i ≢ j
          → held (s.pc j) ≡ some o
          → (s.objects o).owner ≡ some j
          → (t.objects o).owner ≡ some j)
      → ((o : ℕ) → held p ≡ some o → (t.objects o).owner ≡ some i)
      → IsOwned s
      → IsOwned t
  moved s t i p e keeps here others own v = record {
    bound_to = λ j k o h. elim (update-cases bound s.pc i p j) [
      | inl (same, q) ↦ here k o (sym q ∙ sym (ap (λ f. bound (f j)) e) ∙ h)
      | inr (n, q) ↦ keeps k o (v.bound_to j k o (sym q ∙ sym (ap (λ f. bound (f j)) e) ∙ h))
    ];
    owner = λ j o h. elim (update-cases held s.pc i p j) [
      | inl (same, q) ↦ own o (sym q ∙ sym (ap (λ f. held (f j)) e) ∙ h) ∙ ap some same
      | inr (n, q) ↦
          let h' = sym q ∙ sym (ap (λ f. held (f j)) e) ∙ h in others j o n h' (v.owner j o h')
    ];
  }

  request-IsOwned :
      (s : System F) (i : ℕ) (trace_id field_name : String) (a : LockType) (object : ℕ)
      (m : LockManager F) (queue : List ℕ)
      → start_acquire trace_id field_name s.made s.manager ≡ some (object, m)
      → IsOwned s
      → IsOwned (record {
        manager = m;
        made = suc s.made;
        objects = update s.objects object (record (s.objects object) { waiters = queue });
        pc = update s.pc i (waiting (lock_key trace_id field_name) a trace_id object);
      })
  request-IsOwned s i trace_id field_name a object m queue r v =
      let key = lock_key trace_id field_name in
      let e = start_acquire-made trace_id field_name s.made s.manager (object, m) r in
      moved s _ i (waiting key a trace_id object) refl
        (λ k o h.
          subst (λ x. get String_discrete k x.1.locks ≡ some o) e
            (get_or_create_lock-keeps key k s.made o s.manager h))
        (λ k o h.
          subst (λ (x : String × ℕ). get String_discrete x.0 m.locks ≡ some x.1) (ground (arith, h))
            (subst (λ x. get String_discrete key x.1.locks ≡ some x.0) e
              (get_or_create_lock-made key s.made s.manager)))
        (λ j o n h own. update-owner s.objects object _ o refl ∙ own) (λ o h. absurd (cc)) v

  grant-IsOwned :
      (s : System F) (i : ℕ) (key : String) (a : LockType) (x : String) (object : ℕ) (now : F)
      (others : List ℕ)
      → s.pc i ≡ waiting key a x object
      → s.objects object ≡ record { owner = none; waiters = i ∷ others }
      → IsOwned s
      → IsOwned (record {
        manager = take_lock key a x now s.manager;
        made = s.made;
        objects = update s.objects object (record { owner = some i; waiters = others });
        pc = update s.pc i (holding key a x object);
      })
  unfolding take_lock
  grant-IsOwned s i key a x object now others e free v =
      moved s _ i (holding key a x object) refl (λ k o h. h)
        (λ k o h. v.bound_to i k o (ap bound e ∙ h))
        (λ j o n h own. elim (ℕ_discrete object o) [
          | yes p ↦
              let clash : none ≡ some j =
                sym (ap (λ l. l.owner) free) ∙ ap (λ y. (s.objects y).owner) p ∙ own in
              absurd (cc)
          | no q ↦ ground (arith, q, own)
        ])
        (λ o h. ground (arith, h)) v

  give_up-IsOwned :
      (s : System F) (i object : ℕ) (queue : List ℕ)
      → IsOwned s
      → IsOwned (record {
        manager = s.manager;
        made = s.made;
        objects = update s.objects object (record (s.objects object) { waiters = queue });
        pc = update s.pc i outside;
      })
  give_up-IsOwned s i object queue v =
      moved s _ i outside refl (λ k o h. h) (λ k o h. absurd (cc))
        (λ j o n h own. update-owner s.objects object _ o refl ∙ own) (λ o h. absurd (cc)) v

  leave-IsOwned :
      (s : System F) (i : ℕ) (key : String) (a : LockType) (x : String) (object : ℕ)
      → s.pc i ≡ holding key a x object
      → IsOwned s
      → IsOwned (record {
        manager = release_lock key s.manager;
        made = s.made;
        objects = update s.objects object (record (s.objects object) { owner = none });
        pc = update s.pc i outside;
      })
  unfolding release_lock
  leave-IsOwned s i key a x object e v =
      moved s _ i outside refl (λ k o h. h) (λ k o h. absurd (cc))
        (λ j o n h own. elim (ℕ_discrete object o) [
          | yes p ↦
              let mine : some i ≡ some j =
                sym (v.owner i object (ap held e)) ∙ ap (λ y. (s.objects y).owner) p ∙ own in
              absurd (n (ground arith))
          | no q ↦ ground (arith, q, own)
        ])
        (λ o h. absurd (cc)) v

  Step-IsOwned : {s t : System F} → Step s t → IsOwned s → IsOwned t
  unfolding mark_force_pushed clear_force_push
  Step-IsOwned (refuse i trace_id field_name e r) v = v
  Step-IsOwned {s} (request i trace_id field_name a object m e r) v =
      request-IsOwned s i trace_id field_name a object m _ r v
  Step-IsOwned {s} (grant i key a x object now others e free) v =
      grant-IsOwned s i key a x object now others e free v
  Step-IsOwned {s} (give_up i key a x object e) v = give_up-IsOwned s i object _ v
  Step-IsOwned {s} (leave i key a x object e) v = leave-IsOwned s i key a x object e v
  Step-IsOwned {s} (mark trace_id) v = record { bound_to = v.bound_to; owner = v.owner }
  Step-IsOwned {s} (clear trace_id) v = record { bound_to = v.bound_to; owner = v.owner }

  Reach-IsOwned : {s : System F} → Reach s → IsOwned s
  Reach-IsOwned start = record { bound_to = λ i k o h. absurd (cc); owner = λ i o h. absurd (cc) }
  Reach-IsOwned (later r st) = Step-IsOwned st (Reach-IsOwned r)

  -- Whatever the interleaving of requests, time-outs, cancellations and force pushes, if an asyncio
  -- lock has one owner at a time: two tasks in the body of an acquire of the same key are one task.
  -- They were given the same lock object, which is the one that the manager still has for the key.
  pub mutual_exclusion :
      {s : System F} (i j : ℕ) (key : String) (a b : LockType) (x y : String) (o p : ℕ)
      → Reach s
      → s.pc i ≡ holding key a x o
      → s.pc j ≡ holding key b y p
      → (i ≡ j) × (o ≡ p) × (get String_discrete key s.manager.locks ≡ some o)
  mutual_exclusion {s} i j key a b x y o p r e e' =
      let v = Reach-IsOwned r in
      let here = v.bound_to i key o (ap bound e) in
      let both : some o ≡ some p = sym here ∙ v.bound_to j key p (ap bound e') in
      let same : o ≡ p = ground arith in
      let one : some i ≡ some j =
        sym (v.owner i o (ap held e))
        ∙ ap (λ y. (s.objects y).owner) same
        ∙ v.owner j p (ap held e') in
      (ground arith, same, here)
