-- ===== src/OrderedDict/Laws.antt =====
-- What can be read from a dictionary after each operation, and that no key is held twice.
use cortex_cognitive_runtime.Prelude.{
  ◌+◌, ◌-◌, ◌≡◌, refl, sym, ◌∙◌, ◌≢◌, none, some, [], ◌∷◌, ◌++◌, arith, length, length-append,
  Option-cases, inl, inr,
}
use cortex_cognitive_runtime.OrderedDict.{OrderedDict, get, set, delete, move_to_end, pop_oldest}

module _ {ℓ} {K V : Type ℓ} where
  pub length-pop_oldest : (d : OrderedDict K V) → length (pop_oldest d) ≡ length d - 1
  unfolding pop_oldest
  length-pop_oldest [] = omega arith
  length-pop_oldest (e ∷ d) = omega arith

module _ {ℓ} {K V : Type ℓ} (dec : Discrete K) where
  -- No key is held twice.
  abbrev pub IsDistinct : OrderedDict K V → Type ℓ
  IsDistinct [] = Unit
  IsDistinct (e ∷ d) = (get dec e.0 d ≡ none) × IsDistinct d

  pub get-set_self : (k : K) (v : V) (d : OrderedDict K V) → get dec k (set dec k v d) ≡ some v
  unfolding get set
  get-set_self k v [] = ground arith
  get-set_self k v (e ∷ d) = ground (arith, get-set_self k v d)

  pub get-set_ne :
      (k j : K) (v : V) (d : OrderedDict K V) → j ≢ k → get dec j (set dec k v d) ≡ get dec j d
  unfolding get set
  get-set_ne k j v [] h = ground arith
  get-set_ne k j v (e ∷ d) h = ground (arith, get-set_ne k j v d h)

  pub get-delete_ne :
      (k j : K) (d : OrderedDict K V) → j ≢ k → get dec j (delete dec k d) ≡ get dec j d
  unfolding get delete
  get-delete_ne k j [] h = refl
  get-delete_ne k j (e ∷ d) h = ground (arith, get-delete_ne k j d h)

  pub get-delete_self :
      (k : K) (d : OrderedDict K V) → IsDistinct d → get dec k (delete dec k d) ≡ none
  unfolding get delete
  get-delete_self k [] h = refl
  get-delete_self k (e ∷ d) h = ground (arith, get-delete_self k d h.1)

  -- An entry at the end is found when no earlier one has its key.
  pub get-append_new :
      (k : K) (v : V) (d : OrderedDict K V)
      → get dec k d ≡ none
      → get dec k (d ++ (k, v) ∷ []) ≡ some v
  unfolding get
  get-append_new k v [] h = ground arith
  get-append_new k v (e ∷ d) h = ground (arith, get-append_new k v d)

  pub get-append_ne :
      (k j : K) (v : V) (d : OrderedDict K V) → j ≢ k → get dec j (d ++ (k, v) ∷ []) ≡ get dec j d
  unfolding get
  get-append_ne k j v [] h = ground arith
  get-append_ne k j v (e ∷ d) h = ground (arith, get-append_ne k j v d h)

  pub set-IsDistinct :
      (k : K) (v : V) (d : OrderedDict K V) → IsDistinct d → IsDistinct (set dec k v d)
  unfolding get set
  set-IsDistinct k v [] h = (refl, tt)
  set-IsDistinct k v (e ∷ d) h = ground (arith, set-IsDistinct k v d h.1, get-set_ne k e.0 v d)

  pub delete-IsDistinct : (k : K) (d : OrderedDict K V) → IsDistinct d → IsDistinct (delete dec k d)
  unfolding get delete
  delete-IsDistinct k [] h = tt
  delete-IsDistinct k (e ∷ d) h = ground (arith, delete-IsDistinct k d h.1, get-delete_ne k e.0 d)

  append-IsDistinct :
      (k : K) (v : V) (d : OrderedDict K V)
      → get dec k d ≡ none
      → IsDistinct d
      → IsDistinct (d ++ (k, v) ∷ [])
  unfolding get
  append-IsDistinct k v [] e h = (refl, tt)
  append-IsDistinct k v (x ∷ d) e h =
      ground (arith, append-IsDistinct k v d, get-append_ne k x.0 v d)

  pub move_to_end-IsDistinct :
      (k : K) (d : OrderedDict K V) → IsDistinct d → IsDistinct (move_to_end dec k d)
  unfolding move_to_end
  move_to_end-IsDistinct k d h = elim (Option-cases (get dec k d)) [
    | inl e ↦ rw (e, move_to_end) h
    | inr (v, e) ↦
        rw (e, move_to_end)
          (append-IsDistinct k v (delete dec k d) (get-delete_self k d h) (delete-IsDistinct k d h))
  ]

  -- Moving an entry changes the order, and nothing that a lookup can see.
  pub get-move_to_end :
      (k j : K) (d : OrderedDict K V) → IsDistinct d → get dec j (move_to_end dec k d) ≡ get dec j d
  unfolding move_to_end
  get-move_to_end k j d h = elim (Option-cases (get dec k d)) [
    | inl e ↦ rw (e, move_to_end) refl
    | inr (v, e) ↦ elim (dec j k) [
      | yes p ↦
          rw (e, move_to_end, p)
            (get-append_new k v (delete dec k d) (get-delete_self k d h) ∙ sym e)
      | no n ↦ rw (e, move_to_end) (get-append_ne k j v (delete dec k d) n ∙ get-delete_ne k j d n)
    ]
  ]

  -- A new key goes to the end.
  pub set_new :
      (k : K) (v : V) (d : OrderedDict K V) → get dec k d ≡ none → set dec k v d ≡ d ++ (k, v) ∷ []
  unfolding get set
  set_new k v [] h = refl
  set_new k v (e ∷ d) h = ground (arith, set_new k v d)

  -- A key just written is the last one after `move_to_end`.
  pub move_to_end-set :
      (k : K) (v : V) (d : OrderedDict K V)
      → move_to_end dec k (set dec k v d) ≡ delete dec k (set dec k v d) ++ (k, v) ∷ []
  unfolding move_to_end
  move_to_end-set k v d = rw (get-set_self k v d, move_to_end) refl

  pub length-set_new :
      (k : K) (v : V) (d : OrderedDict K V)
      → get dec k d ≡ none
      → length (set dec k v d) ≡ length d + 1
  unfolding get set
  length-set_new k v [] h = omega arith
  length-set_new k v (e ∷ d) h = ground (arith, length-set_new k v d)

  pub length-set_old :
      (k : K) (v w : V) (d : OrderedDict K V)
      → get dec k d ≡ some w
      → length (set dec k v d) ≡ length d
  unfolding get set
  length-set_old k v w [] h = cc
  length-set_old k v w (e ∷ d) h = ground (arith, length-set_old k v w d)

  pub length-delete :
      (k : K) (w : V) (d : OrderedDict K V)
      → get dec k d ≡ some w
      → length (delete dec k d) + 1 ≡ length d
  unfolding get delete
  length-delete k w [] h = cc
  length-delete k w (e ∷ d) h = ground (arith, length-delete k w d)

  pub length-move_to_end : (k : K) (d : OrderedDict K V) → length (move_to_end dec k d) ≡ length d
  unfolding move_to_end
  length-move_to_end k d = elim (Option-cases (get dec k d)) [
    | inl e ↦ rw (e, move_to_end) refl
    | inr (v, e) ↦
        rw (e, move_to_end)
          (omega (arith, length-append (delete dec k d) ((k, v) ∷ []), length-delete k v d e))
  ]

  pub pop_oldest-IsDistinct : (d : OrderedDict K V) → IsDistinct d → IsDistinct (pop_oldest d)
  unfolding pop_oldest
  pop_oldest-IsDistinct [] h = tt
  pop_oldest-IsDistinct (e ∷ d) h = h.1

  -- What is left after an eviction is what was there, apart from the evicted key.
  pub get-pop_oldest :
      (k : K) (d : OrderedDict K V) {v : V}
      → IsDistinct d
      → get dec k (pop_oldest d) ≡ some v
      → get dec k d ≡ some v
  unfolding pop_oldest get
  get-pop_oldest k [] h e = cc
  get-pop_oldest k (x ∷ d) h e = ground arith
