-- ===== src/OrderedDict/Bounded.antt =====
-- The two idioms by which the stores keep an `OrderedDict` bounded, least recently used first:
-- write, move to the end and evict; and touch an entry, or create it and evict.
use cortex_cognitive_runtime.Prelude.{
  ℕ, ◌+◌, ◌≤◌, ◌<◌, ◌≡◌, ◌≢◌, none, some, [], ◌∷◌, ◌++◌, arith, length, ltb, if◌then◌else◌,
  Option-cases, inl, inr,
}
use cortex_cognitive_runtime.OrderedDict.{OrderedDict, get, set, move_to_end, pop_oldest}
use cortex_cognitive_runtime.OrderedDict.Laws.{
  IsDistinct, get-set_ne, get-move_to_end, set-IsDistinct, move_to_end-IsDistinct,
  pop_oldest-IsDistinct, length-set_new, length-set_old, length-move_to_end, length-pop_oldest,
  get-pop_oldest, set_new, move_to_end-set, get-append_new, get-delete_self,
}

module _ {ℓ} {K V : Type ℓ} where
  -- `if len(d) > bound: d.popitem(last=False)`
  unfoldable pub evict : ℕ → OrderedDict K V → OrderedDict K V
  evict bound d = if ltb bound (length d) then pop_oldest d else d

  pub length-evict :
      (bound : ℕ) (d : OrderedDict K V) → length d ≤ bound + 1 → length (evict bound d) ≤ bound
  unfolding evict
  length-evict bound d h = ground (arith, length-pop_oldest d)

  module _ (dec : Discrete K) where
    -- `d[k] = v; d.move_to_end(k); if len(d) > bound: d.popitem(last=False)`
    unfoldable pub put : ℕ → K → V → OrderedDict K V → OrderedDict K V
    put bound k v d = evict bound (move_to_end dec k (set dec k v d))

    -- `if k in d: d.move_to_end(k); return d[k]` and else `d[k] = fresh; if len(d) > bound: ...`
    unfoldable pub touch_or_create : ℕ → K → V → OrderedDict K V → OrderedDict K V
    touch_or_create bound k fresh d = elim (get dec k d) [
      | some v ↦ move_to_end dec k d
      | none ↦ evict bound (set dec k fresh d)
    ]

    -- The value that the idiom above returns.
    unfoldable pub found_or : K → V → OrderedDict K V → V
    found_or k fresh d = elim (get dec k d) [ some v ↦ v | none ↦ fresh ]

    pub evict-IsDistinct :
        (bound : ℕ) (d : OrderedDict K V) → IsDistinct dec d → IsDistinct dec (evict bound d)
    unfolding evict
    evict-IsDistinct bound d h = ground (arith, pop_oldest-IsDistinct dec d h)

    pub get-evict :
        (bound : ℕ) (k : K) (v : V) (d : OrderedDict K V)
        → IsDistinct dec d
        → get dec k (evict bound d) ≡ some v
        → get dec k d ≡ some v
    unfolding evict
    get-evict bound k v d h e = ground (arith, get-pop_oldest dec k d {v = v} h)

    pub put-IsDistinct :
        (bound : ℕ) (k : K) (v : V) (d : OrderedDict K V)
        → IsDistinct dec d
        → IsDistinct dec (put bound k v d)
    unfolding put
    put-IsDistinct bound k v d h =
        evict-IsDistinct bound _ (move_to_end-IsDistinct dec k _ (set-IsDistinct dec k v d h))

    pub touch_or_create-IsDistinct :
        (bound : ℕ) (k : K) (v : V) (d : OrderedDict K V)
        → IsDistinct dec d
        → IsDistinct dec (touch_or_create bound k v d)
    unfolding touch_or_create
    touch_or_create-IsDistinct bound k v d h = elim (Option-cases (get dec k d)) [
      | inl e ↦ rw (e, touch_or_create) (evict-IsDistinct bound _ (set-IsDistinct dec k v d h))
      | inr (w, e) ↦ rw (e, touch_or_create) (move_to_end-IsDistinct dec k d h)
    ]

    length-set-le : (k : K) (v : V) (d : OrderedDict K V) → length (set dec k v d) ≤ length d + 1
    length-set-le k v d = elim (Option-cases (get dec k d)) [
      | inl e ↦ omega (arith, length-set_new dec k v d e)
      | inr (w, e) ↦ omega (arith, length-set_old dec k v w d e)
    ]

    -- Neither idiom lets the dictionary grow past its bound.
    pub length-put :
        (bound : ℕ) (k : K) (v : V) (d : OrderedDict K V)
        → length d ≤ bound
        → length (put bound k v d) ≤ bound
    unfolding put
    length-put bound k v d h =
        length-evict bound _
          (omega (arith, length-move_to_end dec k (set dec k v d), length-set-le k v d))

    pub length-touch_or_create :
        (bound : ℕ) (k : K) (v : V) (d : OrderedDict K V)
        → length d ≤ bound
        → length (touch_or_create bound k v d) ≤ bound
    unfolding touch_or_create
    length-touch_or_create bound k v d h = elim (Option-cases (get dec k d)) [
      | inl e ↦ rw (e, touch_or_create) (length-evict bound _ (omega (arith, length-set-le k v d)))
      | inr (w, e) ↦ rw (e, touch_or_create) (omega (arith, length-move_to_end dec k d))
    ]

    get-evict_last :
        (bound : ℕ) (k : K) (v : V) (d : OrderedDict K V)
        → 0 < bound
        → get dec k d ≡ none
        → get dec k (evict bound (d ++ (k, v) ∷ [])) ≡ some v
    unfolding evict pop_oldest get
    get-evict_last bound k v [] c e = ground arith
    get-evict_last bound k v (x ∷ d) c e =
        ground (arith, get-append_new dec k v d, get-append_new dec k v (x ∷ d))

    -- The entry just written is the last one to be evicted.
    pub get-put_self :
        (bound : ℕ) (k : K) (v : V) (d : OrderedDict K V)
        → 0 < bound
        → IsDistinct dec d
        → get dec k (put bound k v d) ≡ some v
    unfolding put
    get-put_self bound k v d c h = rw (move_to_end-set dec k v d) (
        get-evict_last bound k v _ c
          (get-delete_self dec k (set dec k v d) (set-IsDistinct dec k v d h)))

    -- After the second idiom the entry is there, with the value that the idiom returns.
    pub get-touch_or_create_self :
        (bound : ℕ) (k : K) (v : V) (d : OrderedDict K V)
        → 0 < bound
        → IsDistinct dec d
        → get dec k (touch_or_create bound k v d) ≡ some (found_or k v d)
    unfolding touch_or_create found_or
    get-touch_or_create_self bound k v d c h = elim (Option-cases (get dec k d)) [
      | inl e ↦
          rw (e, touch_or_create, found_or)
            (rw (set_new dec k v d e) (get-evict_last bound k v d c e))
      | inr (w, e) ↦ rw (e, touch_or_create, found_or) (rw (get-move_to_end dec k k d h) e)
    ]

    -- It invents no other entry and changes none.
    pub get-touch_or_create_ne :
        (bound : ℕ) (k j : K) (v w : V) (d : OrderedDict K V)
        → IsDistinct dec d
        → j ≢ k
        → get dec j (touch_or_create bound k v d) ≡ some w
        → get dec j d ≡ some w
    unfolding touch_or_create
    get-touch_or_create_ne bound k j v w d h n e = ground (
      arith,
      get-evict bound j w (set dec k v d),
      set-IsDistinct dec k v d,
      get-move_to_end dec k j d,
      get-set_ne dec k j v d,
    )

    -- Any other entry keeps its value, unless it is the one that was evicted.
    pub get-put_ne :
        (bound : ℕ) (k j : K) (v w : V) (d : OrderedDict K V)
        → IsDistinct dec d
        → j ≢ k
        → get dec j (put bound k v d) ≡ some w
        → get dec j d ≡ some w
    unfolding put
    get-put_ne bound k j v w d h n e = ground (
      arith,
      get-evict bound j w (move_to_end dec k (set dec k v d)),
      move_to_end-IsDistinct dec k (set dec k v d),
      set-IsDistinct dec k v d,
      get-move_to_end dec k j (set dec k v d),
      get-set_ne dec k j v d,
    )
