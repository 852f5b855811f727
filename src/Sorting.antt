-- ===== src/Sorting.antt =====
-- `list.sort` and `sorted` of Python with a key: a stable sort, so an item stands before those of
-- an equal key that it preceded. `before x y` says that the key of x is strictly less.
use mathlib.Core.List.{Memᴰ}
use mathlib.Core.List.Memᴰ.{head, tail}
use cortex_cognitive_runtime.Prelude.{
  ◌≡◌, refl, sym, subst, Bool, true, false, inl, inr, List, [], ◌∷◌, if◌then◌else◌, All, All-map,
  Bool-cases,
}

module _ {ℓ} {A : Type ℓ} (before : A → A → Bool) where
  unfoldable pub insert_sorted : A → List A → List A
  insert_sorted x [] = x ∷ []
  insert_sorted x (y ∷ ys) = if before y x then y ∷ insert_sorted x ys else x ∷ y ∷ ys

  unfoldable pub sort_with : List A → List A
  unfolding insert_sorted
  sort_with [] = []
  sort_with (x ∷ xs) = insert_sorted x (sort_with xs)

module _ {ℓ κ} {A : Type ℓ} (before : A → A → Bool) (P : A → Type κ) where
  insert_sorted-All : (x : A) (ys : List A) → P x → All P ys → All P (insert_sorted before x ys)
  unfolding insert_sorted
  insert_sorted-All x [] h hs = (h, tt)
  insert_sorted-All x (y ∷ ys) h hs = elim (Bool-cases (before y x)) [
    | inl e ↦ rw (e, insert_sorted) (hs.0, insert_sorted-All x ys h hs.1)
    | inr e ↦ rw (e, insert_sorted) (h, hs)
  ]

  pub sort_with-All : (xs : List A) → All P xs → All P (sort_with before xs)
  unfolding sort_with
  sort_with-All [] h = tt
  sort_with-All (x ∷ xs) h = insert_sorted-All x (sort_with before xs) h.0 (sort_with-All xs h.1)

  All-insert_sorted : (x : A) (ys : List A) → All P (insert_sorted before x ys) → P x × All P ys
  unfolding insert_sorted
  All-insert_sorted x [] h = (h.0, tt)
  All-insert_sorted x (y ∷ ys) h = by_test (before y x) (All-insert_sorted x ys) h
    where
      by_test :
          (b : Bool)
          → (All P (insert_sorted before x ys) → P x × All P ys)
          → All P (if b then y ∷ insert_sorted before x ys else x ∷ y ∷ ys)
          → P x × All P (y ∷ ys)
      by_test true later h = let rest = later h.1 in (rest.0, (h.0, rest.1))
      by_test false later h = (h.0, h.1)

  -- What holds of every item of the sorted list holds of every item.
  pub All-sort_with : (xs : List A) → All P (sort_with before xs) → All P xs
  unfolding sort_with
  All-sort_with [] h = tt
  All-sort_with (x ∷ xs) h =
      let rest = All-insert_sorted x (sort_with before xs) h in (rest.0, All-sort_with xs rest.1)

-- A sorted list has a first item where the list has one.
pub sort_with-cons {ℓ} :
    {A : Type ℓ} (before : A → A → Bool) (x : A) (xs : List A)
    → (h : A) × (hs : List A) × (sort_with before (x ∷ xs) ≡ h ∷ hs)
sort_with-cons {A = A} before x xs = by_shape (sort_with before (x ∷ xs)) refl
  where
    by_shape :
        (l : List A)
        → sort_with before (x ∷ xs) ≡ l
        → (h : A) × (hs : List A) × (sort_with before (x ∷ xs) ≡ h ∷ hs)
    by_shape [] e =
        absurd ((All-sort_with before (λ _. ⊥) (x ∷ xs) (subst (All (λ _. ⊥)) (sym e) tt)).0)
    by_shape (h ∷ hs) e = (h, hs, e)

-- Every item of a list is one of its members.
pub All-Mem {ℓ} : {A : Type ℓ} (xs : List A) → All (λ x. Memᴰ x xs) xs
All-Mem [] = tt
All-Mem (x ∷ xs) = (head refl, All-map xs (λ y m. tail m) (All-Mem xs))

-- Each item stands in R to all that follow it.
abbrev pub IsOrdered {ℓ κ} : {A : Type ℓ} → (A → A → Type κ) → List A → Type κ
IsOrdered R [] = Unit
IsOrdered R (x ∷ xs) = All (R x) xs × IsOrdered R xs

-- `R x y` says that x is no worse than y.
module _ {A : Type 0} (before : A → A → Bool) (R : A → A → Type 0)
    (R-trans : (x y z : A) → R x y → R y z → R x z)
    (R_of_before : (x y : A) → before x y ≡ true → R x y)
    (R_of_not_before : (x y : A) → before y x ≡ false → R x y) where
  insert_sorted-IsOrdered :
      (x : A) (ys : List A) → IsOrdered R ys → IsOrdered R (insert_sorted before x ys)
  unfolding insert_sorted
  insert_sorted-IsOrdered x [] h = (tt, tt)
  insert_sorted-IsOrdered x (y ∷ ys) h = elim (Bool-cases (before y x)) [
    | inl e ↦
        rw (e, insert_sorted)
          (
            insert_sorted-All before (R y) x ys (R_of_before y x e) h.0,
            insert_sorted-IsOrdered x ys h.1,
          )
    | inr e ↦
        let first = R_of_not_before x y e in
        rw (e, insert_sorted) ((first, All-map ys (λ z r. R-trans x y z first r) h.0), h)
  ]

  pub sort_with-IsOrdered : (xs : List A) → IsOrdered R (sort_with before xs)
  unfolding sort_with
  sort_with-IsOrdered [] = tt
  sort_with-IsOrdered (x ∷ xs) =
      insert_sorted-IsOrdered x (sort_with before xs) (sort_with-IsOrdered xs)

  -- The first item of a sorted list is no worse than any item.
  pub sort_with-leads :
      (R-refl : (x : A) → R x x) (xs : List A) (h : A) (hs : List A)
      → sort_with before xs ≡ h ∷ hs
      → All (R h) xs
  sort_with-leads R-refl xs h hs e =
      All-sort_with before (R h) xs
        (subst (All (R h)) (sym e) (R-refl h, (subst (IsOrdered R) e (sort_with-IsOrdered xs)).0))
