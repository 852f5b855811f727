-- ===== src/Rpe/RecentCounter/Window.antt =====
-- The counts cover the last mutations, never more than the window.
use text.Mathlib.Text.{◌==◌ as str_beq}
use cortex_cognitive_runtime.Prelude.{
  ℕ, zero, suc, ◌+◌, ◌-◌, ◌≤◌, ◌≡◌, ◌≢◌, ◌∙◌, ap, refl, inl, inr, Bool, true, false, not, ◌||◌,
  List, [], ◌∷◌, ◌++◌, arith, leb, select, Bool-cases, if◌then◌else◌, length, length-append, String,
}
use cortex_cognitive_runtime.OrderedDict.Laws.{get-set_self, get-set_ne}
use cortex_cognitive_runtime.Float.{Float64, ratio, eqf, ◌<?◌}
use cortex_cognitive_runtime.Rpe.RecentCounter.{
  CounterKey, CounterKey_discrete, RecentCounter, signs_of, push, record_sign, positives, counts,
  oldest_dropped,
}

-- How often a sign stands in the list.
abbrev pub tally : Bool → List Bool → ℕ
tally b ss = length (select (λ s. if b then s else not s) ss)

abbrev drop : ℕ → List Bool → List Bool
drop zero ss = ss
drop (suc n) [] = []
drop (suc n) (s ∷ ss) = drop n ss

-- The last `n` of a list.
abbrev pub latest : ℕ → List Bool → List Bool
latest n ss = drop (length ss - n) ss

positives-tally : (ss : List Bool) → positives ss ≡ tally true ss
positives-tally [] = refl
positives-tally (true ∷ ss) = omega (arith, positives-tally ss)
positives-tally (false ∷ ss) = omega (arith, positives-tally ss)

length-tally : (ss : List Bool) → length ss ≡ tally true ss + tally false ss
length-tally [] = refl
length-tally (true ∷ ss) = omega (arith, length-tally ss)
length-tally (false ∷ ss) = omega (arith, length-tally ss)

push-latest :
    (window : ℕ) (sign : Bool) (ss : List Bool)
    → length ss ≤ window
    → push window sign ss ≡ latest window (ss ++ sign ∷ [])
unfolding push
push-latest window sign ss h = elim (Bool-cases (leb (suc (length ss)) window)) [
  | inl e ↦
      let none_over : length (ss ++ sign ∷ []) - window ≡ 0 =
        ground (arith, length-append ss (sign ∷ []), e) in
      rw (e, none_over) refl
  | inr e ↦
      let one_over : length (ss ++ sign ∷ []) - window ≡ 1 =
        ground (arith, length-append ss (sign ∷ []), e, h) in
      rw (e, one_over) (by_head (ss ++ sign ∷ []))
]
  where
    by_head : (xs : List Bool) → oldest_dropped xs ≡ drop 1 xs
    by_head [] = refl
    by_head (x ∷ xs) = refl

counts_lem :
    (k : CounterKey) (r : RecentCounter)
    → ((counts k r).0 ≡ tally true (signs_of k r)) × ((counts k r).1 ≡ tally false (signs_of k r))
unfolding counts
counts_lem k r = (
  positives-tally (signs_of k r),
  omega (arith, positives-tally (signs_of k r), length-tally (signs_of k r)),
)

-- A change that is not zero, of a named session and category, is recorded with its sign: after it the
-- pair's two counts are those of the positive and of the negative ones among the last signs, the
-- new one included and never more than the window. The counts of every other pair stay as they are.
pub record_sign-counts :
    {F : Type 0} ⦃fl : Float64 F⦄ (session category : String) (delta : F) (r : RecentCounter)
    → str_beq session "" || str_beq category "" || eqf delta (ratio 0 1) ≡ false
    → length (signs_of (record { session = session; category = category }) r) ≤ r.window
    → let k : CounterKey = record { session = session; category = category } in
      let r' = record_sign session category delta r in
      let last_signs = latest r.window (signs_of k r ++ (ratio 0 1 <? delta) ∷ []) in
      (signs_of k r' ≡ last_signs)
      × ((counts k r').0 ≡ tally true last_signs)
      × ((counts k r').1 ≡ tally false last_signs)
      × ((j : CounterKey) → j ≢ k → counts j r' ≡ counts j r)
unfolding record_sign
record_sign-counts session category delta r named bounded =
    let k : CounterKey = record { session = session; category = category } in
    let r' = record_sign session category delta r in
    let new = push r.window (ratio 0 1 <? delta) (signs_of k r) in
    let stored : signs_of k r' ≡ latest r.window (signs_of k r ++ (ratio 0 1 <? delta) ∷ []) =
      ground (
        arith,
        named,
        get-set_self CounterKey_discrete k new r.signs,
        push-latest r.window (ratio 0 1 <? delta) (signs_of k r) bounded,
      ) in
    let (up, down) = counts_lem k r' in
    (
      stored,
      up ∙ ap (tally true) stored,
      down ∙ ap (tally false) stored,
      λ j n.
          unfold counts in ground (arith, named, get-set_ne CounterKey_discrete k j new r.signs n),
    )
