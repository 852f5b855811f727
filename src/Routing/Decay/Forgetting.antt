-- ===== src/Routing/Decay/Forgetting.antt =====
-- What the decay does to a weight, and to the floors.
use cortex_cognitive_runtime.Prelude.{
  ℕ, ◌-◌, ◌≤◌, ◌≡◌, refl, ◌∙◌, ◌⊎◌, inl, inr, true, Option, none, some, arith, max, String,
  Option-cases,
}
use cortex_cognitive_runtime.Float.{
  Float64, ratio, of_nat, sub, mul, ◌<=?◌, max_f-ge_left, max_f-le, max_f_mono,
}
use cortex_cognitive_runtime.Rpe.Cell.{Cell, Cell_discrete}
use cortex_cognitive_runtime.Rpe.WeightStore.{WeightStore}
use cortex_cognitive_runtime.Routing.Task.{RoutePath, TaskContext, cell_of, band_index, band_at}
use cortex_cognitive_runtime.Routing.Ratchet.{Ratchet, floor_of, decay_release}
use cortex_cognitive_runtime.Routing.Ratchet.Floors.{IsBounded, band_index-band_at, band_index-le}
use cortex_cognitive_runtime.Routing.Ratchet.Release.{
  floor_of-decay_release, decay_release-others, decay_release-IsBounded,
}
use cortex_cognitive_runtime.Routing.Decay.{Decay, baseline_band, decayed, after_tick, tick, step}

module _ {F : Type 0} ⦃fl : Float64 F⦄ where
  -- Forgetting lowers a valid weight, keeps it at 0.1 or above, and is stronger after a longer
  -- idle time.
  pub decayed_bounds :
      (weight : F) (idle longer : ℕ)
      → ratio 1 10 <=? weight ≡ true
      → idle ≤ longer
      → (ratio 1 10 <=? decayed weight idle ≡ true)
        × (decayed weight idle <=? weight ≡ true)
        × (decayed weight longer <=? decayed weight idle ≡ true)
  unfolding decayed
  decayed_bounds weight idle longer valid le = (
    max_f-ge_left (ratio 1 10) (sub weight (mul (ratio 1 100) (of_nat idle))),
    max_f-le (ratio 1 10) (sub weight (mul (ratio 1 100) (of_nat idle))) weight valid
        (fl.sub-le weight (mul (ratio 1 100) (of_nat idle)) (loss_nonneg idle)),
    max_f_mono (ratio 1 10) (sub weight (mul (ratio 1 100) (of_nat longer)))
        (sub weight (mul (ratio 1 100) (of_nat idle)))
        (fl.sub_antitone weight (mul (ratio 1 100) (of_nat idle))
          (mul (ratio 1 100) (of_nat longer))
          (fl.mul_mono (ratio 1 100) (of_nat idle) (of_nat longer) rate_nonneg
            (fl.ratio_mono idle 1 longer 1 (omega arith) (omega arith) (omega arith)))),
  )
    where
      rate_nonneg : fl.leb (fl.ratio 0 1) (fl.ratio 1 100) ≡ true
      rate_nonneg = fl.ratio_mono 0 1 1 100 (omega arith) (omega arith) (omega arith)

      loss_nonneg : (n : ℕ) → fl.leb (fl.ratio 0 1) (fl.mul (fl.ratio 1 100) (fl.ratio n 1)) ≡ true
      loss_nonneg n =
          fl.mul_nonneg (ratio 1 100) (of_nat n) rate_nonneg
            (fl.ratio_mono 0 1 n 1 (omega arith) (omega arith) (omega arith))

-- The floor of a cell is at or above the baseline of its difficulty.
abbrev pub Protected : Cell → Ratchet → Type 0
Protected c r =
    (p : RoutePath) × (floor_of c r ≡ some p)
    × (band_index (baseline_band c.difficulty) ≤ band_index p)

pub decay_release-Protected :
    (c j : Cell) (r : Ratchet)
    → Protected j r
    → Protected j (decay_release c (baseline_band c.difficulty) r)
decay_release-Protected c j r (p, held, above) = elim (Cell_discrete j c) [
  | yes same ↦ released same
  | no differ ↦ (p, decay_release-others c j _ r differ ∙ held, above)
]
  where
    base : ℕ
    base = band_index (baseline_band c.difficulty)

    moved : RoutePath
    moved = band_at (max base (band_index p - 1))

    moved_index : band_index moved ≡ max base (band_index p - 1)
    moved_index =
        band_index-band_at (max base (band_index p - 1))
          (omega (arith, band_index-le p, band_index-le (baseline_band c.difficulty)))

    released : j ≡ c → Protected j (decay_release c (baseline_band c.difficulty) r)
    released same = rw same (
      moved,
      floor_of-decay_release c (baseline_band c.difficulty) p r (rw same at held),
      omega (arith, moved_index),
    )

module _ {F S : Type 0} ⦃fl : Float64 F⦄ ⦃w : WeightStore S F⦄ where
  after_tick-ratchet :
      (t : TaskContext F) (c : Cell) (idle : Option ℕ) (s : S) (r : Ratchet)
      → ((after_tick t c idle s r).1 ≡ r)
        ⊎ ((after_tick t c idle s r).1 ≡ decay_release c (baseline_band c.difficulty) r)
  unfolding after_tick
  after_tick-ratchet t c none s r = inl refl
  after_tick-ratchet t c (some n) s r = ground arith

  -- One step of the decay releases the floor of the current cell, or leaves the ratchet alone.
  pub step-ratchet :
      (t : TaskContext F) (session : Option String) (d : Decay) (s : S) (r : Ratchet)
      → ((step t session d s r).2 ≡ r)
        ⊎ ((c : Cell) × (cell_of t session ≡ some c)
            × ((step t session d s r).2 ≡ decay_release c (baseline_band c.difficulty) r))
  step-ratchet t session d s r = by_cell (Option-cases (cell_of t session))
    where
      by_cell :
          ((cell_of t session ≡ none) ⊎ ((c : Cell) × (cell_of t session ≡ some c)))
          → ((step t session d s r).2 ≡ r)
            ⊎ ((c : Cell) × (cell_of t session ≡ some c)
                × ((step t session d s r).2 ≡ decay_release c (baseline_band c.difficulty) r))
      by_cell (inl e) = inl (unfold step in rw (e, step) refl)
      by_cell (inr (c, e)) = after (after_tick-ratchet t c (tick c d).0 s r)
        where
          stepped : (step t session d s r).2 ≡ (after_tick t c (tick c d).0 s r).1
          stepped = unfold step in rw (e, step) refl

          after :
              (((after_tick t c (tick c d).0 s r).1 ≡ r)
                ⊎ ((after_tick t c (tick c d).0 s r).1
                    ≡ decay_release c (baseline_band c.difficulty) r))
              → ((step t session d s r).2 ≡ r)
                ⊎ ((c : Cell) × (cell_of t session ≡ some c)
                    × ((step t session d s r).2 ≡ decay_release c (baseline_band c.difficulty) r))
          after (inl same) = inl (stepped ∙ same)
          after (inr released) = inr (c, e, stepped ∙ released)

  pub step-Protected :
      (t : TaskContext F) (session : Option String) (d : Decay) (s : S) (r : Ratchet) (j : Cell)
      → Protected j r
      → Protected j (step t session d s r).2
  step-Protected t session d s r j h = elim (step-ratchet t session d s r) [
    | inl same ↦ rw same h
    | inr (c, e, released) ↦ rw released (decay_release-Protected c j r h)
  ]

  pub step-IsBounded :
      (t : TaskContext F) (session : Option String) (d : Decay) (s : S) (r : Ratchet)
      → IsBounded r
      → IsBounded (step t session d s r).2
  step-IsBounded t session d s r h = elim (step-ratchet t session d s r) [
    | inl same ↦ rw same h
    | inr (c, e, released) ↦ rw released (decay_release-IsBounded c _ r h)
  ]
