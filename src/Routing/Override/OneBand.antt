-- ===== src/Routing/Override/OneBand.antt =====
-- How far, and in which direction, the learned weight moves a path.
use cortex_cognitive_runtime.Prelude.{
  ℕ, zero, suc, ◌+◌, ◌-◌, ◌≤◌, ◌≡◌, refl, ◌⊎◌, inl, inr, true, false, Option, none, some, arith,
  min, Bool-cases,
}
use cortex_cognitive_runtime.Float.{Float64, ◌<=?◌, ◌<?◌}
use cortex_cognitive_runtime.Routing.Task.{RouteDecision, is_band, band_index, band_at}
use cortex_cognitive_runtime.Routing.Override.{Thresholds, override_by}

is_band-band_at : (n : ℕ) → is_band (band_at n) ≡ true
unfolding is_band band_at
is_band-band_at zero = refl
is_band-band_at (suc zero) = refl
is_band-band_at (suc (suc n)) = refl

module _ {F : Type 0} ⦃fl : Float64 F⦄ (h : Thresholds F) (d : RouteDecision F) where
  -- The index of the path after the override.
  abbrev moved : Option F → ℕ
  moved v = band_index (override_by h d v).path

  pub override_by-is_band :
      (v : Option F) → is_band d.path ≡ true → is_band (override_by h d v).path ≡ true
  unfolding override_by
  override_by-is_band none b = b
  override_by-is_band (some v) b = ground (
    arith,
    is_band-band_at (band_index d.path - 1),
    is_band-band_at (min 2 (band_index d.path + 1)),
  )

  -- The override moves a path by one band at most: down only for a weight below `demote_below`, up
  -- only for one of at least `promote_at`, and not at all for an unlearned cell.
  pub override_by_one_band :
      (v : Option F)
      → is_band d.path ≡ true
      → (moved v ≤ band_index d.path + 1)
        × (band_index d.path ≤ moved v + 1)
        × ((band_index d.path ≤ moved v) ⊎ ((w : F) × (v ≡ some w) × (w <? h.demote_below ≡ true)))
        × ((moved v ≤ band_index d.path) ⊎ ((w : F) × (v ≡ some w) × (h.promote_at <=? w ≡ true)))
  unfolding override_by
  override_by_one_band none b = (omega arith, omega arith, inl (omega arith), inl (omega arith))
  override_by_one_band (some v) b = (
    ground arith,
    ground arith,
    demoted (Bool-cases (v <? h.demote_below)),
    promoted (Bool-cases (h.promote_at <=? v)),
  )
    where
      demoted :
          ((v <? h.demote_below) ≡ true) ⊎ ((v <? h.demote_below) ≡ false)
          → (band_index d.path ≤ moved (some v))
            ⊎ ((w : F) × (some v ≡ some w) × (w <? h.demote_below ≡ true))
      demoted (inl e) = inr (v, refl, e)
      demoted (inr e) = inl (unfold override_by in ground arith)

      promoted :
          ((h.promote_at <=? v) ≡ true) ⊎ ((h.promote_at <=? v) ≡ false)
          → (moved (some v) ≤ band_index d.path)
            ⊎ ((w : F) × (some v ≡ some w) × (h.promote_at <=? w ≡ true))
      promoted (inl e) = inr (v, refl, e)
      promoted (inr e) = inl (unfold override_by in ground arith)

  -- A heavier learned weight never leads to a lighter path, if the thresholds are in order.
  pub override_by_mono :
      (v w : F)
      → is_band d.path ≡ true
      → h.demote_below <=? h.promote_at ≡ true
      → v <=? w ≡ true
      → moved (some v) ≤ moved (some w)
  unfolding override_by
  override_by_mono v w b o l = ground (
    arith,
    fl.leb_trans h.demote_below v w,
    fl.leb_trans h.promote_at v w,
    fl.leb_trans h.demote_below h.promote_at w,
    fl.leb_trans h.demote_below h.promote_at v,
  )
