-- ===== src/Routing/Override.antt =====
-- app/routing/rpe_route_override.py: the learned weight of the cell shifts the path by one band.
pub mod OneBand
use cortex_cognitive_runtime.Prelude.{
  ℕ, ◌+◌, ◌-◌, Bool, true, false, Option, none, some, [], ◌∷◌, ◌++◌, ◌==◌, if◌then◌else◌, String,
  min,
}
use cortex_cognitive_runtime.Float.{Float64, ◌<=?◌, ◌<?◌}
use cortex_cognitive_runtime.Rpe.WeightStore.{WeightStore}
use cortex_cognitive_runtime.Routing.Task.{
  Shift, demote, promote, RouteDecision, TaskContext, rpe_override, cell_of, is_band, band_index,
  band_at,
}

-- `DifficultyRouteOverride.__init__`: the defaults are 0.4 and 0.7.
pub record Thresholds (F : Type 0) : Type 0 where
  pub demote_below : F
  pub promote_at : F

module _ {F : Type 0} ⦃fl : Float64 F⦄ where
  -- The direction and the new index, where the weight is outside the middle band.
  unfoldable pub shift_of : Thresholds F → F → ℕ → Option (Shift × ℕ)
  shift_of h learned idx =
      if learned <? h.demote_below
      then some (demote, idx - 1)
      else if h.promote_at <=? learned
      then some (promote, min 2 (idx + 1))
      else none

  -- The decision with its path moved from `idx`, unless the shift was clamped at an edge.
  unfoldable pub shifted : RouteDecision F → F → Option (Shift × ℕ) → RouteDecision F
  unfolding band_index band_at
  shifted d learned none = d
  shifted d learned (some (direction, new_idx)) =
      if new_idx == band_index d.path then d else record d {
        path = band_at new_idx;
        reason = d.reason ++ rpe_override direction d.path (band_at new_idx) learned ∷ [];
      }

  -- What is made of the value that the store returned; an unlearned cell changes nothing.
  unfoldable pub override_by : Thresholds F → RouteDecision F → Option F → RouteDecision F
  unfolding shift_of shifted band_index
  override_by h d none = d
  override_by h d (some learned) = shifted d learned (shift_of h learned (band_index d.path))

  -- `apply`: the decision, and the store, whose entry a read makes the most recent.
  unfoldable pub apply :
      {S : Type 0} ⦃w : WeightStore S F⦄
      → Thresholds F
      → RouteDecision F
      → TaskContext F
      → Option String
      → S
      → RouteDecision F × S
  unfolding cell_of is_band override_by
  apply ⦃w⦄ h d t session s = elim (cell_of t session) [
    | none ↦ (d, s)
    | some c ↦
        if is_band d.path
        then (override_by h d (w.read_weight c s).0, (w.read_weight c s).1)
        else (d, s)
  ]
