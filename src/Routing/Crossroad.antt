-- ===== src/Routing/Crossroad.antt =====
-- app/routing/crossroad.py: whether a request is run once more, in the background and for learning
-- only, on the band that its weight nearly tips to. `roll` is what the random generator gives.
pub mod Exploring
mod Tests
use Prim.Native.String as Text
use cortex_cognitive_runtime.Prelude.{
  ◌+◌, ◌-◌, Bool, true, false, not, ◌&&◌, ◌||◌, Option, none, some, ltb, if◌then◌else◌, String,
}
use cortex_cognitive_runtime.Float.{Float64, ratio, sub, abs, ◌<=?◌}
use cortex_cognitive_runtime.Rpe.WeightStore.{WeightStore}
use cortex_cognitive_runtime.Routing.Task.{
  RouteDecision, RoutePath, TaskContext, band_at, band_index, cell_of, is_band,
}
use cortex_cognitive_runtime.Routing.Pipeline.{stamp}

pub record CrossroadConfig (F : Type 0) : Type 0 where
  pub enabled : Bool
  pub stable_probability : F
  pub explore_probability : F
  pub margin : F

module _ {F : Type 0} ⦃fl : Float64 F⦄ where
  abbrev pub is_near : F → F → F → Bool
  is_near margin threshold weight = abs (sub weight threshold) <=? margin

  -- `_crossroad_band`, for a path that is a band
  unfoldable pub crossroad_band : CrossroadConfig F → RoutePath → F → Option RoutePath
  unfolding band_index band_at
  crossroad_band cfg path weight =
      let idx = band_index path in
      if is_near cfg.margin (ratio 4 10) weight && ltb 0 idx
      then some (band_at (idx - 1))
      else if is_near cfg.margin (ratio 7 10) weight && ltb idx 2
      then some (band_at (idx + 1))
      else none

  -- `_mode_blocks`
  unfoldable pub mode_blocks : TaskContext F → Bool
  mode_blocks t = t.epinephrine_active || t.ne_boost

  unfoldable pub fire_probability : CrossroadConfig F → Bool → F
  fire_probability cfg pfc_explore =
      if pfc_explore then cfg.explore_probability else cfg.stable_probability

  -- The context that `_spawn_explore` runs.
  unfoldable pub explore_context : TaskContext F → RoutePath → TaskContext F
  unfolding stamp
  explore_context t band = record (stamp band t) { trace_id = Text.◌++◌ t.trace_id "::cr_explore" }

  -- The tests of `maybe_explore` after the weight is read.
  unfoldable pub explore_by :
      CrossroadConfig F → TaskContext F → RoutePath → Bool → F → Option F → Option (TaskContext F)
  unfolding crossroad_band mode_blocks fire_probability explore_context
  explore_by cfg t path pfc_explore roll none = none
  explore_by cfg t path pfc_explore roll (some weight) = elim (crossroad_band cfg path weight) [
    | none ↦ none
    | some band ↦
        if mode_blocks t
        then none
        else if fire_probability cfg pfc_explore <=? roll
        then none
        else some (explore_context t band)
  ]

module _ {S F : Type 0} ⦃fl : Float64 F⦄ ⦃w : WeightStore S F⦄ where
  -- `maybe_explore`: the context that is run in the background, if one is.
  unfoldable pub maybe_explore :
      CrossroadConfig F
      → TaskContext F
      → RouteDecision F
      → Option String
      → Bool
      → F
      → S
      → Option (TaskContext F) × S
  unfolding explore_by cell_of is_band
  maybe_explore cfg t d session pfc_explore roll st =
      if not cfg.enabled then (none, st) else elim (cell_of t session) [
        | none ↦ (none, st)
        | some c ↦
            let (weight, st') = w.read_weight c st in
            if is_band d.path
            then (explore_by cfg t d.path pfc_explore roll weight, st')
            else (none, st)
      ]
