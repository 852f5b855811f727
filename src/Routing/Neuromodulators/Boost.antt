-- ===== src/Routing/Neuromodulators/Boost.antt =====
-- What norepinephrine does to the parameters of a request that LocusCoeruleus found hard.
use cortex_cognitive_runtime.Prelude.{◌≤◌, ◌≡◌, refl, true, arith}
use cortex_cognitive_runtime.Float.{Float64, ratio, min_f, ◌<=?◌}
use cortex_cognitive_runtime.Routing.Task.{Difficulty, level, tier_value}
use cortex_cognitive_runtime.Routing.LocusCoeruleus.{tier_of}
use cortex_cognitive_runtime.Routing.Neuromodulators.{
  GenerationParams, modify_params, should_activate,
}

module _ {F : Type 0} ⦃fl : Float64 F⦄ where
  min_f_le_right : (a b : F) → min_f a b <=? b ≡ true
  min_f_le_right a b = ground (arith, fl.leb_refl b)

  -- By the tier, which for a request that activates norepinephrine is at least the standard one.
  pub modify_params-tier_of :
      (d : Difficulty) (p : GenerationParams F)
      → should_activate (level d) ≡ true
      → (let q = modify_params p (tier_of d) true in
          (q.temperature <=? ratio 1 10 ≡ true) × (80 ≤ q.top_k) × (q.ne_applied ≡ true))
  unfolding should_activate modify_params tier_of level tier_value
  modify_params-tier_of Difficulty.easy p h = absurd (cc)
  modify_params-tier_of Difficulty.medium p h = absurd (cc)
  modify_params-tier_of Difficulty.hard p h = absurd (cc)
  modify_params-tier_of Difficulty.very_hard p h =
      (min_f_le_right p.temperature (ratio 1 10), ground arith, refl)
  modify_params-tier_of Difficulty.deep_thinking p h =
      (min_f_le_right p.temperature (ratio 1 10), ground arith, refl)
