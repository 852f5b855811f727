-- ===== src/Routing/Crossroad/Exploring.antt =====
-- What a background run may be.
use cortex_cognitive_runtime.Prelude.{
  suc, ◌+◌, ◌-◌, ◌&&◌, ltb, if◌then◌else◌, ◌≡◌, ◌≢◌, ◌⊎◌, refl, Bool, true, false, Option, none,
  some, inl, inr, String, arith, Option-cases, sym, subst, ◌∙◌,
}
use cortex_cognitive_runtime.Float.{Float64, ratio, ◌<?◌}
use cortex_cognitive_runtime.Rpe.Cell.{Cell}
use cortex_cognitive_runtime.Rpe.WeightStore.{WeightStore}
use cortex_cognitive_runtime.Routing.Task.{
  RouteDecision, RoutePath, TaskContext, band_at, band_index, cell_of, full_pipeline, is_band,
  lightweight, other, standard,
}
use cortex_cognitive_runtime.Routing.Pipeline.{stamp}
use cortex_cognitive_runtime.Routing.Crossroad.{
  CrossroadConfig, crossroad_band, explore_by, explore_context, fire_probability, is_near,
  maybe_explore, mode_blocks,
}

-- From the band of index n, by what the two tests of nearness say.
adjacent_by :
    (path band : RoutePath) (low high : Bool)
    → is_band path ≡ true
    → (let idx = band_index path in
        if low && ltb 0 idx
        then some (band_at (idx - 1))
        else if high && ltb idx 2
        then some (band_at (idx + 1))
        else none)
      ≡ some band
    → ((suc (band_index band) ≡ band_index path) ⊎ (band_index band ≡ suc (band_index path)))
      × ((low ≡ true) ⊎ (high ≡ true))
unfolding band_index band_at is_band
adjacent_by lightweight band low high b e = ground arith
adjacent_by standard band low high b e = ground arith
adjacent_by full_pipeline band low high b e = ground arith
adjacent_by (other text) band low high b e = absurd (cc)

module _ {F : Type 0} ⦃fl : Float64 F⦄ where
  explore_by-chosen :
      (cfg : CrossroadConfig F) (t e : TaskContext F) (path : RoutePath) (pfc_explore : Bool)
      (roll : F) (read : Option F)
      → is_band path ≡ true
      → explore_by cfg t path pfc_explore roll read ≡ some e
      → (weight : F) × (band : RoutePath) × (read ≡ some weight)
        × (e ≡ explore_context t band)
        × ((suc (band_index band) ≡ band_index path) ⊎ (band_index band ≡ suc (band_index path)))
        × ((is_near cfg.margin (ratio 4 10) weight ≡ true)
            ⊎ (is_near cfg.margin (ratio 7 10) weight ≡ true))
        × (mode_blocks t ≡ false)
        × (roll <? fire_probability cfg pfc_explore ≡ true)
  unfolding explore_by crossroad_band
  explore_by-chosen cfg t e path pfc_explore roll none b h = absurd (cc)
  explore_by-chosen cfg t e path pfc_explore roll (some weight) b h =
      elim (Option-cases (crossroad_band cfg path weight)) [
        | inl far ↦ absurd (ground (arith, far, h))
        | inr (band, near) ↦
            let (next, close) = adjacent_by path band _ _ b near in
            (
              weight,
              band,
              refl,
              ground (arith, near, h),
              next,
              close,
              ground (arith, near, h),
              ground (arith, near, h),
            )
      ]

  stamped_full :
      (t : TaskContext F) (path : RoutePath)
      → mode_blocks (stamp path t) ≡ false
      → path ≢ full_pipeline
  unfolding mode_blocks stamp
  stamped_full t path h e =
      let full : mode_blocks (stamp full_pipeline t) ≡ true = ground arith in
      let clash : true ≡ false = sym full ∙ subst (λ p. mode_blocks (stamp p t) ≡ false) e h in
      absurd (cc)

module _ {S F : Type 0} ⦃fl : Float64 F⦄ ⦃w : WeightStore S F⦄ where
  -- What is true of a background run `e` of the stamped context `t` on the path of `d`.
  pub record IsExplored (cfg : CrossroadConfig F) (t : TaskContext F) (d : RouteDecision F)
      (session : Option String) (pfc_explore : Bool) (roll : F) (st : S) (e : TaskContext F)
      : Type 0 where
    pub enabled : cfg.enabled ≡ true
    pub cell : Cell
    pub addressed : cell_of t session ≡ some cell
    pub weight : F
    pub learned : (w.read_weight cell st).0 ≡ some weight
    pub near :
        (is_near cfg.margin (ratio 4 10) weight ≡ true)
        ⊎ (is_near cfg.margin (ratio 7 10) weight ≡ true)
    pub band : RoutePath
    pub runs : e ≡ explore_context t band
    pub adjacent :
        (suc (band_index band) ≡ band_index d.path) ⊎ (band_index band ≡ suc (band_index d.path))
    pub not_full : d.path ≢ full_pipeline
    pub lucky : roll <? fire_probability cfg pfc_explore ≡ true

  -- A background run of a request that is stamped with its path comes only of an enabled reasoner,
  -- a learned weight near one of the two thresholds and a roll below the probability of the mode.
  -- It runs the same request on a neighbouring band under a trace of its own. Nothing is explored
  -- from the full pipeline.
  pub maybe_explore_lem :
      (cfg : CrossroadConfig F) (t e : TaskContext F) (d : RouteDecision F)
      (session : Option String) (pfc_explore : Bool) (roll : F) (st : S)
      → (maybe_explore cfg (stamp d.path t) d session pfc_explore roll st).0 ≡ some e
      → IsExplored cfg (stamp d.path t) d session pfc_explore roll st e
  unfolding maybe_explore
  maybe_explore_lem cfg t e d session pfc_explore roll st h =
      elim (Option-cases (cell_of (stamp d.path t) session)) [
        | inl missing ↦ absurd (ground (arith, missing, h))
        | inr (c, at) ↦
            let on : cfg.enabled ≡ true = ground (arith, at, h) in
            let is : is_band d.path ≡ true = ground (arith, at, h) in
            let (weight, band, learned, runs, next, near, calm, lucky) =
              explore_by-chosen cfg (stamp d.path t) e d.path pfc_explore roll
                (w.read_weight c st).0 is (ground (arith, at, on, is, h)) in
            record {
              enabled = on;
              cell = c;
              addressed = at;
              weight = weight;
              learned = learned;
              near = near;
              band = band;
              runs = runs;
              adjacent = next;
              not_full = stamped_full t d.path calm;
              lucky = lucky;
            }
      ]
