-- ===== src/Rpe/PresetStore/Bounds.antt =====
-- The preset stays within the bounds of a weight, and survives a restart.
use cortex_cognitive_runtime.Prelude.{◌≡◌, refl, Bool, true, false, [], ◌∷◌, arith, All}
use cortex_cognitive_runtime.OrderedDict.{OrderedDict, set}
use cortex_cognitive_runtime.Float.{Float64, ratio, ◌<=?◌, max_f-min_f_bounds, max_f-min_f_id}
use cortex_cognitive_runtime.Rpe.Cell.{CellKey, CellKey_discrete}
use cortex_cognitive_runtime.Rpe.PresetStore.{
  PresetStore, clamp_preset, update_ema, load_rows, load_all,
}

module _ {F : Type 0} ⦃fl : Float64 F⦄ where
  -- A weight between 0.1 and 1.0.
  abbrev pub InBounds : F → Type 0
  InBounds v = (ratio 1 10 <=? v ≡ true) × (v <=? ratio 10 10 ≡ true)

  abbrev pub AllInBounds : OrderedDict CellKey F → Type 0
  AllInBounds = All (λ e. InBounds e.1)

  pub clamp_preset-InBounds : (v : F) → InBounds (clamp_preset v)
  unfolding clamp_preset
  clamp_preset-InBounds v =
      max_f-min_f_bounds v (ratio 1 10) (ratio 10 10)
        (fl.ratio_mono 1 10 10 10 (omega arith) (omega arith) (omega arith))

  clamp_preset_id : (v : F) → InBounds v → clamp_preset v ≡ v
  unfolding clamp_preset
  clamp_preset_id v h = max_f-min_f_id v (ratio 1 10) (ratio 10 10) h.0 h.1

  pub set-AllInBounds :
      (k : CellKey) (v : F) (d : OrderedDict CellKey F)
      → InBounds v
      → AllInBounds d
      → AllInBounds (set CellKey_discrete k v d)
  unfolding set
  set-AllInBounds k v [] h hs = (h, tt)
  set-AllInBounds k v (e ∷ d) h hs = ground (arith, set-AllInBounds k v d h hs.1)

  -- After any roll-in every cached preset is a valid weight.
  pub update_ema-AllInBounds :
      (k : CellKey) (value : F) (durable : Bool) (p : PresetStore F)
      → AllInBounds p.cache
      → AllInBounds (update_ema k value durable p).cache
  unfolding update_ema
  update_ema-AllInBounds k value true p h = set-AllInBounds k _ p.cache (clamp_preset-InBounds _) h
  update_ema-AllInBounds k value false p h = set-AllInBounds k _ p.cache (clamp_preset-InBounds _) h

  -- Whatever the rows hold, what is loaded is within the bounds.
  pub load_rows-AllInBounds : (rows : OrderedDict CellKey F) → AllInBounds (load_rows rows)
  unfolding load_rows
  load_rows-AllInBounds [] = tt
  load_rows-AllInBounds ((k, w) ∷ rows) = (clamp_preset-InBounds w, load_rows-AllInBounds rows)

  load_rows_id : (rows : OrderedDict CellKey F) → AllInBounds rows → load_rows rows ≡ rows
  unfolding load_rows
  load_rows_id [] h = refl
  load_rows_id ((k, w) ∷ rows) h = rw (clamp_preset_id w h.0, load_rows_id rows h.1) refl

  -- The rows mirror the cache, and are valid weights.
  pub record IsMirrored (p : PresetStore F) : Type 0 where
    pub mirrored : p.rows ≡ p.cache
    pub in_bounds : AllInBounds p.cache

  update_ema-IsMirrored :
      (k : CellKey) (value : F) (p : PresetStore F)
      → IsMirrored p
      → IsMirrored (update_ema k value true p)
  unfolding update_ema
  update_ema-IsMirrored k value p h = record {
    mirrored = rw (h.mirrored) refl;
    in_bounds = set-AllInBounds k _ p.cache (clamp_preset-InBounds _) h.in_bounds;
  }

  load_all_id : (p : PresetStore F) → IsMirrored p → load_all (record p { cache = [] }) ≡ p
  unfolding load_all
  load_all_id p h = λ i. record p { cache = same i }
    where
      same : load_rows p.rows ≡ p.cache
      same = rw (h.mirrored) (load_rows_id p.cache h.in_bounds)

  -- Where the rows of the database are those of the cache, with every value in its bounds: a
  -- roll-in that the database accepts keeps them so, and a restart after it loads the presets that
  -- were lost.
  pub load_all-update_ema :
      (k : CellKey) (value : F) (p : PresetStore F)
      → IsMirrored p
      → IsMirrored (update_ema k value true p)
        × (load_all (record (update_ema k value true p) { cache = [] }) ≡ update_ema k value true p)
  load_all-update_ema k value p h =
      let m = update_ema-IsMirrored k value p h in (m, load_all_id _ m)
