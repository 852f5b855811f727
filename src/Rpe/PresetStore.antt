-- ===== src/Rpe/PresetStore.antt =====
-- app/rpe/preset_store.py: the global preset of each category and difficulty, an exponential moving
-- average of what was learned, and the store that falls back on it.
pub mod Bounds
pub mod Fallback
use cortex_cognitive_runtime.Prelude.{
  ℕ, ◌≤◌, ◌<◌, ◌≡◌, refl, ◌≢◌, Bool, true, if◌then◌else◌, Option, none, some, List, [], ◌∷◌, length,
  arith, Option-cases, inl, inr,
}
use cortex_cognitive_runtime.OrderedDict.{OrderedDict, get, set, move_to_end}
use cortex_cognitive_runtime.OrderedDict.Laws.{
  IsDistinct, get-set_self, get-set_ne, get-move_to_end, move_to_end-IsDistinct, length-move_to_end,
}
use cortex_cognitive_runtime.OrderedDict.Bounded.{put, put-IsDistinct, length-put, get-put_self}
use cortex_cognitive_runtime.Float.{
  Float64, ratio, add, sub, mul, min_f, max_f, ◌<=?◌, max_f-ge_left, max_f-le,
}
use cortex_cognitive_runtime.Rpe.Cell.{Cell, CellKey, Cell_discrete, CellKey_discrete, key_of}
use cortex_cognitive_runtime.Rpe.WeightStore.{WeightStore}

-- DifficultyPresetStore: `cache` is `_cache`, `rows` is the table rpe_difficulty_weights, one row
-- for each key, without its time stamps.
pub record PresetStore (F : Type 0) : Type 0 where
  pub alpha : F
  pub cache : OrderedDict CellKey F
  pub rows : OrderedDict CellKey F

module _ {F : Type 0} where
  -- `get_preset`
  unfoldable pub get_preset : CellKey → PresetStore F → Option F
  get_preset k p = get CellKey_discrete k p.cache

module _ {F : Type 0} ⦃fl : Float64 F⦄ where
  -- `_clamp`: `max(0.1, min(1.0, value))`
  unfoldable pub clamp_preset : F → F
  clamp_preset v = max_f (ratio 1 10) (min_f (ratio 10 10) v)

  -- The value that `update_ema` rolls in.
  unfoldable pub ema : F → Option F → F → F
  ema alpha none value = value
  ema alpha (some prev) value = add (mul alpha value) (mul (sub (ratio 1 1) alpha) prev)

  -- `update_ema` with its table in place, since `_ensure_init` raises before anything changes where
  -- the table cannot be made: the cache first, then the row. `durable` tells whether the database accepted the
  -- write; where it did not, the cache is ahead of the row and the source raises DatabaseError.
  unfoldable pub update_ema : CellKey → F → Bool → PresetStore F → PresetStore F
  unfolding clamp_preset ema
  update_ema k value durable p =
      let new = clamp_preset (ema p.alpha (get CellKey_discrete k p.cache) value) in
      let cached = record p { cache = set CellKey_discrete k new p.cache } in
      if durable then record cached { rows = set CellKey_discrete k new p.rows } else cached

  -- The dictionary that `load_all` builds from the rows.
  unfoldable pub load_rows : OrderedDict CellKey F → OrderedDict CellKey F
  unfolding clamp_preset
  load_rows [] = []
  load_rows ((k, w) ∷ rows) = (k, clamp_preset w) ∷ load_rows rows

  -- `load_all`
  unfoldable pub load_all : PresetStore F → PresetStore F
  unfolding load_rows
  load_all p = record p { cache = load_rows p.rows }

-- PresettedDifficultyStore: the session weights, least recently used first, over the preset.
pub record PresettedStore (F : Type 0) : Type 0 where
  pub weights : OrderedDict Cell F
  pub preset : PresetStore F
  pub max_cells : ℕ

module _ {F : Type 0} where
  -- What `read_weight` returns: the session's value, else the preset, else nothing.
  unfoldable pub resolve : Cell → PresettedStore F → Option F
  unfolding get_preset
  resolve c s = elim (get Cell_discrete c s.weights) [
    | some v ↦ some v
    | none ↦ get_preset (key_of c) s.preset
  ]

  unfoldable pub read_weight : Cell → PresettedStore F → Option F × PresettedStore F
  unfolding get_preset
  read_weight c s = elim (get Cell_discrete c s.weights) [
    | some v ↦ (some v, record s { weights = move_to_end Cell_discrete c s.weights })
    | none ↦ (get_preset (key_of c) s.preset, s)
  ]

  -- `_put`, and `write_weight` and `set`, which only call it
  unfoldable pub write_weight : Cell → F → PresettedStore F → PresettedStore F
  write_weight c v s = record s { weights = put Cell_discrete s.max_cells c v s.weights }
