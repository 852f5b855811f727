-- ===== src/Rpe/PresetStore/Fallback.antt =====
-- PresettedDifficultyStore as a store of weights: the session's value shadows the preset.
use cortex_cognitive_runtime.Prelude.{◌≤◌, ◌<◌, ◌≡◌, refl, ◌≢◌, ◌⊎◌, some, length, arith}
use cortex_cognitive_runtime.OrderedDict.Laws.{
  IsDistinct, get-move_to_end, move_to_end-IsDistinct, length-move_to_end,
}
use cortex_cognitive_runtime.OrderedDict.Bounded.{
  put-IsDistinct, length-put, get-put_self, get-put_ne,
}
use cortex_cognitive_runtime.Rpe.Cell.{Cell, Cell_discrete, key_of}
use cortex_cognitive_runtime.Rpe.WeightStore.{WeightStore}
use cortex_cognitive_runtime.Rpe.PresetStore.{
  PresettedStore, get_preset, resolve, read_weight, write_weight,
}

module _ {F : Type 0} where
  pub record IsBounded (s : PresettedStore F) : Type 0 where
    pub room : 0 < s.max_cells
    pub bounded : length s.weights ≤ s.max_cells
    pub distinct : IsDistinct Cell_discrete s.weights

  pub read_weight-resolve : (c : Cell) (s : PresettedStore F) → (read_weight c s).0 ≡ resolve c s
  unfolding read_weight resolve
  read_weight-resolve c s = ground arith

  pub read_weight-keeps :
      (c j : Cell) (s : PresettedStore F)
      → IsBounded s
      → resolve j (read_weight c s).1 ≡ resolve j s
  unfolding read_weight resolve
  read_weight-keeps c j s h = ground (arith, get-move_to_end Cell_discrete c j s.weights h.distinct)

  pub read_weight-IsBounded :
      (c : Cell) (s : PresettedStore F) → IsBounded s → IsBounded (read_weight c s).1
  unfolding read_weight
  read_weight-IsBounded c s h = ground (
    arith,
    length-move_to_end Cell_discrete c s.weights,
    move_to_end-IsDistinct Cell_discrete c s.weights h.distinct,
  )

  pub write_weight-value :
      (c : Cell) (v : F) (s : PresettedStore F)
      → IsBounded s
      → resolve c (write_weight c v s) ≡ some v
  unfolding write_weight resolve
  write_weight-value c v s h =
      ground (arith, get-put_self Cell_discrete s.max_cells c v s.weights h.room h.distinct)

  pub write_weight-IsBounded :
      (c : Cell) (v : F) (s : PresettedStore F) → IsBounded s → IsBounded (write_weight c v s)
  unfolding write_weight
  write_weight-IsBounded c v s h = record {
    room = h.room;
    bounded = length-put Cell_discrete s.max_cells c v s.weights h.bounded;
    distinct = put-IsDistinct Cell_discrete s.max_cells c v s.weights h.distinct;
  }

  -- A write never reaches the preset, and any other cell then reads as before, or, if it was the
  -- least recently used one of a full store, as its preset.
  pub write_weight-others :
      (c j : Cell) (v : F) (s : PresettedStore F)
      → IsBounded s
      → j ≢ c
      → ((write_weight c v s).preset ≡ s.preset)
        × ((resolve j (write_weight c v s) ≡ resolve j s)
            ⊎ (resolve j (write_weight c v s) ≡ get_preset (key_of j) s.preset))
  unfolding write_weight resolve
  write_weight-others c j v s h n =
      (refl, grind (arith, get-put_ne Cell_discrete s.max_cells c j v))

  -- The store of the running system, behind the protocol.
  instance abbrev pub presetted : WeightStore (PresettedStore F) F
  presetted = record {
    read_weight = read_weight;
    write_weight = write_weight;
    peek = resolve;
    IsValid = IsBounded;
    read-value = read_weight-resolve;
    read-keeps = read_weight-keeps;
    read-IsValid = read_weight-IsBounded;
    write-value = write_weight-value;
    write-IsValid = write_weight-IsBounded;
  }
