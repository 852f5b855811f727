-- ===== src/Rpe/StoreTests.antt =====
-- The stores of learned weights and the counter, and the instances of the theorems about them.
use cortex_cognitive_runtime.Prelude.{
  ◌++◌, ◌≢◌, length, ◌≤◌, ◌≡◌, refl, true, false, [], ◌∷◌, arith, String_discrete, ℕ_discrete,
  dec_of_iff,
}
use cortex_cognitive_runtime.Int.{ℤ, pos}
use cortex_cognitive_runtime.Float.Fixed.{thousandths}
use cortex_cognitive_runtime.OrderedDict.{get, set, delete, move_to_end, pop_oldest}
use cortex_cognitive_runtime.OrderedDict.Bounded.{put, evict}
use cortex_cognitive_runtime.Rpe.Cell.{CellKey, Cell_discrete, CellKey_discrete}
use cortex_cognitive_runtime.Rpe.DifficultyStore.{in_memory, read_weight, write_weight}
use cortex_cognitive_runtime.Rpe.PresetStore.{PresetStore, update_ema, load_all}
use cortex_cognitive_runtime.Rpe.PresetStore.Bounds.{
  AllInBounds, IsMirrored, update_ema-AllInBounds, load_all-update_ema,
}
use cortex_cognitive_runtime.Rpe.RecentCounter.{
  RecentCounter, CounterKey, CounterKey_discrete, signs_of, record_sign, counts,
}
use cortex_cognitive_runtime.Rpe.RecentCounter.Window.{record_sign-counts, latest, tally}

store_program : Unit {0}
unfolding String_discrete ℕ_discrete dec_of_iff get set delete move_to_end pop_oldest put evict
    Cell_discrete CellKey_discrete CounterKey_discrete read_weight write_weight
store_program = tt

abbrev coding_key : CellKey
coding_key = record { category = "coding"; difficulty = 4 }

abbrev presets : PresetStore ℤ
presets = record {
  alpha = pos 100;
  cache = (coding_key, pos 400) ∷ [];
  rows = (coding_key, pos 400) ∷ [];
}

presets-IsMirrored : IsMirrored presets
presets-IsMirrored = record { mirrored = refl; in_bounds = ((refl, refl), tt) }

update_ema-AllInBounds_example : AllInBounds (update_ema coding_key (pos 900) false presets).cache
update_ema-AllInBounds_example =
    update_ema-AllInBounds coding_key (pos 900) false presets ((refl, refl), tt)

load_all-update_ema_example :
    IsMirrored (update_ema coding_key (pos 900) true presets)
    × (load_all (record (update_ema coding_key (pos 900) true presets) { cache = [] })
        ≡ update_ema coding_key (pos 900) true presets)
load_all-update_ema_example = load_all-update_ema coding_key (pos 900) presets presets-IsMirrored

abbrev counted : CounterKey
counted = record { session = "s"; category = "coding" }

-- A counter whose window is full.
abbrev full_counter : RecentCounter
full_counter = record { window = 2; signs = (counted, true ∷ false ∷ []) ∷ [] }

full_counter-bounded : length (signs_of counted full_counter) ≤ 2
unfolding store_program
full_counter-bounded = omega arith

record_sign-counts_example :
    let r' = record_sign "s" "coding" (pos 56) full_counter in
    let last_signs = latest 2 (signs_of counted full_counter ++ true ∷ []) in
    (signs_of counted r' ≡ last_signs)
    × ((counts counted r').0 ≡ tally true last_signs)
    × ((counts counted r').1 ≡ tally false last_signs)
    × ((j : CounterKey) → j ≢ counted → counts j r' ≡ counts j full_counter)
record_sign-counts_example =
    record_sign-counts "s" "coding" (pos 56) full_counter refl full_counter-bounded
