-- ===== src/Routing/OrganTests.antt =====
-- The instances of the theorems of the single organs: override, ratchet, decay, basal ganglia.
use cortex_cognitive_runtime.Prelude.{
  ◌≤◌, ◌+◌, ◌≡◌, refl, ◌⊎◌, true, some, [], ◌∷◌, max, arith, String_discrete, ℕ_discrete,
  dec_of_iff,
}
use cortex_cognitive_runtime.Int.{ℤ, pos}
use cortex_cognitive_runtime.Float.{◌<=?◌, ◌<?◌}
use cortex_cognitive_runtime.Float.Fixed.{thousandths}
use cortex_cognitive_runtime.OrderedDict.{get, set, delete, move_to_end, pop_oldest}
use cortex_cognitive_runtime.OrderedDict.Bounded.{put, evict, touch_or_create, found_or}
use cortex_cognitive_runtime.Rpe.Cell.{Cell, Cell_discrete, CellKey_discrete, key_of}
use cortex_cognitive_runtime.Routing.Task.{
  lightweight, standard, full_pipeline, RouteDecision, band_index, band_at, is_band,
}
use cortex_cognitive_runtime.Routing.Override.{Thresholds, override_by, shift_of, shifted}
use cortex_cognitive_runtime.Routing.Override.OneBand.{override_by_one_band}
use cortex_cognitive_runtime.Routing.Ratchet.{
  Ratchet, floor_of, floor_index, session_floors, write_floor, final_index, clamped, clamp_up,
  lower_floor, decay_release,
}
use cortex_cognitive_runtime.Routing.Ratchet.Floors.{IsBounded, clamp_up_lem}
use cortex_cognitive_runtime.Routing.Decay.{decayed}

-- All that a run computes with.
organ_program : Unit {0}
unfolding String_discrete ℕ_discrete dec_of_iff get set delete move_to_end pop_oldest put evict
    touch_or_create found_or Cell_discrete CellKey_discrete band_index band_at is_band override_by
    shift_of shifted floor_of floor_index session_floors write_floor final_index clamped clamp_up
    lower_floor decay_release decayed
organ_program = tt

abbrev coding_cell : Cell
coding_cell = record { session = "s"; category = "coding"; difficulty = 4 }

abbrev writing_cell : Cell
writing_cell = record { session = "s"; category = "writing"; difficulty = 2 }

abbrev standard_route : RouteDecision ℤ
standard_route = record { path = standard; skip_layers = []; reason = [] }

abbrev limits : Thresholds ℤ
limits = record { demote_below = pos 400; promote_at = pos 700 }

-- Both cells of the session have a floor.
abbrev two_floors : Ratchet
two_floors = record {
  floors = ("s", (key_of coding_cell, full_pipeline) ∷ (key_of writing_cell, standard) ∷ []) ∷ [];
  max_sessions = 2;
}

demoted_route : (override_by limits standard_route (some (pos 300))).path ≡ lightweight
unfolding organ_program
demoted_route = refl

standard_is_band : is_band standard ≡ true
unfolding is_band
standard_is_band = refl

override_by_one_band_example :
    (band_index (override_by limits standard_route (some (pos 300))).path
      ≤ band_index standard_route.path + 1)
    × (band_index standard_route.path
        ≤ band_index (override_by limits standard_route (some (pos 300))).path + 1)
    × ((band_index standard_route.path
          ≤ band_index (override_by limits standard_route (some (pos 300))).path)
        ⊎ ((w : ℤ) × (some (pos 300) ≡ some w) × (w <? limits.demote_below ≡ true)))
    × ((band_index (override_by limits standard_route (some (pos 300))).path
          ≤ band_index standard_route.path)
        ⊎ ((w : ℤ) × (some (pos 300) ≡ some w) × (limits.promote_at <=? w ≡ true)))
override_by_one_band_example =
    override_by_one_band limits standard_route (some (pos 300)) standard_is_band

clamp_up_lem_example :
    (band_index (clamp_up standard_route coding_cell two_floors).0.path
      ≡ max (band_index standard) (floor_index (floor_of coding_cell two_floors)))
    × (floor_of coding_cell (clamp_up standard_route coding_cell two_floors).1
        ≡ some (clamp_up standard_route coding_cell two_floors).0.path)
clamp_up_lem_example = clamp_up_lem standard_route coding_cell two_floors standard_is_band

two_floors-IsBounded : IsBounded two_floors
unfolding organ_program
two_floors-IsBounded = record { room = omega arith; bounded = omega arith; distinct = (refl, tt) }
