-- ===== src/Routing/Tests.antt =====
-- Runs of the routing organs on a small system, and the instances of their theorems.
use cortex_cognitive_runtime.Prelude.{
  ◌≤◌, ◌+◌, ◌≡◌, refl, true, false, none, some, [], ◌∷◌, arith, String_discrete, ℕ_discrete,
  dec_of_iff,
}
use cortex_cognitive_runtime.Int.{ℤ, pos}
use cortex_cognitive_runtime.Float.Fixed.{thousandths}
use cortex_cognitive_runtime.OrderedDict.{get, set, delete, move_to_end, pop_oldest}
use cortex_cognitive_runtime.OrderedDict.Bounded.{put, evict, touch_or_create, found_or}
use cortex_cognitive_runtime.Rpe.Cell.{Cell, Cell_discrete, CellKey_discrete}
use cortex_cognitive_runtime.Rpe.DifficultyStore.{
  InMemoryStore, in_memory, read_weight, write_weight,
}
use cortex_cognitive_runtime.Routing.Task.{
  Difficulty, ModelTier, standard, full_pipeline, TaskContext, band_index, band_at, is_band, level,
  cell_of,
}
use cortex_cognitive_runtime.Routing.SkipRouter.{native_path, native_skips, route}
use cortex_cognitive_runtime.Routing.Override
use cortex_cognitive_runtime.Routing.Override.{Thresholds, override_by, shift_of, shifted}
use cortex_cognitive_runtime.Routing.Ratchet
use cortex_cognitive_runtime.Routing.Ratchet.{
  Ratchet, floor_of, floor_index, session_floors, write_floor, final_index, clamped, clamp_up,
  lower_floor, decay_release,
}
use cortex_cognitive_runtime.Routing.Ratchet.Floors.{IsBounded, SessionHeld}
use cortex_cognitive_runtime.Routing.Decay
use cortex_cognitive_runtime.Routing.Decay.{
  Decay, SessionSteps, baseline_band, tick, decayed, forget, realize, after_tick,
}
use cortex_cognitive_runtime.Routing.Decay.Forgetting.{Protected}
use cortex_cognitive_runtime.Routing.Gate.{overlay, overlay_by}
use cortex_cognitive_runtime.BasalGanglia.Models.{fallback, candidate_path}
use cortex_cognitive_runtime.Routing.Pipeline.{
  Organs, stamp, bg_apply, ladder_index, decide, route_request,
}
use cortex_cognitive_runtime.Routing.Pipeline.Protection.{decide_first_demoted}
use cortex_cognitive_runtime.Routing.Pipeline.Sessions.{
  route_request_protects, route_request_keeps, session_protection, Serves, here, next,
}

-- All that a run computes with.
program : Unit {0}
unfolding String_discrete ℕ_discrete dec_of_iff get set delete move_to_end pop_oldest put evict
    touch_or_create found_or Cell_discrete CellKey_discrete read_weight write_weight band_index
    band_at is_band level cell_of native_path native_skips route Override.apply override_by shift_of
    shifted Ratchet.apply floor_of floor_index session_floors write_floor final_index clamped
    clamp_up lower_floor decay_release Decay.step baseline_band tick decayed forget realize
    after_tick overlay overlay_by stamp bg_apply ladder_index candidate_path decide route_request
program = tt

abbrev hard_coding : Cell
hard_coding = record { session = "s"; category = "coding"; difficulty = 4 }

abbrev task : TaskContext ℤ
task = record {
  trace_id = "t";
  prompt = "prove it";
  category = some "coding";
  difficulty = Difficulty.very_hard;
  ne_boost = true;
  synapse_snapshot = ("coding", pos 300) ∷ [];
  epinephrine_active = false;
  epinephrine_reason = none;
  selected_tier = ModelTier.heavy;
  route_path = none;
}

abbrev thresholds : Thresholds ℤ
thresholds = record { demote_below = pos 400; promote_at = pos 700 }

-- A learned weight of 0.3 on the cell, and no floor yet.
abbrev low_store : InMemoryStore ℤ
low_store = record { weights = (hard_coding, pos 300) ∷ []; max_cells = 10 }

abbrev organs : Organs (InMemoryStore ℤ) ℤ
organs = record {
  store = low_store;
  ratchet = record { floors = []; max_sessions = 2 };
  decay = record { sessions = []; max_sessions = 2 };
  thresholds = thresholds;
  gate_enabled = true;
  bg_enabled = true;
  advise = λ t. some fallback;
}

-- The first request on the cell goes out one band too low.
first_request : (route_request task (some "s") organs).1.path ≡ standard
unfolding program
first_request = refl

-- With the floor at the baseline, the same weight changes nothing.
abbrev held_organs : Organs (InMemoryStore ℤ) ℤ
held_organs = record organs {
  ratchet = record {
    floors = ("s", (record { category = "coding"; difficulty = 4 }, full_pipeline) ∷ []) ∷ [];
    max_sessions = 2;
  };
}

held_request : (route_request task (some "s") held_organs).1.path ≡ full_pipeline
unfolding program
held_request = refl

task_cell : cell_of task (some "s") ≡ some hard_coding
unfolding program
task_cell = refl

decide_first_demoted_example :
    (band_index (decide thresholds task (some "s") low_store organs.ratchet).0.path + 1
      ≡ band_index (native_path Difficulty.very_hard))
    × (floor_of hard_coding (decide thresholds task (some "s") low_store organs.ratchet).2
        ≡ some (decide thresholds task (some "s") low_store organs.ratchet).0.path)
unfolding program
decide_first_demoted_example =
    decide_first_demoted thresholds task (some "s") low_store organs.ratchet task_cell refl refl
      refl (omega arith)

held_Protected : Protected hard_coding held_organs.ratchet
unfolding program
held_Protected = (full_pipeline, refl, omega arith)

held_IsBounded : IsBounded held_organs.ratchet
unfolding program
held_IsBounded = record { room = omega arith; bounded = omega arith; distinct = (refl, tt) }

route_request_protects_example :
    (band_index (baseline_band 4) ≤ band_index (route_request task (some "s") held_organs).1.path)
    × Protected hard_coding (route_request task (some "s") held_organs).2.ratchet
route_request_protects_example =
    route_request_protects task (some "s") held_organs task_cell held_Protected

-- Two requests of the session: the second is covered by the first.
served_once : Serves hard_coding held_organs (route_request task (some "s") held_organs).2
unfolding program
served_once = next task (some "s") here (λ gone. cc)

session_protection_example :
    band_index (baseline_band 4)
    ≤ band_index
        (route_request task (some "s") (route_request task (some "s") held_organs).2).1.path
session_protection_example =
    session_protection task (some "s") held_IsBounded held_Protected served_once task_cell

still_there : SessionHeld hard_coding (route_request task (some "s") held_organs).2.ratchet
unfolding program
still_there gone = cc

route_request_keeps_example :
    Protected hard_coding (route_request task (some "s") held_organs).2.ratchet
route_request_keeps_example =
    route_request_keeps task (some "s") held_organs hard_coding held_IsBounded held_Protected
      still_there
