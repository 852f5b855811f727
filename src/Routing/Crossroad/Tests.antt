-- ===== src/Routing/Crossroad/Tests.antt =====
-- A background run, and the instance of the theorem on it.
use cortex_cognitive_runtime.Prelude.{
  ◌≡◌, refl, true, false, none, some, [], ◌∷◌, String_discrete, ℕ_discrete, dec_of_iff,
}
use cortex_cognitive_runtime.Int.{ℤ, pos}
use cortex_cognitive_runtime.Float.Fixed.{thousandths}
use cortex_cognitive_runtime.OrderedDict.{get, set, delete, move_to_end, pop_oldest}
use cortex_cognitive_runtime.OrderedDict.Bounded.{put, evict}
use cortex_cognitive_runtime.Rpe.Cell.{Cell, Cell_discrete, CellKey_discrete}
use cortex_cognitive_runtime.Rpe.DifficultyStore.{InMemoryStore, in_memory, read_weight}
use cortex_cognitive_runtime.Routing.Task.{
  Difficulty, ModelTier, RouteDecision, RoutePath, TaskContext, lightweight, band_index, band_at,
  is_band, level, cell_of,
}
use cortex_cognitive_runtime.Routing.Pipeline.{stamp}
use cortex_cognitive_runtime.Routing.Crossroad.{
  CrossroadConfig, crossroad_band, mode_blocks, fire_probability, explore_context, explore_by,
  maybe_explore,
}
use cortex_cognitive_runtime.Routing.Crossroad.Exploring.{IsExplored, maybe_explore_lem}

program : Unit {0}
unfolding String_discrete ℕ_discrete dec_of_iff get set delete move_to_end pop_oldest put evict
    Cell_discrete CellKey_discrete read_weight band_index band_at is_band level cell_of stamp
    crossroad_band mode_blocks fire_probability explore_context explore_by maybe_explore
program = tt

abbrev cell : Cell
cell = record { session = "s"; category = "coding"; difficulty = 3 }

abbrev store : InMemoryStore ℤ
store = record { weights = (cell, pos 390) ∷ []; max_cells = 10 }

abbrev task : TaskContext ℤ
task = record {
  trace_id = "t";
  prompt = "prove it";
  category = some "coding";
  difficulty = Difficulty.hard;
  ne_boost = false;
  synapse_snapshot = [];
  epinephrine_active = false;
  epinephrine_reason = none;
  selected_tier = ModelTier.standard;
  route_path = none;
}

abbrev decision : RouteDecision ℤ
decision = record { path = RoutePath.standard; skip_layers = []; reason = [] }

abbrev config : CrossroadConfig ℤ
config = record {
  enabled = true;
  stable_probability = pos 100;
  explore_probability = pos 500;
  margin = pos 50;
}

abbrev stamped : TaskContext ℤ
stamped = stamp RoutePath.standard task

-- A learned weight of 0.39 nearly tips to the lighter band.
explored :
    (maybe_explore config stamped decision (some "s") true (pos 300) store).0
    ≡ some (explore_context stamped lightweight)
unfolding program
explored = refl

unlucky : (maybe_explore config stamped decision (some "s") false (pos 300) store).0 ≡ none
unfolding program
unlucky = refl

maybe_explore_lem_example :
    IsExplored config stamped decision
      (some "s")
      true
      (pos 300)
      store
      (explore_context stamped lightweight)
unfolding program
maybe_explore_lem_example =
    maybe_explore_lem config task (explore_context stamped lightweight) decision (some "s") true
      (pos 300) store refl
