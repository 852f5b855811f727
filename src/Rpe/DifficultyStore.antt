-- ===== src/Rpe/DifficultyStore.antt =====
-- InMemorySynapseDifficultyWeightStore of app/rpe/difficulty_store.py: the weights of the cells,
-- least recently used first.
use cortex_cognitive_runtime.Prelude.{ℕ, ◌*◌, ◌≤◌, ◌<◌, ◌≡◌, Option, none, some, length, arith}
use cortex_cognitive_runtime.OrderedDict.{OrderedDict, get, move_to_end}
use cortex_cognitive_runtime.OrderedDict.Laws.{
  IsDistinct, get-move_to_end, move_to_end-IsDistinct, length-move_to_end,
}
use cortex_cognitive_runtime.OrderedDict.Bounded.{put, put-IsDistinct, length-put, get-put_self}
use cortex_cognitive_runtime.Rpe.Cell.{Cell, Cell_discrete}
use cortex_cognitive_runtime.Rpe.WeightStore.{WeightStore}

-- `MAX_CELLS`
abbrev pub max_cells : ℕ
max_cells = 512 * 35

pub record InMemoryStore (F : Type 0) : Type 0 where
  pub weights : OrderedDict Cell F
  pub max_cells : ℕ

module _ {F : Type 0} where
  -- `__init__(initial, max_cells)`
  abbrev pub init : OrderedDict Cell F → ℕ → InMemoryStore F
  init initial bound = record { weights = initial; max_cells = bound }

  -- A hit becomes the most recent entry.
  unfoldable pub read_weight : Cell → InMemoryStore F → Option F × InMemoryStore F
  read_weight c s = elim (get Cell_discrete c s.weights) [
    | none ↦ (none, s)
    | some v ↦ (some v, record s { weights = move_to_end Cell_discrete c s.weights })
  ]

  -- `_put`, and `write_weight` and `set`, which only call it
  unfoldable pub write_weight : Cell → F → InMemoryStore F → InMemoryStore F
  write_weight c v s = record s { weights = put Cell_discrete s.max_cells c v s.weights }

  pub record IsBounded (s : InMemoryStore F) : Type 0 where
    pub room : 0 < s.max_cells
    pub bounded : length s.weights ≤ s.max_cells
    pub distinct : IsDistinct Cell_discrete s.weights

  pub read_weight-value :
      (c : Cell) (s : InMemoryStore F) → (read_weight c s).0 ≡ get Cell_discrete c s.weights
  unfolding read_weight
  read_weight-value c s = ground arith

  pub read_weight-keeps :
      (c j : Cell) (s : InMemoryStore F)
      → IsBounded s
      → get Cell_discrete j (read_weight c s).1.weights ≡ get Cell_discrete j s.weights
  unfolding read_weight
  read_weight-keeps c j s h = ground (arith, get-move_to_end Cell_discrete c j s.weights h.distinct)

  pub read_weight-IsBounded :
      (c : Cell) (s : InMemoryStore F) → IsBounded s → IsBounded (read_weight c s).1
  unfolding read_weight
  read_weight-IsBounded c s h = ground (
    arith,
    length-move_to_end Cell_discrete c s.weights,
    move_to_end-IsDistinct Cell_discrete c s.weights h.distinct,
  )

  pub write_weight-value :
      (c : Cell) (v : F) (s : InMemoryStore F)
      → IsBounded s
      → get Cell_discrete c (write_weight c v s).weights ≡ some v
  unfolding write_weight
  write_weight-value c v s h =
      get-put_self Cell_discrete s.max_cells c v s.weights h.room h.distinct

  pub write_weight-IsBounded :
      (c : Cell) (v : F) (s : InMemoryStore F) → IsBounded s → IsBounded (write_weight c v s)
  unfolding write_weight
  write_weight-IsBounded c v s h = record {
    room = h.room;
    bounded = length-put Cell_discrete s.max_cells c v s.weights h.bounded;
    distinct = put-IsDistinct Cell_discrete s.max_cells c v s.weights h.distinct;
  }

  instance abbrev pub in_memory : WeightStore (InMemoryStore F) F
  in_memory = record {
    read_weight = read_weight;
    write_weight = write_weight;
    peek = λ c s. get Cell_discrete c s.weights;
    IsValid = IsBounded;
    read-value = read_weight-value;
    read-keeps = read_weight-keeps;
    read-IsValid = read_weight-IsBounded;
    write-value = write_weight-value;
    write-IsValid = write_weight-IsBounded;
  }
