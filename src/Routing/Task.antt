-- ===== src/Routing/Task.antt =====
-- The data of one request: app/api/schemas/context.py (Difficulty, TaskContext),
-- app/core/model_tier.py (ModelTier) and RouteDecision of app/routing/skip_router.py.
use text.Mathlib.Text.{◌==◌ as str_beq}
use cortex_cognitive_runtime.Prelude.{
  ℕ, zero, suc, Bool, true, false, Option, none, some, List, ltb, if◌then◌else◌, String,
}
use cortex_cognitive_runtime.OrderedDict.{OrderedDict}
use cortex_cognitive_runtime.Rpe.Cell.{Cell}

pub data Difficulty : Type 0 where
  easy medium hard very_hard deep_thinking : Difficulty

pub data ModelTier : Type 0 where
  lightweight medium standard heavy deep_thinking : ModelTier

-- `int(difficulty)`
unfoldable pub level : Difficulty → ℕ
level Difficulty.easy = 1
level Difficulty.medium = 2
level Difficulty.hard = 3
level Difficulty.very_hard = 4
level Difficulty.deep_thinking = 5

-- `int(tier)`
unfoldable pub tier_value : ModelTier → ℕ
tier_value ModelTier.lightweight = 1
tier_value ModelTier.medium = 2
tier_value ModelTier.standard = 3
tier_value ModelTier.heavy = 4
tier_value ModelTier.deep_thinking = 5

-- The paths are plain strings in the source; `other` is any string that is no band.
pub data RoutePath : Type 0 where
  lightweight standard full_pipeline : RoutePath
  other : String → RoutePath

-- `_BANDS.index(path)`; `RoutingRatchet._band_index` gives 0 for what is no band.
unfoldable pub band_index : RoutePath → ℕ
band_index lightweight = 0
band_index standard = 1
band_index full_pipeline = 2
band_index (other _) = 0

-- `path in _BANDS`
unfoldable pub is_band : RoutePath → Bool
is_band (other _) = false
is_band _ = true

-- `_BANDS[i]` for i below 3
unfoldable pub band_at : ℕ → RoutePath
band_at zero = lightweight
band_at (suc zero) = standard
band_at (suc (suc n)) = full_pipeline

pub data Shift : Type 0 where
  demote promote : Shift

-- What is appended to the reason of a decision. The weight is the one that the text prints.
pub data Note (F : Type 0) : Type 0 where
  difficulty_path : ℕ → Note F
  rpe_override : Shift → RoutePath → RoutePath → F → Note F
  ratchet_floor : RoutePath → RoutePath → Note F
  bg_promote : RoutePath → RoutePath → Note F

pub record RouteDecision (F : Type 0) : Type 0 where
  pub path : RoutePath
  pub skip_layers : List String
  pub reason : List (Note F)

-- The fields of TaskContext that routing reads or writes.
pub record TaskContext (F : Type 0) : Type 0 where
  pub trace_id : String
  pub prompt : String
  pub category : Option String
  pub difficulty : Difficulty
  pub ne_boost : Bool
  pub synapse_snapshot : OrderedDict String F
  pub epinephrine_active : Bool
  pub epinephrine_reason : Option String
  pub selected_tier : ModelTier
  pub route_path : Option RoutePath

-- `if not category or difficulty < 1 or session_id is None: return`, the guard of the four organs
-- that address a cell: the cell, where the guard lets the call through.
unfoldable pub cell_of : {F : Type 0} → TaskContext F → Option String → Option Cell
unfolding level
cell_of t none = none
cell_of t (some session) = elim t.category [
  | none ↦ none
  | some category ↦
      if str_beq category ""
      then none
      else if ltb (level t.difficulty) 1
      then none
      else some (record { session = session; category = category; difficulty = level t.difficulty })
]
