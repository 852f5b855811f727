-- ===== src/Synapse.antt =====
-- app/synapse: the weights of the categories in each session, observed and flushed. `norm` and
-- `dot_over` are numpy's norm of a vector and the quotient of two vectors' product by a number; `now`
-- is the clock's reading.
pub mod Observing
pub mod Adapter
mod Tests
mod AdapterTests
use cortex_cognitive_runtime.Prelude.{
  ℕ, suc, Bool, true, false, ◌||◌, Option, none, some, List, [], ◌∷◌, map, if◌then◌else◌, String,
  String_discrete,
}
use cortex_cognitive_runtime.OrderedDict.{OrderedDict, set}
use cortex_cognitive_runtime.OrderedDict.Bounded.{put, touch_or_create, found_or}
use cortex_cognitive_runtime.Float.{Float64, ratio, mul, eqf, ◌<?◌}

-- `sorted(SYNAPSE_CATEGORIES)`
abbrev pub categories : List String
categories =
    "coding" ∷ "data_analysis" ∷ "game_design" ∷ "general" ∷ "math_logic" ∷ "system_design"
    ∷ "writing" ∷ []

pub record SynapseState (F : Type 0) : Type 0 where
  pub weights : OrderedDict String F
  pub last_observed_category : Option String
  pub last_observed_similarity : Option F
  pub last_observed_embedding : Option (List F)
  pub flush_count : ℕ
  pub last_flush_at : Option F

pub record SynapseStore (F : Type 0) : Type 0 where
  pub states : OrderedDict String (SynapseState F)
  pub max_sessions : ℕ

module _ {F : Type 0} ⦃fl : Float64 F⦄ where
  -- `_initial_weights`
  unfoldable pub initial_weights : OrderedDict String F
  initial_weights = map (λ c. (c, ratio 3 10)) categories

  -- `SynapseState()`
  unfoldable pub initial_state : SynapseState F
  unfolding initial_weights
  initial_state = record {
    weights = initial_weights;
    last_observed_category = none;
    last_observed_similarity = none;
    last_observed_embedding = none;
    flush_count = 0;
    last_flush_at = none;
  }

  -- `get_state`
  unfoldable pub get_state : String → SynapseStore F → SynapseState F × SynapseStore F
  unfolding found_or touch_or_create initial_state
  get_state session m = (
    found_or String_discrete session initial_state m.states,
    record m {
      states = touch_or_create String_discrete m.max_sessions session initial_state m.states;
    },
  )

  -- `update_state`
  unfoldable pub update_state : String → SynapseState F → SynapseStore F → SynapseStore F
  unfolding put
  update_state session s m = record m {
    states = put String_discrete m.max_sessions session s m.states;
  }

  -- `snapshot`
  unfoldable pub snapshot : String → SynapseStore F → OrderedDict String F × SynapseStore F
  unfolding get_state
  snapshot session m = ((get_state session m).0.weights, (get_state session m).1)

  -- `reset_state`, which changes the stored state in its place
  unfoldable pub reset_state : String → SynapseStore F → SynapseStore F
  unfolding get_state initial_weights set
  reset_state session m =
      let (s, m') = get_state session m in
      record m' {
        states = set String_discrete session (record s { weights = initial_weights }) m'.states;
      }

  -- `_cosine`
  unfoldable pub cosine : (List F → F) → (List F → List F → F → F) → List F → List F → F
  cosine norm dot_over a b =
      if eqf (norm a) (ratio 0 1) || eqf (norm b) (ratio 0 1)
      then ratio 0 1
      else dot_over a b (mul (norm a) (norm b))

  -- `FlushPolicy.should_flush`
  unfoldable pub should_flush :
      (List F → F) → (List F → List F → F → F) → SynapseState F → List F → Bool
  unfolding cosine
  should_flush norm dot_over s [] = false
  should_flush norm dot_over s (x ∷ xs) = elim s.last_observed_embedding [
    | none ↦ false
    | some last ↦ elim last [
      | [] ↦ false
      | y ∷ ys ↦ cosine norm dot_over (y ∷ ys) (x ∷ xs) <? ratio 35 100
    ]
  ]

  -- `FlushPolicy.apply_flush`
  unfoldable pub apply_flush : F → SynapseState F → SynapseState F
  unfolding initial_weights
  apply_flush now s = record s {
    weights = initial_weights;
    flush_count = suc s.flush_count;
    last_flush_at = some now;
  }

  -- The state that `observe` stores.
  unfoldable pub observed :
      (List F → F)
      → (List F → List F → F → F)
      → String
      → List F
      → F
      → F
      → SynapseState F
      → SynapseState F
  unfolding should_flush apply_flush
  observed norm dot_over category embedding similarity now s =
      let s' : SynapseState F =
        if should_flush norm dot_over s embedding then apply_flush now s else s in
      record s' {
        last_observed_category = some category;
        last_observed_similarity = some similarity;
        last_observed_embedding = some embedding;
      }

  -- `SynapseObserver.observe`
  unfoldable pub observe :
      (List F → F)
      → (List F → List F → F → F)
      → String
      → String
      → List F
      → F
      → F
      → SynapseStore F
      → SynapseStore F
  unfolding get_state observed update_state
  observe norm dot_over session category embedding similarity now m =
      let (s, m') = get_state session m in
      update_state session (observed norm dot_over category embedding similarity now s) m'
