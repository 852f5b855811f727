-- ===== src/Routing/LocusCoeruleus.antt =====
-- app/routing/lc.py: the context of a request, from the evaluator's result.
use cortex_cognitive_runtime.Prelude.{
  ℕ, zero, suc, Bool, false, Option, none, some, [], leb, String,
}
use cortex_cognitive_runtime.Routing.Task.{Difficulty, ModelTier, TaskContext, level}

-- `Difficulty(n)`, which raises ValueError outside 1 to 5
unfoldable pub difficulty_of : ℕ → Option Difficulty
difficulty_of zero = none
difficulty_of (suc zero) = some Difficulty.easy
difficulty_of (suc (suc zero)) = some Difficulty.medium
difficulty_of (suc (suc (suc zero))) = some Difficulty.hard
difficulty_of (suc (suc (suc (suc zero)))) = some Difficulty.very_hard
difficulty_of (suc (suc (suc (suc (suc zero))))) = some Difficulty.deep_thinking
difficulty_of (suc (suc (suc (suc (suc (suc n)))))) = none

-- `ModelTier(int(difficulty))`
unfoldable pub tier_of : Difficulty → ModelTier
tier_of Difficulty.easy = ModelTier.lightweight
tier_of Difficulty.medium = ModelTier.medium
tier_of Difficulty.hard = ModelTier.standard
tier_of Difficulty.very_hard = ModelTier.heavy
tier_of Difficulty.deep_thinking = ModelTier.deep_thinking

-- `process`: `epinephrine` is the answer of the injected organ, (activated, reason), if there is
-- one. Its tier suggestion is only logged.
unfoldable pub process :
    {F : Type 0} → String → String → String → ℕ → Option (Bool × String) → Option (TaskContext F)
unfolding difficulty_of tier_of level
process trace_id prompt category difficulty epinephrine = elim (difficulty_of difficulty) [
  | none ↦ none
  | some d ↦ some (record {
    trace_id = trace_id;
    prompt = prompt;
    category = some category;
    difficulty = d;
    ne_boost = leb 4 (level d);
    synapse_snapshot = [];
    epinephrine_active = elim epinephrine [ none ↦ false | some e ↦ e.0 ];
    epinephrine_reason = elim epinephrine [ none ↦ none | some e ↦ some e.1 ];
    selected_tier = tier_of d;
    route_path = none;
  })
]
