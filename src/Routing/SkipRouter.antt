-- ===== src/Routing/SkipRouter.antt =====
-- app/routing/skip_router.py: difficulty selects the physical path.
use cortex_cognitive_runtime.Prelude.{List, [], ◌∷◌, String}
use cortex_cognitive_runtime.Routing.Task.{
  Difficulty, RoutePath, lightweight, standard, full_pipeline, RouteDecision, TaskContext, level,
  difficulty_path,
}

-- The first two entries of the rows of `_DECISIONS`; the third, the reason, names the difficulty.
unfoldable pub native_path : Difficulty → RoutePath
native_path Difficulty.easy = lightweight
native_path Difficulty.medium = standard
native_path Difficulty.hard = standard
native_path Difficulty.very_hard = full_pipeline
native_path Difficulty.deep_thinking = full_pipeline

unfoldable pub native_skips : Difficulty → List String
native_skips Difficulty.easy = "full_planner" ∷ "basal_ganglia_cr" ∷ []
native_skips _ = []

unfoldable pub route : {F : Type 0} → TaskContext F → RouteDecision F
unfolding native_path native_skips level
route t = record {
  path = native_path t.difficulty;
  skip_layers = native_skips t.difficulty;
  reason = difficulty_path (level t.difficulty) ∷ [];
}
