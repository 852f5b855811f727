-- ===== src/Rpe/Mutator/Undo.antt =====
-- A mutation keeps the weight within its bounds, and a rollback takes it back.
use cortex_cognitive_runtime.Rpe.WeightStore.{WeightStore}
use cortex_cognitive_runtime.Rpe.Mutator.{Mutator}
