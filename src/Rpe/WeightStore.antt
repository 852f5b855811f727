-- ===== src/Rpe/WeightStore.antt =====
-- SynapseDifficultyWeightStoreProtocol of app/rpe/difficulty_store.py: what the gate, the override
-- and the decay may ask of the store of learned weights, and the laws that they rely on. `peek` is
-- what a read would return; it stands in the laws alone.
use cortex_cognitive_runtime.Prelude.{◌≡◌, Option, some}
use cortex_cognitive_runtime.Rpe.Cell.{Cell}

pub record WeightStore (S F : Type 0) : Type 1 where
  pub read_weight : Cell → S → Option F × S
  pub write_weight : Cell → F → S → S
  pub peek : Cell → S → Option F
  pub IsValid : S → Type 0
  -- A read returns what is stored, and no later read sees a difference.
  pub read-value : (c : Cell) (s : S) → (read_weight c s).0 ≡ peek c s
  pub read-keeps : (c j : Cell) (s : S) → IsValid s → peek j (read_weight c s).1 ≡ peek j s
  pub read-IsValid : (c : Cell) (s : S) → IsValid s → IsValid (read_weight c s).1
  -- A write is seen by the next read of the cell.
  pub write-value : (c : Cell) (v : F) (s : S) → IsValid s → peek c (write_weight c v s) ≡ some v
  pub write-IsValid : (c : Cell) (v : F) (s : S) → IsValid s → IsValid (write_weight c v s)
