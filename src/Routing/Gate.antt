-- ===== src/Routing/Gate.antt =====
-- app/rpe/difficulty_gate.py: the learned weight of the current cell is laid over the request's
-- snapshot of the category weights.
use cortex_cognitive_runtime.Prelude.{
  Bool, Option, none, some, if◌then◌else◌, String, String_discrete,
}
use cortex_cognitive_runtime.OrderedDict.{set}
use cortex_cognitive_runtime.Rpe.WeightStore.{WeightStore}
use cortex_cognitive_runtime.Routing.Task.{TaskContext, cell_of}

module _ {F : Type 0} where
  unfoldable pub overlay_by : TaskContext F → String → Option F → TaskContext F
  overlay_by t category none = t
  overlay_by t category (some learned) = record t {
    synapse_snapshot = set String_discrete category learned t.synapse_snapshot;
  }

  -- `overlay`; `enabled` is the constructor's argument.
  unfoldable pub overlay :
      {S : Type 0} ⦃w : WeightStore S F⦄
      → Bool
      → TaskContext F
      → Option String
      → S
      → TaskContext F × S
  unfolding cell_of overlay_by
  overlay ⦃w⦄ enabled t session s =
      if enabled
      then elim (cell_of t session) [
        | none ↦ (t, s)
        | some c ↦ (overlay_by t c.category (w.read_weight c s).0, (w.read_weight c s).1)
      ]
      else (t, s)
