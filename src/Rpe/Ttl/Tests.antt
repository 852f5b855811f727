-- ===== src/Rpe/Ttl/Tests.antt =====
-- A TTL learned and taken back, in thousandths, and the instances of the theorems on it.
use cortex_cognitive_runtime.Prelude.{
  ◌≡◌, refl, true, false, Option, none, some, [], ◌∷◌, String, String_discrete, ℕ_discrete,
  dec_of_iff,
}
use cortex_cognitive_runtime.Int.{ℤ, pos}
use cortex_cognitive_runtime.OrderedDict.{OrderedDict, get, set, delete}
use cortex_cognitive_runtime.Float.{clamp}
use cortex_cognitive_runtime.Float.Fixed.{thousandths}
use cortex_cognitive_runtime.Memory.Goal.{Goal, active, user_explicit}
use cortex_cognitive_runtime.Memory.Ifom.{
  IfomConfig, Resolved, TtlType, adjust_ttl, found, goal_to_ttl_type, none_set, of_status,
}
use cortex_cognitive_runtime.Rpe.Proposal.{
  RpeDecision, RpeProposal, SignalSource, prediction_error, ifom_ttl,
}
use cortex_cognitive_runtime.Rpe.Mutator.{MutationRecord, is_sound}
use cortex_cognitive_runtime.Rpe.Ttl.{
  TtlConfig, TtlMutator, TtlStore, apply_ttl, apply_ttl_with_lock, compute_ttl_proposal,
  delete_override, is_valid_type, override_ok, read_current_ttl, read_override, restored_override,
  rollback_ttl, ttl_before, ttl_delta, ttl_mismatches, ttl_record, write_override,
}
use cortex_cognitive_runtime.Rpe.Ttl.Keys.{
  TtlKey, TtlScope_discrete, category_discrete, TtlKey_discrete, TtlType_discrete,
}
use cortex_cognitive_runtime.Rpe.Ttl.Learning.{IsTtlMutator, Resolves, rollback_ttl_lem}

-- All that a run computes with.
ttl_program : Unit {0}
unfolding String_discrete ℕ_discrete dec_of_iff get set delete clamp goal_to_ttl_type
    prediction_error is_sound apply_ttl apply_ttl_with_lock compute_ttl_proposal delete_override
    is_valid_type override_ok read_current_ttl read_override rollback_ttl ttl_before ttl_delta
    ttl_mismatches write_override TtlScope_discrete TtlKey_discrete TtlType_discrete
    category_discrete
ttl_program = tt

abbrev failed_decision : RpeDecision ℤ
failed_decision = record {
  reward = record {
    source = SignalSource.heuristic;
    expected_reward = pos 800;
    actual_reward = pos 200;
    confidence = pos 500;
  };
  context = record {
    trace_id = "t";
    session_id = some "s";
    category = some "coding";
    difficulty = 3;
  };
}

abbrev learning : TtlConfig ℤ
learning = record {
  enabled = true;
  allowed_categories = "coding" ∷ [];
  ifom_ttl_max_delta = pos 300000;
  ifom_ttl_min_seconds = pos 60000;
  ifom_ttl_max_seconds = pos 86400000;
}

abbrev bounds : TtlMutator ℤ
bounds = record { ttl_min = pos 60000; ttl_max = pos 86400000 }

bounds-IsTtlMutator : IsTtlMutator bounds
bounds-IsTtlMutator = record { positive = refl; ordered = refl }

abbrev shorter : RpeProposal TtlKey ℤ
shorter = record {
  decision = failed_decision;
  target = ifom_ttl;
  target_key = record { ttl_type = of_status active; category = some "coding" };
  current_value = none;
  proposed_delta = ttl_delta learning failed_decision;
  proposed_value = none;
  max_delta = pos 300000;
  rollback_id = "r";
  confidence = pos 500;
}

shorter_computed :
    compute_ttl_proposal learning "r" failed_decision (of_status active) none ≡ some shorter
unfolding ttl_program
shorter_computed = refl

-- The caller names the hour that the configuration gives; no override is stored yet.
abbrev hour : OrderedDict TtlKey ℤ
hour = (shorter.target_key, pos 3600000) ∷ []

abbrev applied : Option (MutationRecord TtlKey ℤ) × TtlStore ℤ
applied = apply_ttl_with_lock (λ _. true) (some hour) (some bounds) shorter (pos 5000) []

abbrev record_of : MutationRecord TtlKey ℤ
record_of = ttl_record bounds shorter (pos 3600000) false (pos 5000)

applied_run : applied.0 ≡ some record_of
unfolding ttl_program
applied_run = refl

applied_value : record_of.new_value ≡ pos 3510000
unfolding ttl_program
applied_value = refl

abbrev resolve_of : TtlStore ℤ → Option String → Option String → TtlType → Resolved ℤ
resolve_of st none category ttl_type = none_set
resolve_of st (some session) category ttl_type =
    elim (read_override
      (record { session = session; key = record { ttl_type = ttl_type; category = category } })
      st) [ none ↦ none_set | some o ↦ found o.override_seconds ]

resolve_of-Resolves : (st : TtlStore ℤ) → Resolves (resolve_of st) st
resolve_of-Resolves st session k o e = rw (e, resolve_of) refl

abbrev ttls : IfomConfig ℤ
ttls = record {
  active_ttl = pos 3600000;
  paused_ttl = pos 7200000;
  completed_ttl = pos 1800000;
  low_priority_ttl = pos 900000;
  low_priority_threshold = pos 200;
}

abbrev coding_goal : Goal ℤ
coding_goal = record {
  goal_id = "g";
  title = "title";
  category = some "coding";
  priority = pos 800;
  status = active;
  source = user_explicit;
  created_at = pos 0;
  updated_at = pos 0;
  last_used_at = pos 0;
  source_trace_id = none;
  session_id = some "s";
  summary = none;
}

abbrev undone : TtlStore ℤ
undone = (rollback_ttl record_of (pos 9000) applied.1).1

coding_goal-type_undone :
    goal_to_ttl_type (record { config = ttls; resolver = some (resolve_of undone) }) coding_goal
    ≡ of_status active
unfolding ttl_program
coding_goal-type_undone = refl

rollback_ttl_lem_example :
    (read_override (record { session = "s"; key = shorter.target_key }) undone
      ≡ some (restored_override record_of "s" (pos 9000)))
    × (adjust_ttl
          (record { config = ttls; resolver = some (resolve_of undone) })
          coding_goal
          (some (pos 3600000))
        ≡ some record_of.previous_value)
rollback_ttl_lem_example =
    rollback_ttl_lem (λ _. true) (some hour) bounds shorter (pos 5000) (pos 9000) [] applied.1 "s"
      record_of ttls (resolve_of undone) coding_goal (some (pos 3600000)) bounds-IsTtlMutator refl
      applied_run (resolve_of-Resolves undone) refl refl coding_goal-type_undone
