-- ===== src/Synapse/AdapterTests.antt =====
-- The weight of a category raised in a fresh session and taken back.
use cortex_cognitive_runtime.Prelude.{
  ◌≡◌, refl, false, some, [], String, String_discrete, dec_of_iff,
}
use cortex_cognitive_runtime.Int.{ℤ, pos}
use cortex_cognitive_runtime.OrderedDict.{get, set, move_to_end, pop_oldest}
use cortex_cognitive_runtime.OrderedDict.Bounded.{evict, found_or, put, touch_or_create}
use cortex_cognitive_runtime.Float.{clamp}
use cortex_cognitive_runtime.Float.Fixed.{thousandths}
use cortex_cognitive_runtime.Synapse.{
  SynapseStore, get_state, initial_state, initial_weights, update_state,
}
use cortex_cognitive_runtime.Synapse.Adapter.{
  adapter_read, adapter_write, apply_category_mutation, rollback_category,
}
use cortex_cognitive_runtime.Rpe.Proposal.{RpeProposal, SignalSource, synapse_weight}
use cortex_cognitive_runtime.Rpe.Mutator.{MutationRecord, Mutator, applied_record, is_sound}

-- All that a run computes with.
adapter_program : Unit {0}
unfolding String_discrete dec_of_iff get set move_to_end pop_oldest evict found_or put
    touch_or_create clamp get_state initial_state initial_weights update_state adapter_read
    adapter_write apply_category_mutation rollback_category is_sound
adapter_program = tt

abbrev fresh_store : SynapseStore ℤ
fresh_store = record { states = []; max_sessions = 2 }

abbrev weight_mutator : Mutator ℤ
weight_mutator = record { weight_min = pos 100; weight_max = pos 1000; seed_weight = pos 500 }

abbrev raised : RpeProposal String ℤ
raised = record {
  decision = record {
    reward = record {
      source = SignalSource.heuristic;
      expected_reward = pos 500;
      actual_reward = pos 900;
      confidence = pos 500;
    };
    context = record {
      trace_id = "t";
      session_id = some "s";
      category = some "coding";
      difficulty = 3;
    };
  };
  target = synapse_weight;
  target_key = "coding";
  current_value = some (pos 300);
  proposed_delta = pos 20;
  proposed_value = some (pos 320);
  max_delta = pos 100;
  rollback_id = "r";
  confidence = pos 500;
}

abbrev raised_record : MutationRecord String ℤ
raised_record = applied_record weight_mutator raised (pos 300) false (pos 5)

abbrev raised_store : SynapseStore ℤ
raised_store = (apply_category_mutation weight_mutator raised (pos 300) false (pos 5) fresh_store).1

abbrev undone_store : SynapseStore ℤ
undone_store = (rollback_category raised_record (pos 9) raised_store).1

raised_value : (adapter_read "s" "coding" raised_store).0 ≡ some (pos 320)
unfolding adapter_program
raised_value = refl
