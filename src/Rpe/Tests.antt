-- ===== src/Rpe/Tests.antt =====
-- One step of learning on a small service, and the instances of the theorems about learned weights.
use cortex_cognitive_runtime.Prelude.{
  ◌≤◌, ◌≡◌, refl, true, false, none, some, List, [], ◌∷◌, arith, All, String_discrete, ℕ_discrete,
  dec_of_iff, inl,
}
use cortex_cognitive_runtime.Int.{ℤ, pos}
use cortex_cognitive_runtime.Float.{neg, clamp, ◌<=?◌}
use cortex_cognitive_runtime.Float.Fixed.{thousandths}
use cortex_cognitive_runtime.OrderedDict.{get, set, delete, move_to_end, pop_oldest}
use cortex_cognitive_runtime.OrderedDict.Bounded.{put, evict}
use cortex_cognitive_runtime.Rpe.Cell.{CellKey, Cell_discrete, CellKey_discrete}
use cortex_cognitive_runtime.Rpe.DifficultyStore.{
  InMemoryStore, in_memory, read_weight, write_weight, IsBounded,
}
use cortex_cognitive_runtime.Rpe.Proposal.{
  user_feedback, synapse_weight, RpeContext, RpeDecision, DryRunConfig, RpeProposal,
  prediction_error, is_allowed, out_of_range, delta_of, proposed_from, compute_proposal,
}
use cortex_cognitive_runtime.Rpe.Proposal.Bounds.{IsConfig, ProposedWithin, compute_proposal_lem}
use cortex_cognitive_runtime.Rpe.Mutator
use cortex_cognitive_runtime.Rpe.Mutator.{
  Mutator, MutationRecord, rolled_back, applied_record, reverse_record, addressed, is_sound,
  read_current_weight, apply_mutation,
}
use cortex_cognitive_runtime.Rpe.Selection.{
  TraceKey_discrete, trace_key, into_group, group_from, threshold_block_reason, goes_before,
  select_winner,
}
use cortex_cognitive_runtime.Rpe.Selection.Winner.{select_winner_lem}
use cortex_cognitive_runtime.Rpe.Service.{
  Service, mismatches, apply_with_lock, roll_up, schedule, register, apply_group, apply_groups,
  apply_proposals,
}
use cortex_cognitive_runtime.Rpe.Service.SingleApply.{SinglyApplied}
use cortex_cognitive_runtime.Rpe.Service.Again.{AppliedIn, apply_proposals_once}
use cortex_cognitive_runtime.Rpe.Service.Lifecycle.{take_back, rollback}
use cortex_cognitive_runtime.Rpe.Service.Lifecycle.Settled.{rollback_settled}

learning_program : Unit {0}
unfolding String_discrete ℕ_discrete dec_of_iff get set delete move_to_end pop_oldest put evict
    Cell_discrete CellKey_discrete TraceKey_discrete read_weight write_weight clamp prediction_error
    out_of_range delta_of proposed_from compute_proposal is_sound read_current_weight apply_mutation
    Mutator.rollback into_group group_from threshold_block_reason goes_before select_winner
    mismatches apply_with_lock roll_up schedule register apply_group apply_groups apply_proposals
    take_back rollback
learning_program = tt

abbrev learned_key : CellKey
learned_key = record { category = "coding"; difficulty = 4 }

abbrev observed_context : RpeContext
observed_context = record {
  trace_id = "t";
  session_id = some "s";
  category = some "coding";
  difficulty = 4;
}

abbrev decision_made : RpeDecision ℤ
decision_made = record {
  reward = record {
    source = user_feedback;
    expected_reward = pos 200;
    actual_reward = pos 900;
    confidence = pos 800;
  };
  context = observed_context;
}

abbrev dry_settings : DryRunConfig ℤ
dry_settings = record {
  enabled = true;
  max_delta = pos 100;
  allowed_categories = "coding" ∷ "writing" ∷ [];
  synapse_weight_min = pos 100;
  synapse_weight_max = pos 1000;
}

abbrev proposal : RpeProposal CellKey ℤ
proposal = record {
  decision = decision_made;
  target = synapse_weight;
  target_key = learned_key;
  current_value = none;
  proposed_delta = pos 56;
  proposed_value = none;
  max_delta = pos 100;
  rollback_id = "r1";
  confidence = pos 800;
}

-- 0.7 * 0.8 * 0.1
proposal_computed : compute_proposal dry_settings "r1" decision_made none ≡ some proposal
unfolding learning_program
proposal_computed = refl

dry_settings-IsConfig : IsConfig dry_settings
dry_settings-IsConfig = record { positive = refl; ordered = refl }

compute_proposal_lem_example :
    (neg dry_settings.max_delta <=? proposal.proposed_delta ≡ true)
    × (proposal.proposed_delta <=? dry_settings.max_delta ≡ true)
    × ProposedWithin dry_settings proposal.proposed_value
    × (decision_made.context.category ≡ some proposal.target_key.category)
    × (is_allowed proposal.target_key.category dry_settings.allowed_categories ≡ true)
    × (decision_made.context.difficulty ≡ proposal.target_key.difficulty)
    × (1 ≤ proposal.target_key.difficulty)
compute_proposal_lem_example =
    compute_proposal_lem dry_settings "r1" decision_made none proposal dry_settings-IsConfig
      proposal_computed

abbrev mutator : Mutator ℤ
mutator = record { weight_min = pos 100; weight_max = pos 1000; seed_weight = pos 300 }

abbrev blank : InMemoryStore ℤ
blank = record { weights = []; max_cells = 4 }

blank-IsBounded : IsBounded blank
blank-IsBounded = record { room = omega arith; bounded = omega arith; distinct = tt }

-- The cell was learned before.
abbrev learned : InMemoryStore ℤ
learned = record { weights = (addressed "s" learned_key, pos 300) ∷ []; max_cells = 4 }

abbrev first_record : MutationRecord CellKey ℤ
first_record = applied_record mutator proposal (pos 300) false (pos 5)

abbrev after_first : InMemoryStore ℤ
after_first = (apply_mutation mutator proposal (pos 300) false (pos 5) learned).1

abbrev service : Service (InMemoryStore ℤ) ℤ
service = record {
  config = record {
    active_enabled = true;
    difficulty_learning_enabled = true;
    min_confidence = pos 500;
    min_abs_prediction_error = pos 300;
  };
  mutator = mutator;
  store = blank;
  applied_in_trace = [];
  records = [];
  pending = some [];
}

abbrev no_preset : CellKey → ℤ → InMemoryStore ℤ → InMemoryStore ℤ
no_preset k v st = st

-- A second proposal for the same trace and cell, with less confidence.
abbrev rival : RpeProposal CellKey ℤ
rival = record proposal { rollback_id = "r2"; confidence = pos 600 }

abbrev outcome : List (MutationRecord CellKey ℤ) × Service (InMemoryStore ℤ) ℤ
outcome = apply_proposals no_preset (λ k. true) none (pos 5) (rival ∷ proposal ∷ []) service

one_applied : outcome.0 ≡ first_record ∷ []
unfolding learning_program
one_applied = refl

-- Both come again.
again_AppliedIn : All (λ p. AppliedIn (trace_key p) outcome.0) (rival ∷ proposal ∷ [])
unfolding learning_program
again_AppliedIn = (inl refl, (inl refl, tt))

-- Another state of the service, with the same registry.
abbrev later_service : Service (InMemoryStore ℤ) ℤ
later_service = record outcome.1 { store = learned }

apply_proposals_once_example :
    SinglyApplied no_preset (λ k. true) none (pos 5) service outcome
    × (apply_proposals no_preset (λ k. true) none (pos 50) (rival ∷ proposal ∷ []) later_service
        ≡ ([], later_service))
apply_proposals_once_example =
    apply_proposals_once no_preset (λ k. true) (λ k. true) none none (pos 5) (pos 50)
      (rival ∷ proposal ∷ []) (rival ∷ proposal ∷ []) service later_service again_AppliedIn
      (λ k id e. e)

select_winner_lem_example :
    All
      (λ p. p.confidence <=? (select_winner rival (proposal ∷ [])).confidence ≡ true)
      (rival ∷ proposal ∷ [])
select_winner_lem_example = select_winner_lem rival (proposal ∷ [])

abbrev undone : Service (InMemoryStore ℤ) ℤ
undone = (rollback "r1" (pos 9) outcome.1).1

undone_once : rollback "r1" (pos 9) outcome.1 ≡ (some (reverse_record first_record (pos 9)), undone)
unfolding learning_program
undone_once = refl

-- The weight was learned anew since.
abbrev learned_anew : Service (InMemoryStore ℤ) ℤ
learned_anew = record undone { store = record learned { max_cells = 9 } }

rollback_settled_example :
    rollback "r1" (pos 20) learned_anew ≡ (some (reverse_record first_record (pos 9)), learned_anew)
rollback_settled_example =
    rollback_settled "r1" (pos 9) (pos 20) outcome.1 undone learned_anew
      (reverse_record first_record (pos 9)) undone_once refl refl
