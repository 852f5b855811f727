-- ===== src/Rpe/DryRun/Tests.antt =====
-- A well-grounded success and a failure as the heuristic source sees them, a dry run of the success,
-- and the instances of the theorems.
use cortex_cognitive_runtime.Prelude.{
  ◌≡◌, refl, true, false, none, some, List, [], ◌∷◌, All, String_discrete, length, Option,
}
use cortex_cognitive_runtime.Int.{ℤ, pos}
use cortex_cognitive_runtime.Float.{clamp, ratio, ◌<=?◌}
use cortex_cognitive_runtime.Float.Fixed.{thousandths}
use cortex_cognitive_runtime.Rpe.Proposal.{
  RpeContext, RpeReward, delta_of, out_of_range, prediction_error, proposed_from,
}
use cortex_cognitive_runtime.Rpe.Reward.{
  HeuristicSource, RewardOutcome, answered, corroboration, evidence, heuristic_reward, is_negative,
  observe_rewards, reward_ok,
}
use cortex_cognitive_runtime.Rpe.Reward.Bounds.{heuristic_reward_lem}
use cortex_cognitive_runtime.Rpe.Ttl.{compute_ttl_proposal, ttl_delta}
use cortex_cognitive_runtime.Rpe.DryRun.{
  DryRun, compute_category_proposal, dry_run, proposals_of, ttl_proposals, weight_proposals,
}
use cortex_cognitive_runtime.Rpe.DryRun.Proposals.{IsDryRun, IsWithin, dry_run_lem}

-- All that a run computes with.
dry_run_program : Unit {0}
unfolding String_discrete clamp delta_of out_of_range prediction_error proposed_from answered
    corroboration evidence heuristic_reward is_negative observe_rewards reward_ok
    compute_ttl_proposal ttl_delta compute_category_proposal dry_run proposals_of ttl_proposals
    weight_proposals
dry_run_program = tt

abbrev observer : HeuristicSource ℤ
observer = record { latency_threshold_ms = pos 100000; baseline_expected = pos 500 }

abbrev grounded : RewardOutcome ℤ
grounded = record {
  response_source = "swarm";
  latency_ms = pos 900000;
  error_occurred = false;
  timeout_occurred = false;
  continuation_bypass = false;
  pfc_hint_applied = false;
  planner_ok = true;
  generator_ok = true;
  context_ok = true;
  clean_finish = true;
  context_mean_similarity = pos 600;
  expected_behavior_matched = false;
  expected_continuation = false;
}

abbrev failed : RewardOutcome ℤ
failed = record grounded {
  response_source = "fallback";
  error_occurred = true;
  timeout_occurred = true;
  planner_ok = false;
  generator_ok = false;
  context_ok = false;
  clean_finish = false;
  context_mean_similarity = pos 0;
}

grounded_reward : (heuristic_reward observer grounded).actual_reward ≡ pos 860
unfolding dry_run_program
grounded_reward = refl

failed_reward : (heuristic_reward observer failed).actual_reward ≡ pos 0
unfolding dry_run_program
failed_reward = refl

heuristic_reward_lem_example :
    (reward_ok (heuristic_reward observer grounded) ≡ true)
    × ((heuristic_reward observer grounded).confidence <=? ratio 6 10 ≡ true)
heuristic_reward_lem_example = heuristic_reward_lem observer grounded refl

abbrev both_targets : DryRun ℤ
both_targets = record {
  weights = record {
    enabled = true;
    max_delta = pos 100;
    allowed_categories = "coding" ∷ [];
    synapse_weight_min = pos 100;
    synapse_weight_max = pos 1000;
  };
  ttls = record {
    enabled = true;
    allowed_categories = "coding" ∷ [];
    ifom_ttl_max_delta = pos 300000;
    ifom_ttl_min_seconds = pos 60000;
    ifom_ttl_max_seconds = pos 86400000;
  };
  current_weight = λ c. some (pos 990);
  current_ttl = λ k. some (pos 86300000);
  weight_id = λ d. "w";
  ttl_id = λ d t. "t";
}

abbrev coding_context : RpeContext
coding_context = record {
  trace_id = "t";
  session_id = some "s";
  category = some "coding";
  difficulty = 3;
}

-- One source answers, the other raises.
abbrev answers : List (Option (RpeReward ℤ))
answers = answered (heuristic_reward observer grounded) ∷ none ∷ []

five_proposals : length (dry_run both_targets coding_context answers) ≡ 5
unfolding dry_run_program
five_proposals = refl

both_targets-IsDryRun : IsDryRun both_targets
both_targets-IsDryRun = record {
  weights_valid = record { positive = refl; ordered = refl };
  ttl_limit = refl;
  ttl_ordered = refl;
}

dry_run_lem_example :
    All (IsWithin both_targets coding_context) (dry_run both_targets coding_context answers)
dry_run_lem_example = dry_run_lem both_targets coding_context answers both_targets-IsDryRun
