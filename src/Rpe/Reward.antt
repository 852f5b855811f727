-- ===== src/Rpe/Reward.antt =====
-- app/rpe/sources.py and observe of app/rpe/dopamine.py: the reward that an outcome earns, and the
-- decisions made of the rewards. Where the source divides by 0.5, it is multiplied by 2 here, which
-- is the same float.
pub mod Bounds
use text.Mathlib.Text.{◌==◌ as str_beq}
use cortex_cognitive_runtime.Prelude.{
  Bool, true, false, not, ◌&&◌, ◌||◌, Option, none, some, List, [], ◌∷◌, if◌then◌else◌, String,
  String_discrete,
}
use cortex_cognitive_runtime.OrderedDict.{OrderedDict, get}
use cortex_cognitive_runtime.Float.{Float64, ratio, add, sub, mul, max_f, min_f, ◌<=?◌, ◌<?◌}
use cortex_cognitive_runtime.Rpe.Proposal.{
  RpeContext, RpeDecision, RpeReward, heuristic, mock, in_range,
}

-- The fields of RPEContext that the sources read; the last two are the labels among the extras that
-- are `True`.
pub record RewardOutcome (F : Type 0) : Type 0 where
  pub response_source : String
  pub latency_ms : F
  pub error_occurred : Bool
  pub timeout_occurred : Bool
  pub continuation_bypass : Bool
  pub pfc_hint_applied : Bool
  pub planner_ok : Bool
  pub generator_ok : Bool
  pub context_ok : Bool
  pub clean_finish : Bool
  pub context_mean_similarity : F
  pub expected_behavior_matched : Bool
  pub expected_continuation : Bool

-- HeuristicOutcomeSource
pub record HeuristicSource (F : Type 0) : Type 0 where
  pub latency_threshold_ms : F
  pub baseline_expected : F

-- `response_source in _NEGATIVE_RESPONSE_SOURCES`
unfoldable pub is_negative : String → Bool
is_negative s = str_beq s "fallback"

module _ {F : Type 0} ⦃fl : Float64 F⦄ where
  -- `RPEReward.__post_init__`
  unfoldable pub reward_ok : RpeReward F → Bool
  reward_ok r =
      in_range (ratio 0 1) (ratio 1 1) r.expected_reward
      && in_range (ratio 0 1) (ratio 1 1) r.actual_reward
      && in_range (ratio 0 1) (ratio 1 1) r.confidence

  -- `if b: x += d` and `if b: x -= d`
  abbrev pub raise_if : Bool → F → F → F
  raise_if b d x = if b then add x d else x

  abbrev pub lower_if : Bool → F → F → F
  lower_if b d x = if b then sub x d else x

  abbrev pub is_quick : HeuristicSource F → RewardOutcome F → Bool
  is_quick h o =
      ratio 0 1 <? o.latency_ms
      && o.latency_ms <? h.latency_threshold_ms
      && not o.error_occurred
      && not o.timeout_occurred

  abbrev pub continued : RewardOutcome F → Bool
  continued o = o.expected_continuation && o.continuation_bypass && o.pfc_hint_applied

  -- `actual`, before it is clamped
  unfoldable pub evidence : HeuristicSource F → RewardOutcome F → F
  unfolding is_negative
  evidence h o =
      let a = lower_if o.error_occurred (ratio 25 100) (ratio 1 2) in
      let b = lower_if o.timeout_occurred (ratio 25 100) a in
      let c = lower_if (is_negative o.response_source) (ratio 20 100) b in
      let d = raise_if (is_quick h o) (ratio 5 100) c in
      let e = raise_if o.expected_behavior_matched (ratio 10 100) d in
      let f = raise_if (continued o) (ratio 5 100) e in
      let g = raise_if o.planner_ok (ratio 4 100) f in
      let i = raise_if o.generator_ok (ratio 4 100) g in
      let j = raise_if o.context_ok (ratio 4 100) i in
      let k = raise_if o.clean_finish (ratio 8 100) j in
      let relevance =
        max_f (ratio 0 1) (min_f (ratio 1 1) (mul o.context_mean_similarity (ratio 2 1))) in
      add k (mul (ratio 16 100) relevance)

  unfoldable pub corroboration : RewardOutcome F → F
  unfolding is_negative
  corroboration o =
      let a =
        raise_if (o.planner_ok && o.generator_ok && o.context_ok) (ratio 15 100) (ratio 3 10) in
      let b = raise_if o.clean_finish (ratio 10 100) a in
      let c = raise_if (ratio 3 10 <=? o.context_mean_similarity) (ratio 5 100) b in
      let d = raise_if o.error_occurred (ratio 15 100) c in
      let e = raise_if o.timeout_occurred (ratio 15 100) d in
      let f = raise_if (is_negative o.response_source) (ratio 10 100) e in
      raise_if (o.expected_behavior_matched || continued o) (ratio 20 100) f

  -- `HeuristicOutcomeSource.compute_reward`
  unfoldable pub heuristic_reward : HeuristicSource F → RewardOutcome F → RpeReward F
  unfolding evidence corroboration
  heuristic_reward h o =
      let actual = evidence h o in
      record {
        source = heuristic;
        expected_reward = h.baseline_expected;
        actual_reward =
            if actual <? ratio 0 1
            then ratio 0 1
            else if ratio 1 1 <? actual
            then ratio 1 1
            else actual;
        confidence = min_f (ratio 6 10) (corroboration o);
      }

  -- `MockRewardSource.compute_reward`
  unfoldable pub mock_reward : OrderedDict String (F × F) → F × F → String → RpeReward F
  mock_reward rewards default trace_id =
      let pair : F × F = elim (get String_discrete trace_id rewards) [
        | none ↦ default
        | some p ↦ p
      ] in
      record {
        source = mock;
        expected_reward = pair.0;
        actual_reward = pair.1;
        confidence = ratio 1 1;
      }

  -- A source's answer, where its constructor accepts it; anything raised is no answer.
  unfoldable pub answered : RpeReward F → Option (RpeReward F)
  unfolding reward_ok
  answered r = if reward_ok r then some r else none

  -- `observe`, of what each source answered
  unfoldable pub observe_rewards : RpeContext → List (Option (RpeReward F)) → List (RpeDecision F)
  observe_rewards context [] = []
  observe_rewards context (none ∷ rs) = observe_rewards context rs
  observe_rewards context (some r ∷ rs) =
      record { reward = r; context = context } ∷ observe_rewards context rs
