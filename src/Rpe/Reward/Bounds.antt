-- ===== src/Rpe/Reward/Bounds.antt =====
-- How much an observed outcome may count.
use cortex_cognitive_runtime.Prelude.{ℕ, ◌≡◌, Bool, true, false, ◌&&◌, ◌||◌, arith}
use cortex_cognitive_runtime.Float.{Float64, ratio, ◌<=?◌}
use cortex_cognitive_runtime.Rpe.Proposal.{in_range}
use cortex_cognitive_runtime.Rpe.Reward.{
  HeuristicSource, RewardOutcome, corroboration, continued, heuristic_reward, is_negative, raise_if,
  reward_ok,
}

module _ {F : Type 0} ⦃fl : Float64 F⦄ where
  raise_if_nonneg :
      (b : Bool) (d x : F)
      → ratio 0 1 <=? d ≡ true
      → ratio 0 1 <=? x ≡ true
      → ratio 0 1 <=? raise_if b d x ≡ true
  raise_if_nonneg true d x p q = fl.add_nonneg x d q p
  raise_if_nonneg false d x p q = q

  corroboration_nonneg : (o : RewardOutcome F) → ratio 0 1 <=? corroboration o ≡ true
  unfolding corroboration
  corroboration_nonneg o = step (o.expected_behavior_matched || continued o) 20 (
      step (is_negative o.response_source) 10 (
        step o.timeout_occurred 15 (
          step o.error_occurred 15 (
            step (ratio 3 10 <=? o.context_mean_similarity) 5 (
              step o.clean_finish 10
                (step (o.planner_ok && o.generator_ok && o.context_ok) 15 base))))))
    where
      base : fl.leb (fl.ratio 0 1) (fl.ratio 3 10) ≡ true
      base = fl.ratio_mono 0 1 3 10 (omega arith) (omega arith) (omega arith)

      step :
          {x : F} (b : Bool) (n : ℕ)
          → fl.leb (fl.ratio 0 1) x ≡ true
          → fl.leb (fl.ratio 0 1) (raise_if b (fl.ratio n 100) x) ≡ true
      step b n h =
          raise_if_nonneg b (ratio n 100) _
            (fl.ratio_mono 0 1 n 100 (omega arith) (omega arith) (omega arith)) h

  -- Whatever the outcome, the heuristic source answers with a reward that the constructor accepts,
  -- so it never raises, and with a confidence of at most 0.6. Its baseline has to be between 0 and 1,
  -- as its own constructor demands.
  pub heuristic_reward_lem :
      (h : HeuristicSource F) (o : RewardOutcome F)
      → in_range (ratio 0 1) (ratio 1 1) h.baseline_expected ≡ true
      → (reward_ok (heuristic_reward h o) ≡ true)
        × ((heuristic_reward h o).confidence <=? ratio 6 10 ≡ true)
  unfolding reward_ok heuristic_reward
  heuristic_reward_lem h o base = (
    ground (
      arith,
      base,
      corroboration_nonneg o,
      fl.leb_refl (ratio 0 1),
      fl.leb_refl (ratio 1 1),
      fl.ratio_mono 0 1 1 1 (omega arith) (omega arith) (omega arith),
      fl.ratio_mono 0 1 6 10 (omega arith) (omega arith) (omega arith),
      fl.ratio_mono 6 10 1 1 (omega arith) (omega arith) (omega arith),
      fl.leb_total (ratio 6 10) (corroboration o),
      fl.leb_trans (corroboration o) (ratio 6 10) (ratio 1 1),
    ),
    ground (arith, fl.leb_refl (ratio 6 10), fl.leb_total (ratio 6 10) (corroboration o)),
  )
