-- ===== src/BasalGanglia/Policy.antt =====
-- ActionSelectionPolicy of app/basal_ganglia/policies.py: the demand of a context, the score of a
-- candidate, and the choice.
use text.Mathlib.Text.{◌==◌ as str_beq}
use cortex_cognitive_runtime.Prelude.{
  ℕ, ◌+◌, Bool, true, false, Option, none, some, List, [], ◌∷◌, ◌++◌, leb, ltb, map, if◌then◌else◌,
  String,
}
use cortex_cognitive_runtime.Float.{Float64, ◌<?◌, abs, add, clamp, mul, neg, ratio, sub, sum}
use cortex_cognitive_runtime.Sorting.{sort_with}
use cortex_cognitive_runtime.BasalGanglia.Models.{
  CandidateType, swarm_full, swarm_minimal, tier_1_5_augment, fallback, ActionCandidate,
  ActionSelectionContext, Signal, ne, rpe, synapse, pfc, difficulty, Reason, no_candidates, matched,
  PolicyConfig,
}

-- `_TYPE_PRIORITY`
unfoldable pub type_priority : CandidateType → ℕ
type_priority swarm_full = 0
type_priority swarm_minimal = 1
type_priority tier_1_5_augment = 2
type_priority fallback = 3

module _ {F : Type 0} ⦃fl : Float64 F⦄ where
  -- `_TYPE_COMPUTE_LEVEL`
  unfoldable pub compute_level : CandidateType → F
  compute_level swarm_full = ratio 1 1
  compute_level swarm_minimal = ratio 2 3
  compute_level tier_1_5_augment = ratio 1 3
  compute_level fallback = ratio 0 1

  unfoldable pub difficulty_demand : ℕ → F
  difficulty_demand level =
      if leb 4 level then ratio 1 1 else if leb 2 level then ratio 2 3 else ratio 1 3

  unfoldable pub weight_of : String → List (String × F) → Option F
  weight_of category [] = none
  weight_of category ((key, value) ∷ pairs) =
      if str_beq key category then some value else weight_of category pairs

  unfoldable pub context_synapse : ActionSelectionContext F → Option F
  unfolding weight_of
  context_synapse context = elim context.category [
    | none ↦ none
    | some category ↦ weight_of category context.synapse_weights
  ]

  -- `clamp(x, 0, 1)` and `2 x - 1`
  abbrev pub unit : F → F
  unit x = clamp x (ratio 0 1) (ratio 1 1)

  abbrev pub centered : F → F
  centered x = sub (mul (ratio 2 1) x) (ratio 1 1)

  -- The signed deviation of each signal that is present.
  unfoldable pub deltas : PolicyConfig F → ActionSelectionContext F → List (Signal × F)
  unfolding context_synapse
  deltas cfg context =
      let negative = context.rpe_recent_negative_count in
      let total = context.rpe_recent_positive_count + negative in
      (elim context.lc_ne_level [
        | none ↦ []
        | some level ↦ (ne, mul cfg.ne_demand_factor (unit level)) ∷ []
      ])
      ++ (if ltb 0 total
          then (rpe, mul cfg.rpe_demand_factor (centered (ratio negative total))) ∷ []
          else [])
      ++ (elim (context_synapse context) [
        | none ↦ []
        | some weight ↦ (synapse, mul (neg cfg.synapse_demand_factor) (centered (unit weight))) ∷ []
      ])
      ++ (elim context.pfc_confidence [
        | none ↦ []
        | some confidence ↦ (pfc, mul (neg cfg.pfc_demand_factor) (centered (unit confidence))) ∷ []
      ])

  -- `max` with a key returns the first of the largest.
  unfoldable pub largest : Signal × F → List (Signal × F) → Signal × F
  largest best [] = best
  largest best (x ∷ xs) = largest (if abs best.1 <? abs x.1 then x else best) xs

  unfoldable pub primary_of : List (Signal × F) → Signal
  unfolding largest
  primary_of [] = difficulty
  primary_of (x ∷ xs) =
      let best = largest x xs in if ratio 0 1 <? abs best.1 then best.0 else difficulty

  -- `_demand`
  unfoldable pub demand_of : PolicyConfig F → ActionSelectionContext F → F × Signal
  unfolding deltas difficulty_demand primary_of
  demand_of cfg context =
      let shifts = deltas cfg context in
      (
        unit (add (difficulty_demand context.difficulty) (sum (map (λ s. s.1) shifts))),
        primary_of shifts,
      )

  unfoldable pub score_of : F → CandidateType → F
  unfolding compute_level
  score_of demand kind = unit (sub (ratio 1 1) (abs (sub (compute_level kind) demand)))

  -- The order of the keys (-score, priority, id); `id_lt` is the order of Python's strings.
  unfoldable pub before_by :
      (String → String → Bool) → ActionCandidate F × F → ActionCandidate F × F → Bool
  unfolding type_priority
  before_by id_lt (x, sx) (y, sy) =
      let px = type_priority x.candidate_type in
      let py = type_priority y.candidate_type in
      if sy <? sx
      then true
      else if sx <? sy
      then false
      else if ltb px py
      then true
      else if ltb py px
      then false
      else id_lt x.candidate_id y.candidate_id

  unfoldable pub confidence_of : F → List (ActionCandidate F × F) → F
  confidence_of top_score [] = unit top_score
  confidence_of top_score ((_, second_score) ∷ _) =
      unit (add (mul top_score (ratio 6 10)) (mul (sub top_score second_score) (ratio 4 10)))

  abbrev pub scored : F → List (ActionCandidate F) → List (ActionCandidate F × F)
  scored demand = map (λ c. (c, score_of demand c.candidate_type))

  unfoldable pub select_by :
      F × Signal → List (ActionCandidate F × F) → Option (ActionCandidate F) × F × Reason F
  unfolding confidence_of compute_level
  select_by demand [] = (none, ratio 0 1, no_candidates)
  select_by (demand, primary) ((top, top_score) ∷ rest) = (
    some top,
    confidence_of top_score rest,
    matched top.candidate_type (compute_level top.candidate_type) demand top_score primary,
  )

  -- `select`
  unfoldable pub select :
      (String → String → Bool)
      → PolicyConfig F
      → ActionSelectionContext F
      → List (ActionCandidate F)
      → Option (ActionCandidate F) × F × Reason F
  unfolding select_by demand_of score_of before_by sort_with
  select id_lt cfg context candidates =
      let demand = demand_of cfg context in
      select_by demand (sort_with (before_by id_lt) (scored demand.0 candidates))
