-- ===== src/BasalGanglia/Evaluation.antt =====
-- The validators of the dataclasses accept what the advisor builds of a valid context.
use mathlib.Core.List.{Memᴰ}
use mathlib.Core.List.Memᴰ.{head, tail}
use text.Mathlib.Text.{◌==◌ as str_beq}
use cortex_cognitive_runtime.Prelude.{
  ◌≡◌, refl, Bool, true, false, some, List, [], ◌∷◌, map, String, arith, All, inl, inr,
  Option-cases, if◌then◌else◌,
}
use cortex_cognitive_runtime.Float.{Float64}
use cortex_cognitive_runtime.BasalGanglia.Models.{
  CandidateType, swarm_full, swarm_minimal, tier_1_5_augment, fallback, ActionCandidate,
  ActionSelectionContext, ActionSelectionDecision, PolicyConfig, in_unit, none_or_unit, pairs_ok,
  candidate_ok, context_ok, is_member, decision_ok,
}
use cortex_cognitive_runtime.BasalGanglia.Policy.{
  weight_of, context_synapse, demand_of, score_of, select,
}
use cortex_cognitive_runtime.BasalGanglia.Advisor.{
  default_id, default_types, default_candidate, all_built, build_default_candidates, evaluate_built,
  evaluate,
}
use cortex_cognitive_runtime.BasalGanglia.Choice.{Outranks, IsChoice, select_lem}

default_id-not_empty : (kind : CandidateType) → str_beq (default_id kind) "" ≡ false
unfolding default_id
default_id-not_empty swarm_full = refl
default_id-not_empty swarm_minimal = refl
default_id-not_empty tier_1_5_augment = refl
default_id-not_empty fallback = refl

module _ {F : Type 0} ⦃fl : Float64 F⦄ where
  weight_of-in_unit :
      (category : String) (seen : List String) (pairs : List (String × F))
      → pairs_ok in_unit seen pairs ≡ true
      → none_or_unit (weight_of category pairs) ≡ true
  unfolding pairs_ok weight_of
  weight_of-in_unit category seen [] h = refl
  weight_of-in_unit category seen ((key, value) ∷ pairs) h =
      ground (arith, weight_of-in_unit category (key ∷ seen) pairs)

  context_synapse-in_unit :
      (context : ActionSelectionContext F)
      → context_ok context ≡ true
      → none_or_unit (context_synapse context) ≡ true
  unfolding context_ok context_synapse
  context_synapse-in_unit context h = elim (Option-cases context.category) [
    | inl e ↦ rw e refl
    | inr (category, e) ↦
        rw e (weight_of-in_unit category [] context.synapse_weights (ground arith))
  ]

  default_candidate_ok :
      (context : ActionSelectionContext F) (kind : CandidateType)
      → context_ok context ≡ true
      → candidate_ok (default_candidate context kind) ≡ true
  unfolding context_ok candidate_ok default_candidate pairs_ok
  default_candidate_ok context kind h =
      ground (arith, context_synapse-in_unit context h, default_id-not_empty kind)

  all_built_ok :
      (cs : List (ActionCandidate F)) → All (λ c. candidate_ok c ≡ true) cs → all_built cs ≡ some cs
  unfolding all_built
  all_built_ok [] h = refl
  all_built_ok (c ∷ cs) h = ground (arith, h.0, all_built_ok cs h.1)

  is_member_of_Mem :
      (same : ActionCandidate F → ActionCandidate F → Bool) (c : ActionCandidate F)
      (cs : List (ActionCandidate F))
      → ((x : ActionCandidate F) → same x x ≡ true)
      → Memᴰ c cs
      → is_member same c cs ≡ true
  unfolding is_member
  is_member_of_Mem same c [] same-refl m = elim m [ ]
  is_member_of_Mem same c (x ∷ cs) same-refl (head e) = ground (arith, same-refl x, e)
  is_member_of_Mem same c (x ∷ cs) same-refl (tail m) =
      ground (arith, is_member_of_Mem same c cs same-refl m)

  decision_accepted :
      (same : ActionCandidate F → ActionCandidate F → Bool) (d : ActionSelectionDecision F)
      (demand : F)
      → ((x : ActionCandidate F) → same x x ≡ true)
      → d.applied ≡ false
      → IsChoice demand d.candidates d.selected d.confidence
      → decision_ok same d ≡ true
  unfolding decision_ok
  decision_accepted same d demand same-refl a choice = ground (
    arith,
    choice.answers,
    choice.confident,
    is_member_of_Mem same choice.chosen d.candidates same-refl choice.given,
  )

  kept-IsChoice :
      {demand : F} {cs : List (ActionCandidate F)} (b : Bool) (d e : ActionSelectionDecision F)
      → b ≡ true
      → IsChoice demand cs d.selected d.confidence
      → IsChoice demand cs (if b then d else e).selected (if b then d else e).confidence
  kept-IsChoice true d e accepted choice = choice
  kept-IsChoice false d e accepted choice = absurd (cc)

  evaluate_built_lem :
      (same : ActionCandidate F → ActionCandidate F → Bool) (id_lt : String → String → Bool)
      (cfg : PolicyConfig F) (context : ActionSelectionContext F) (c : ActionCandidate F)
      (cs : List (ActionCandidate F))
      → ((x : ActionCandidate F) → same x x ≡ true)
      → IsChoice
          (demand_of cfg context).0
          (c ∷ cs)
          (evaluate_built same id_lt cfg context (some (c ∷ cs))).selected
          (evaluate_built same id_lt cfg context (some (c ∷ cs))).confidence
  unfolding evaluate_built
  evaluate_built_lem same id_lt cfg context c cs same-refl =
      let choice = select_lem id_lt cfg context c cs in
      let decision : ActionSelectionDecision F = record {
        context = context;
        candidates = c ∷ cs;
        selected = (select id_lt cfg context (c ∷ cs)).0;
        confidence = (select id_lt cfg context (c ∷ cs)).1;
        reason = (select id_lt cfg context (c ∷ cs)).2;
        applied = false;
      } in
      kept-IsChoice _ decision _
        (decision_accepted same decision (demand_of cfg context).0 same-refl refl choice) choice

  -- Of a valid context the advisor never answers with its fail-safe decision: it selects a
  -- candidate whose type fits the demand best among all four types, the heavier of two that fit
  -- alike, with a confidence between 0 and 1. The equality of candidates has to be reflexive.
  pub evaluate_lem :
      (same : ActionCandidate F → ActionCandidate F → Bool) (id_lt : String → String → Bool)
      (cfg : PolicyConfig F) (context : ActionSelectionContext F)
      → ((x : ActionCandidate F) → same x x ≡ true)
      → context_ok context ≡ true
      → (s : ActionCandidate F) × ((evaluate same id_lt cfg context).selected ≡ some s)
        × ((kind : CandidateType)
            → Outranks s.candidate_type
                (score_of (demand_of cfg context).0 s.candidate_type)
                kind
                (score_of (demand_of cfg context).0 kind))
        × (in_unit (evaluate same id_lt cfg context).confidence ≡ true)
  unfolding evaluate build_default_candidates default_candidate
  evaluate_lem same id_lt cfg context same-refl ok =
      rw (all_built_ok (map (default_candidate context) default_types) built)
        (choice.chosen, choice.answers, best, choice.confident)
    where
      built : All (λ c. candidate_ok c ≡ true) (map (default_candidate context) default_types)
      built = (
        default_candidate_ok context swarm_full ok,
        (
          default_candidate_ok context swarm_minimal ok,
          (
            default_candidate_ok context tier_1_5_augment ok,
            (default_candidate_ok context fallback ok, tt),
          ),
        ),
      )

      choice :
          IsChoice
            (demand_of cfg context).0
            (map (default_candidate context) default_types)
            (evaluate_built same id_lt cfg context
              (some (map (default_candidate context) default_types))).selected
            (evaluate_built same id_lt cfg context
              (some (map (default_candidate context) default_types))).confidence
      choice =
          evaluate_built_lem same id_lt cfg context (default_candidate context swarm_full)
            (map (default_candidate context) (swarm_minimal ∷ tier_1_5_augment ∷ fallback ∷ []))
            same-refl

      best :
          (kind : CandidateType)
          → Outranks choice.chosen.candidate_type
              (score_of (demand_of cfg context).0 choice.chosen.candidate_type)
              kind
              (score_of (demand_of cfg context).0 kind)
      best swarm_full = choice.best.0
      best swarm_minimal = choice.best.1.0
      best tier_1_5_augment = choice.best.1.1.0
      best fallback = choice.best.1.1.1.0
