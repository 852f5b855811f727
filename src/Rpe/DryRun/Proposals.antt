-- ===== src/Rpe/DryRun/Proposals.antt =====
-- Every proposal of a dry run keeps to the configuration, whatever the sources answered.
use cortex_cognitive_runtime.Prelude.{
  ◌≡◌, refl, true, Option, none, some, List, [], ◌∷◌, All, append-All, arith, String, inl, inr,
  Option-cases, subst,
}
use cortex_cognitive_runtime.Float.{Float64, add, clamp, neg, mul, ◌<=?◌, clamp_bounds}
use cortex_cognitive_runtime.Memory.Ifom.{TtlType}
use cortex_cognitive_runtime.Rpe.Proposal.{
  RpeContext, RpeDecision, RpeProposal, RpeReward, delta_of, is_allowed, prediction_error,
}
use cortex_cognitive_runtime.Rpe.Proposal.Bounds.{IsConfig, ProposedWithin, proposed_from-within}
use cortex_cognitive_runtime.Rpe.Reward.{observe_rewards}
use cortex_cognitive_runtime.Rpe.Ttl.{TtlConfig, compute_ttl_proposal, is_valid_type, ttl_delta}
use cortex_cognitive_runtime.Rpe.Ttl.Keys.{TtlKey}
use cortex_cognitive_runtime.Rpe.DryRun.{
  AnyProposal, DryRun, compute_category_proposal, dry_run, listed_as, proposals_of, ttl_proposal,
  ttl_proposals, ttl_types, weight_proposal, weight_proposals,
}

module _ {F : Type 0} ⦃fl : Float64 F⦄ where
  listed_as-All :
      {A : Type 0} (P : AnyProposal F → Type 0) (f : A → AnyProposal F) (o : Option A)
      → ((a : A) → o ≡ some a → P (f a))
      → All P (listed_as f o)
  listed_as-All P f none h = tt
  listed_as-All P f (some a) h = (h a refl, tt)

  -- A change within the limit, of the request's own category.
  abbrev Keeps : {K : Type 0} → F → RpeContext → RpeProposal K F → Option String → Type 0
  Keeps limit context p category =
      (neg limit <=? p.proposed_delta ≡ true)
      × (p.proposed_delta <=? limit ≡ true)
      × (p.decision.context ≡ context)
      × (context.category ≡ category)

  -- A proposed TTL, if there is one, is within the configured bounds.
  abbrev pub TtlWithin : TtlConfig F → Option F → Type 0
  TtlWithin cfg none = Unit
  TtlWithin cfg (some v) =
      (cfg.ifom_ttl_min_seconds <=? v ≡ true) × (v <=? cfg.ifom_ttl_max_seconds ≡ true)

  ttl_proposed-TtlWithin :
      (cfg : TtlConfig F) (delta : F) (current : Option F)
      → cfg.ifom_ttl_min_seconds <=? cfg.ifom_ttl_max_seconds ≡ true
      → TtlWithin cfg (elim current [
        | none ↦ none
        | some v ↦ some (clamp (add v delta) cfg.ifom_ttl_min_seconds cfg.ifom_ttl_max_seconds)
      ])
  ttl_proposed-TtlWithin cfg delta none h = tt
  ttl_proposed-TtlWithin cfg delta (some v) h =
      clamp_bounds (add v delta) cfg.ifom_ttl_min_seconds cfg.ifom_ttl_max_seconds h

  abbrev pub IsWithin : DryRun F → RpeContext → AnyProposal F → Type 0
  IsWithin r context (weight_proposal p) =
      Keeps r.weights.max_delta context p (some p.target_key)
      × (is_allowed p.target_key r.weights.allowed_categories ≡ true)
      × ProposedWithin r.weights p.proposed_value
  IsWithin r context (ttl_proposal p) =
      Keeps r.ttls.ifom_ttl_max_delta context p p.target_key.category
      × TtlWithin r.ttls p.proposed_value
      × ((c : String) × (p.target_key.category ≡ some c)
          × (is_allowed c r.ttls.allowed_categories ≡ true))
      × (is_valid_type p.target_key.ttl_type ≡ true)

  weight-IsWithin :
      (r : DryRun F) (d : RpeDecision F) (id : String) (current : Option F)
      (p : RpeProposal String F)
      → IsConfig r.weights
      → compute_category_proposal r.weights id d current ≡ some p
      → IsWithin r d.context (weight_proposal p)
  unfolding compute_category_proposal delta_of
  weight-IsWithin r d id current p h e =
      let b =
        clamp_bounds (mul (mul (prediction_error d.reward) d.reward.confidence) r.weights.max_delta)
          (neg r.weights.max_delta) r.weights.max_delta h.positive in
      let w = proposed_from-within r.weights (delta_of r.weights d.reward) current h in
      elim (Option-cases d.context.category) [
        | inl e' ↦ absurd (ground (arith, e, e'))
        | inr (c, e') ↦ (
          (
            ground (arith, e, e', b.0),
            ground (arith, e, e', b.1),
            ground (arith, e, e'),
            ground (arith, e, e'),
          ),
          ground (arith, e, e'),
          ground (arith, e, e', w),
        )
      ]

  ttl-IsWithin :
      (r : DryRun F) (d : RpeDecision F) (id : String) (t : TtlType) (current : Option F)
      (p : RpeProposal TtlKey F)
      → neg r.ttls.ifom_ttl_max_delta <=? r.ttls.ifom_ttl_max_delta ≡ true
      → r.ttls.ifom_ttl_min_seconds <=? r.ttls.ifom_ttl_max_seconds ≡ true
      → is_valid_type t ≡ true
      → compute_ttl_proposal r.ttls id d t current ≡ some p
      → IsWithin r d.context (ttl_proposal p)
  unfolding compute_ttl_proposal ttl_delta
  ttl-IsWithin r d id t current p h o v e =
      let b =
        clamp_bounds
          (mul (mul (prediction_error d.reward) d.reward.confidence) r.ttls.ifom_ttl_max_delta)
          (neg r.ttls.ifom_ttl_max_delta) r.ttls.ifom_ttl_max_delta h in
      let w = ttl_proposed-TtlWithin r.ttls (ttl_delta r.ttls d) current o in
      elim (Option-cases d.context.category) [
        | inl e' ↦ absurd (ground (arith, e, e'))
        | inr (c, e') ↦ (
          (
            ground (arith, e, e', b.0),
            ground (arith, e, e', b.1),
            ground (arith, e, e'),
            ground (arith, e, e'),
          ),
          ground (arith, e, e', w),
          (c, ground (arith, e, e'), ground (arith, e, e')),
          ground (arith, e, e', v),
        )
      ]

  -- The configured limits, as the constructor of the configuration demands them.
  pub record IsDryRun (r : DryRun F) : Type 0 where
    pub weights_valid : IsConfig r.weights
    pub ttl_limit : neg r.ttls.ifom_ttl_max_delta <=? r.ttls.ifom_ttl_max_delta ≡ true
    pub ttl_ordered : r.ttls.ifom_ttl_min_seconds <=? r.ttls.ifom_ttl_max_seconds ≡ true

  ttls-IsWithin :
      (r : DryRun F) (d : RpeDecision F) (ts : List TtlType)
      → IsDryRun r
      → All (λ t. is_valid_type t ≡ true) ts
      → All (IsWithin r d.context) (ttl_proposals r d ts)
  unfolding ttl_proposals
  ttls-IsWithin r d [] v h = tt
  ttls-IsWithin r d (t ∷ ts) v h =
      append-All (IsWithin r d.context) _ _
        (listed_as-All (IsWithin r d.context) ttl_proposal _
          (λ p. ttl-IsWithin r d _ t _ p v.ttl_limit v.ttl_ordered h.0))
        (ttls-IsWithin r d ts v h.1)

  proposals_of-IsWithin :
      (r : DryRun F) (context : RpeContext) (ds : List (RpeDecision F))
      → IsDryRun r
      → All (λ d. d.context ≡ context) ds
      → All (IsWithin r context) (proposals_of r ds)
  unfolding proposals_of weight_proposals is_valid_type
  proposals_of-IsWithin r context [] v h = tt
  proposals_of-IsWithin r context (d ∷ ds) v h =
      append-All (IsWithin r context) _ _
        (subst (λ c. All (IsWithin r c) (weight_proposals r d)) h.0
          (listed_as-All (IsWithin r d.context) weight_proposal _
            (λ p. weight-IsWithin r d _ _ p v.weights_valid)))
        (append-All (IsWithin r context) _ _
          (subst (λ c. All (IsWithin r c) (ttl_proposals r d ttl_types)) h.0
            (ttls-IsWithin r d ttl_types v (refl, (refl, (refl, (refl, tt))))))
          (proposals_of-IsWithin r context ds v h.1))

  observed-context :
      (context : RpeContext) (rewards : List (Option (RpeReward F)))
      → All (λ d. d.context ≡ context) (observe_rewards context rewards)
  unfolding observe_rewards
  observed-context context [] = tt
  observed-context context (none ∷ rs) = observed-context context rs
  observed-context context (some x ∷ rs) = (refl, observed-context context rs)

  -- With valid limits, whatever the sources answer, raising or not: every proposal of a dry run asks for a change of
  -- at most the configured size in either direction, and concerns the request's own context and
  -- category. The category is one of those allowed for the proposal's target, and the proposed value,
  -- if there is one, is within the configured bounds. A TTL's type is one of the four that can be
  -- overridden.
  pub dry_run_lem :
      (r : DryRun F) (context : RpeContext) (rewards : List (Option (RpeReward F)))
      → IsDryRun r
      → All (IsWithin r context) (dry_run r context rewards)
  unfolding dry_run
  dry_run_lem r context rewards v =
      proposals_of-IsWithin r context (observe_rewards context rewards) v
        (observed-context context rewards)
