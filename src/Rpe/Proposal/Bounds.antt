-- ===== src/Rpe/Proposal/Bounds.antt =====
-- What a proposal may ask for.
use cortex_cognitive_runtime.Prelude.{
  ◌≤◌, ◌≡◌, true, Option, none, some, arith, String, inl, inr, Option-cases,
}
use cortex_cognitive_runtime.Float.{Float64, neg, ◌<=?◌, clamp_bounds, add, mul}
use cortex_cognitive_runtime.Rpe.Cell.{CellKey}
use cortex_cognitive_runtime.Rpe.Proposal.{
  DryRunConfig, RpeDecision, RpeProposal, in_range, prediction_error, delta_of, proposed_from,
  compute_proposal, is_allowed,
}

module _ {F : Type 0} ⦃fl : Float64 F⦄ where
  -- The checks of DryRunConfig that concern weights.
  pub record IsConfig (cfg : DryRunConfig F) : Type 0 where
    pub positive : neg cfg.max_delta <=? cfg.max_delta ≡ true
    pub ordered : cfg.synapse_weight_min <=? cfg.synapse_weight_max ≡ true

  abbrev pub ProposedWithin : DryRunConfig F → Option F → Type 0
  ProposedWithin cfg none = Unit
  ProposedWithin cfg (some v) = in_range cfg.synapse_weight_min cfg.synapse_weight_max v ≡ true

  pub proposed_from-within :
      (cfg : DryRunConfig F) (delta : F) (current : Option F)
      → IsConfig cfg
      → ProposedWithin cfg (proposed_from cfg delta current)
  unfolding proposed_from
  proposed_from-within cfg delta none h = tt
  proposed_from-within cfg delta (some v) h =
      let b = clamp_bounds (add v delta) cfg.synapse_weight_min cfg.synapse_weight_max h.ordered in
      ground (arith, b.0, b.1)

  -- A proposal never asks for more than the configured change in either direction, the weight that
  -- it proposes is within the configured bounds, and it concerns the request's own category, an
  -- allowed one, and its own difficulty, which is set.
  pub compute_proposal_lem :
      (cfg : DryRunConfig F) (rollback_id : String) (decision : RpeDecision F) (current : Option F)
      (p : RpeProposal CellKey F)
      → IsConfig cfg
      → compute_proposal cfg rollback_id decision current ≡ some p
      → (neg cfg.max_delta <=? p.proposed_delta ≡ true)
        × (p.proposed_delta <=? cfg.max_delta ≡ true)
        × ProposedWithin cfg p.proposed_value
        × (decision.context.category ≡ some p.target_key.category)
        × (is_allowed p.target_key.category cfg.allowed_categories ≡ true)
        × (decision.context.difficulty ≡ p.target_key.difficulty)
        × (1 ≤ p.target_key.difficulty)
  unfolding compute_proposal delta_of
  compute_proposal_lem cfg rollback_id decision current p h e =
      let b =
        clamp_bounds
          (mul (mul (prediction_error decision.reward) decision.reward.confidence) cfg.max_delta)
          (neg cfg.max_delta) cfg.max_delta h.positive in
      let w = proposed_from-within cfg (delta_of cfg decision.reward) current h in
      elim (Option-cases decision.context.category) [
        | inl e' ↦ ground (arith, e, e')
        | inr (c, e') ↦ (
          ground (arith, e, e', b.0),
          ground (arith, e, e', b.1),
          ground (arith, e, e', w),
          ground (arith, e, e'),
          ground (arith, e, e'),
          ground (arith, e, e'),
          ground (arith, e, e'),
        )
      ]
