-- ===== src/Rpe/Ttl.antt =====
-- The learning of TTLs for the forgetting of goals: app/rpe/ifom_store.py, IFOMTTLDryRunCalculator of
-- app/rpe/calculators.py, IFOMTTLMutator of app/rpe/mutators.py, and the branch of
-- RPEMutationService that applies such a proposal.
pub mod Keys
pub mod Learning
mod Tests
use text.Mathlib.Text.{◌==◌ as str_beq}
use cortex_cognitive_runtime.Prelude.{
  Bool, true, false, not, ◌&&◌, Option, none, some, List, if◌then◌else◌, String, String_discrete,
}
use cortex_cognitive_runtime.OrderedDict.{OrderedDict, get, set, delete}
use cortex_cognitive_runtime.Float.{Float64, ratio, abs, add, sub, mul, neg, clamp, ◌<=?◌, ◌<?◌}
use cortex_cognitive_runtime.Memory.Goal.{active, paused, completed, expired}
use cortex_cognitive_runtime.Memory.Ifom.{TtlType, of_status, low_priority}
use cortex_cognitive_runtime.Rpe.Proposal.{
  RpeDecision, RpeProposal, ifom_ttl, in_range, is_allowed, prediction_error,
}
use cortex_cognitive_runtime.Rpe.Mutator.{
  MutationRecord, RollbackStatus, available, rolled_back, built, is_sound, reverse_record,
}
use cortex_cognitive_runtime.Rpe.Ttl.Keys.{TtlKey, TtlScope, TtlScope_discrete, TtlKey_discrete}

-- `ttl_type in _VALID_TTL_TYPES`
unfoldable pub is_valid_type : TtlType → Bool
is_valid_type (of_status expired) = false
is_valid_type _ = true

pub record TtlOverride (F : Type 0) : Type 0 where
  pub scope : TtlScope
  pub override_seconds : F
  pub applied_at : F
  pub rollback_id : String
  pub rollback_status : RollbackStatus
  pub previous_seconds : Option F

-- InMemoryIFOMTTLOverrideStore
abbrev pub TtlStore : Type 0 → Type 0
TtlStore F = OrderedDict TtlScope (TtlOverride F)

module _ {F : Type 0} where
  unfoldable pub read_override : TtlScope → TtlStore F → Option (TtlOverride F)
  read_override scope st = get TtlScope_discrete scope st

  unfoldable pub write_override : TtlOverride F → TtlStore F → TtlStore F
  write_override o st = set TtlScope_discrete o.scope o st

  unfoldable pub delete_override : TtlScope → TtlStore F → TtlStore F
  delete_override scope st = delete TtlScope_discrete scope st

-- The fields of DryRunConfig that concern TTLs.
pub record TtlConfig (F : Type 0) : Type 0 where
  pub enabled : Bool
  pub allowed_categories : List String
  pub ifom_ttl_max_delta : F
  pub ifom_ttl_min_seconds : F
  pub ifom_ttl_max_seconds : F

pub record TtlMutator (F : Type 0) : Type 0 where
  pub ttl_min : F
  pub ttl_max : F

module _ {F : Type 0} ⦃fl : Float64 F⦄ where
  -- `IFOMTTLOverride.__post_init__`
  unfoldable pub override_ok : TtlOverride F → Bool
  unfolding is_valid_type
  override_ok o = is_valid_type o.scope.key.ttl_type && ratio 0 1 <? o.override_seconds

  unfoldable pub ttl_delta : TtlConfig F → RpeDecision F → F
  unfolding prediction_error
  ttl_delta cfg d =
      clamp (mul (mul (prediction_error d.reward) d.reward.confidence) cfg.ifom_ttl_max_delta)
        (neg cfg.ifom_ttl_max_delta) cfg.ifom_ttl_max_delta

  -- `IFOMTTLDryRunCalculator.compute_proposal`. The checks that RPEProposal makes on construction
  -- hold of what is built here.
  unfoldable pub compute_ttl_proposal :
      TtlConfig F → String → RpeDecision F → TtlType → Option F → Option (RpeProposal TtlKey F)
  unfolding ttl_delta
  compute_ttl_proposal cfg rollback_id decision ttl_type current =
      if not cfg.enabled then none else elim decision.context.category [
        | none ↦ none
        | some category ↦
            if str_beq category ""
            then none
            else if not (is_allowed category cfg.allowed_categories)
            then none
            else some (record {
              decision = decision;
              target = ifom_ttl;
              target_key = record { ttl_type = ttl_type; category = some category };
              current_value = current;
              proposed_delta = ttl_delta cfg decision;
              proposed_value = elim current [
                | none ↦ none
                | some v ↦ some (
                    clamp (add v (ttl_delta cfg decision)) cfg.ifom_ttl_min_seconds
                      cfg.ifom_ttl_max_seconds)
              ];
              max_delta = cfg.ifom_ttl_max_delta;
              rollback_id = rollback_id;
              confidence = decision.reward.confidence;
            })
      ]

  unfoldable pub read_current_ttl : TtlScope → TtlStore F → Option F
  unfolding read_override
  read_current_ttl scope st = elim (read_override scope st) [
    | none ↦ none
    | some o ↦ some o.override_seconds
  ]

  abbrev pub ttl_target : TtlMutator F → RpeProposal TtlKey F → F → F
  ttl_target m p previous = clamp (add previous p.proposed_delta) m.ttl_min m.ttl_max

  abbrev pub new_override : TtlMutator F → RpeProposal TtlKey F → F → String → F → TtlOverride F
  new_override m p previous session now = record {
    scope = record { session = session; key = p.target_key };
    override_seconds = ttl_target m p previous;
    applied_at = now;
    rollback_id = p.rollback_id;
    rollback_status = available;
    previous_seconds = some previous;
  }

  abbrev pub ttl_record :
      TtlMutator F → RpeProposal TtlKey F → F → Bool → F → MutationRecord TtlKey F
  ttl_record m p previous mismatch now = record {
    proposal = p;
    previous_value = previous;
    applied_delta = sub (ttl_target m p previous) previous;
    new_value = ttl_target m p previous;
    applied_at = now;
    rollback_id = p.rollback_id;
    rollback_status = available;
    weight_min = m.ttl_min;
    weight_max = m.ttl_max;
    current_value_mismatch = mismatch;
  }

  -- `apply_mutation`: no record where the source raises; the key is parsed before the session is
  -- looked at.
  unfoldable pub apply_ttl :
      TtlMutator F
      → RpeProposal TtlKey F
      → F
      → Bool
      → F
      → TtlStore F
      → Option (MutationRecord TtlKey F) × TtlStore F
  unfolding is_sound override_ok write_override
  apply_ttl m p previous mismatch now st =
      if not (in_range m.ttl_min m.ttl_max previous)
      then (none, st)
      else elim p.decision.context.session_id [
        | none ↦ (none, st)
        | some session ↦
            let override = new_override m p previous session now in
            if override_ok override
            then (built (ttl_record m p previous mismatch now), write_override override st)
            else (none, st)
      ]

  abbrev pub restored_override : MutationRecord TtlKey F → String → F → TtlOverride F
  restored_override r session now = record {
    scope = record { session = session; key = r.proposal.target_key };
    override_seconds = r.previous_value;
    applied_at = now;
    rollback_id = r.rollback_id;
    rollback_status = rolled_back;
    previous_seconds = some r.new_value;
  }

  -- `rollback`; `now` is what both of its clock readings give.
  unfoldable pub rollback_ttl :
      MutationRecord TtlKey F → F → TtlStore F → Option (MutationRecord TtlKey F) × TtlStore F
  unfolding is_sound override_ok write_override delete_override is_valid_type
  rollback_ttl r now st =
      if not (is_valid_type r.proposal.target_key.ttl_type)
      then (none, st)
      else elim r.proposal.decision.context.session_id [
        | none ↦ (none, st)
        | some session ↦
            let override = restored_override r session now in
            if r.previous_value <=? ratio 0 1
            then (built (reverse_record r now), delete_override override.scope st)
            else if override_ok override
            then (built (reverse_record r now), write_override override st)
            else (none, st)
      ]

  -- The value that `_apply_ifom_ttl` starts from: the override, or else the caller's.
  unfoldable pub ttl_before : Option (OrderedDict TtlKey F) → TtlScope → TtlStore F → Option F
  unfolding read_current_ttl
  ttl_before hints scope st = elim (read_current_ttl scope st) [
    | some v ↦ some v
    | none ↦ elim hints [ none ↦ none | some h ↦ get TtlKey_discrete scope.key h ]
  ]

  unfoldable pub ttl_mismatches : Option (OrderedDict TtlKey F) → TtlKey → F → Bool
  ttl_mismatches none k stored = false
  ttl_mismatches (some hints) k stored = elim (get TtlKey_discrete k hints) [
    | none ↦ false
    | some hint ↦ ratio 1 1000000000 <? abs (sub hint stored)
  ]

  -- `_apply_with_lock` and `_apply_ifom_ttl` for a proposal of a TTL. Whatever is raised inside ends
  -- as no record.
  unfoldable pub apply_ttl_with_lock :
      (TtlKey → Bool)
      → Option (OrderedDict TtlKey F)
      → Option (TtlMutator F)
      → RpeProposal TtlKey F
      → F
      → TtlStore F
      → Option (MutationRecord TtlKey F) × TtlStore F
  unfolding is_valid_type ttl_before ttl_mismatches apply_ttl
  apply_ttl_with_lock acquires hints none p now st = (none, st)
  apply_ttl_with_lock acquires hints (some m) p now st =
      let k = p.target_key in
      if not (acquires k) then (none, st) else elim p.decision.context.session_id [
        | none ↦ (none, st)
        | some session ↦
            if not (is_valid_type k.ttl_type)
            then (none, st)
            else elim (ttl_before hints (record { session = session; key = k }) st) [
              | none ↦ (none, st)
              | some v ↦ apply_ttl m p v (ttl_mismatches hints k v) now st
            ]
      ]
