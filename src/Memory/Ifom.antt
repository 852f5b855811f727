-- ===== src/Memory/Ifom.antt =====
-- app/memory/ifom.py: the Intent Forgetting / Obsolescence Manager.
pub mod Sweep
pub mod Cleanup
use cortex_cognitive_runtime.Prelude.{
  ℕ, Bool, true, false, not, Option, none, some, List, [], ◌∷◌, map, if◌then◌else◌, String,
  String_discrete,
}
use cortex_cognitive_runtime.OrderedDict.{values, delete}
use cortex_cognitive_runtime.Float.{Float64, ratio, sub, min_f, ◌<=?◌, ◌<?◌}
use cortex_cognitive_runtime.Memory.Goal.{Goal, GoalStatus, active, paused, completed, expired}
use cortex_cognitive_runtime.Memory.GoalStack.{GoalStack, Outcome, ok, raise, update_status, remove}
use cortex_cognitive_runtime.Memory.SessionContext.{SessionGoalContext}

pub record IfomConfig (F : Type 0) : Type 0 where
  pub active_ttl : F
  pub paused_ttl : F
  pub completed_ttl : F
  pub low_priority_ttl : F
  pub low_priority_threshold : F

pub data TtlType : Type 0 where
  of_status : GoalStatus → TtlType
  low_priority : TtlType

-- The answer of the injected resolver; it may raise.
pub data Resolved (F : Type 0) : Type 0 where
  none_set failed : Resolved F
  found : F → Resolved F

pub data Action : Type 0 where
  keep mark_expired remove_goal : Action

pub data Reason : Type 0 where
  already_expired low_priority_kept completed_ttl_exceeded low_priority_ttl_exceeded : Reason
  within_ttl ttl_exceeded : GoalStatus → Reason

pub record IfomDecision (F : Type 0) : Type 0 where
  pub goal_id : String
  pub action : Action
  pub reason : Reason
  pub age_seconds : F

-- IFOMPolicy. The resolver is asked for the session, the category and the type of the TTL.
pub record IfomPolicy (F : Type 0) : Type 0 where
  pub config : IfomConfig F
  pub resolver : Option (Option String → Option String → TtlType → Resolved F)

module _ {F : Type 0} ⦃fl : Float64 F⦄ where
  abbrev pub is_low_priority : IfomPolicy F → Goal F → Bool
  is_low_priority p g = g.priority <=? p.config.low_priority_threshold

  unfoldable pub goal_to_ttl_type : IfomPolicy F → Goal F → TtlType
  goal_to_ttl_type p g = if is_low_priority p g then low_priority else of_status g.status

  unfoldable pub status_ttl : IfomConfig F → GoalStatus → Option F
  status_ttl c active = some c.active_ttl
  status_ttl c paused = some c.paused_ttl
  status_ttl c completed = some c.completed_ttl
  status_ttl c expired = none

  unfoldable pub low_priority_ttl_of : IfomConfig F → GoalStatus → Option F
  low_priority_ttl_of c expired = none
  low_priority_ttl_of c completed = some (min_f c.completed_ttl c.low_priority_ttl)
  low_priority_ttl_of c _ = some c.low_priority_ttl

  -- `_get_ttl_for_goal`; `none` stands for the infinite TTL.
  unfoldable pub ttl_for_goal : IfomPolicy F → Goal F → Option F
  unfolding status_ttl low_priority_ttl_of
  ttl_for_goal p g =
      if is_low_priority p g
      then low_priority_ttl_of p.config g.status
      else status_ttl p.config g.status

  -- An override counts if it is positive; a resolver that raises or has none changes nothing.
  unfoldable pub overridden : Resolved F → Option F → Option F
  overridden none_set base = base
  overridden failed base = base
  overridden (found v) base = if ratio 0 1 <? v then some v else base

  -- `adjust_ttl_with_rpe_hook`
  unfoldable pub adjust_ttl : IfomPolicy F → Goal F → Option F → Option F
  unfolding overridden goal_to_ttl_type
  adjust_ttl p g base = elim p.resolver [
    | none ↦ base
    | some resolve ↦ overridden (resolve g.session_id g.category (goal_to_ttl_type p g)) base
  ]

  -- `age <= adjusted_ttl`
  unfoldable pub is_within : F → Option F → Bool
  is_within age none = true
  is_within age (some ttl) = age <=? ttl

  unfoldable pub kept_reason : IfomPolicy F → Goal F → Reason
  kept_reason p g = if is_low_priority p g then low_priority_kept else within_ttl g.status

  -- The action and the reason past the TTL: completed, then low priority, then the others.
  unfoldable pub past_ttl : IfomPolicy F → Goal F → GoalStatus → Action × Reason
  past_ttl p g completed = (remove_goal, completed_ttl_exceeded)
  past_ttl p g other =
      (mark_expired, if is_low_priority p g then low_priority_ttl_exceeded else ttl_exceeded other)

  unfoldable pub judge : IfomPolicy F → Goal F → F → GoalStatus → Action × Reason
  unfolding is_within kept_reason past_ttl adjust_ttl ttl_for_goal
  judge p g age expired = (keep, already_expired)
  judge p g age status =
      if is_within age (adjust_ttl p g (ttl_for_goal p g))
      then (keep, kept_reason p g)
      else past_ttl p g status

  -- `evaluate_goal`
  unfoldable pub evaluate_goal : IfomPolicy F → F → Goal F → IfomDecision F
  unfolding judge
  evaluate_goal p now g =
      let age = sub now g.last_used_at in
      let verdict = judge p g age g.status in
      record { goal_id = g.goal_id; action = verdict.0; reason = verdict.1; age_seconds = age }

module _ {F : Type 0} where
  -- The ids of the decisions with one of the two actions, in the order of the goals.
  unfoldable pub to_remove : List (IfomDecision F) → List String
  to_remove [] = []
  to_remove (d ∷ ds) = elim d.action [ remove_goal ↦ d.goal_id ∷ to_remove ds | _ ↦ to_remove ds ]

  unfoldable pub to_expire : List (IfomDecision F) → List String
  to_expire [] = []
  to_expire (d ∷ ds) = elim d.action [ mark_expired ↦ d.goal_id ∷ to_expire ds | _ ↦ to_expire ds ]

  -- The two loops that apply the decisions. `update` raises on an unknown id, and stamps the goal
  -- with its own reading of the clock: `clock` is the reading for each id.
  unfoldable pub remove_all : List String → GoalStack F → GoalStack F
  unfolding remove
  remove_all [] s = s
  remove_all (id ∷ ids) s = remove_all ids (remove id s).1

  unfoldable pub expire_all : (String → F) → List String → GoalStack F → Outcome (GoalStack F)
  unfolding update_status
  expire_all clock [] s = ok s
  expire_all clock (id ∷ ids) s = elim (update_status id expired (clock id) s) [
    | raise e ↦ raise e
    | ok s' ↦ expire_all clock ids s'
  ]

module _ {F : Type 0} ⦃fl : Float64 F⦄ where
  abbrev pub decisions : IfomPolicy F → F → GoalStack F → List (IfomDecision F)
  decisions p now s = map (evaluate_goal p now) (values s.goals)

  -- `updated_at = current`, if anything was removed or expired
  unfoldable pub stamp_context :
      List String → List String → F → GoalStack F → SessionGoalContext F → SessionGoalContext F
  stamp_context [] [] now s c = record c { goal_stack = s }
  stamp_context _ _ now s c = record c { goal_stack = s; updated_at = now }

  -- `cleanup_expired`: all decisions first, then the mutations.
  unfoldable pub cleanup_expired :
      IfomPolicy F
      → F
      → (String → F)
      → SessionGoalContext F
      → Outcome (List (IfomDecision F) × SessionGoalContext F)
  unfolding to_remove to_expire remove_all expire_all stamp_context
  cleanup_expired p now clock c =
      let ds = decisions p now c.goal_stack in
      elim (expire_all clock (to_expire ds) (remove_all (to_remove ds) c.goal_stack)) [
        | raise e ↦ raise e
        | ok s ↦ ok (ds, stamp_context (to_remove ds) (to_expire ds) now s c)
      ]
