-- ===== src/Memory/SessionContext.antt =====
-- app/memory/session_goal_context.py and app/memory/store.py: the goals of a session or of a trace,
-- and the two maps that hold them.
pub mod Activation
use cortex_cognitive_runtime.Prelude.{
  Bool, true, false, Option, none, some, List, [], ◌∷◌, is_some, String, String_discrete, ite, ℕ,
  if◌then◌else◌,
}
use cortex_cognitive_runtime.OrderedDict.{OrderedDict, get, set, delete, keys}
use cortex_cognitive_runtime.Float.{Float64}
use cortex_cognitive_runtime.Memory.Goal.{Goal, GoalStatus, active, paused}
use cortex_cognitive_runtime.Memory.GoalStack
use cortex_cognitive_runtime.Memory.GoalStack.{
  GoalStack, Outcome, ok, raise, not_found, update_status, touch, list_by_status, get_top_goal,
  has_status,
}

pub data ScopeType : Type 0 where
  session trace : ScopeType

pub record SessionGoalContext (F : Type 0) : Type 0 where
  pub scope_id : String
  pub scope_type : ScopeType
  pub goal_stack : GoalStack F
  pub created_at : F
  pub updated_at : F
  pub last_active_goal_id : Option String

infixl 5 ◌>>=◌
abbrev pub ◌>>=◌ : {A B : Type 0} → Outcome A → (A → Outcome B) → Outcome B
ok a >>= f = f a
raise e >>= f = raise e

module _ {F : Type 0} where
  -- `for_session` and `for_trace`, over the configured depth and decay
  unfoldable pub open_context : ScopeType → String → ℕ → F → F → SessionGoalContext F
  open_context kind scope_id max_depth decay_lambda now = record {
    scope_id = scope_id;
    scope_type = kind;
    goal_stack = record { goals = []; max_depth = max_depth; decay_lambda = decay_lambda };
    created_at = now;
    updated_at = now;
    last_active_goal_id = none;
  }

  -- The loop of `set_active`: every other active goal is paused.
  unfoldable pub pause_others : String → F → List (Goal F) → GoalStack F → Outcome (GoalStack F)
  pause_others goal_id now [] s = ok s
  pause_others goal_id now (g ∷ gs) s = elim (String_discrete g.goal_id goal_id) [
    | yes same ↦ pause_others goal_id now gs s
    | no other ↦ update_status g.goal_id paused now s >>= pause_others goal_id now gs
  ]

  -- `set_active`, with all its readings of the clock taken as one
  unfoldable pub set_active : String → F → SessionGoalContext F → Outcome (SessionGoalContext F)
  unfolding pause_others update_status touch list_by_status
  set_active goal_id now c = elim (get String_discrete goal_id c.goal_stack.goals) [
    | none ↦ raise not_found
    | some found ↦ do
      s ← pause_others goal_id now (list_by_status active c.goal_stack) c.goal_stack
      s' ← update_status goal_id active now s
      s'' ← touch goal_id now s'
      ok (record c { goal_stack = s''; last_active_goal_id = some goal_id; updated_at = now })
  ]

module _ {F : Type 0} ⦃fl : Float64 F⦄ where
  -- `add_goal`
  unfoldable pub add_goal :
      (F → F) → F → Goal F → SessionGoalContext F → Outcome (Option (Goal F) × SessionGoalContext F)
  unfolding GoalStack.add
  add_goal exp now goal c = do
    (evicted, s) ← GoalStack.add exp now goal c.goal_stack
    ok (evicted, record c { goal_stack = s; updated_at = now })

  unfoldable pub get_active_goal : (F → F) → F → SessionGoalContext F → Option (Goal F)
  unfolding get_top_goal
  get_active_goal exp now c = elim c.last_active_goal_id [
    | none ↦ get_top_goal exp now c.goal_stack
    | some id ↦ elim (get String_discrete id c.goal_stack.goals) [
      | none ↦ get_top_goal exp now c.goal_stack
      | some g ↦ if has_status active g then some g else get_top_goal exp now c.goal_stack
    ]
  ]

-- InMemorySessionGoalStore
pub record GoalStore (F : Type 0) : Type 0 where
  pub sessions : OrderedDict String (SessionGoalContext F)
  pub traces : OrderedDict String (SessionGoalContext F)
  pub max_depth : ℕ
  pub decay_lambda : F

module _ {F : Type 0} where
  unfoldable pub get_or_create_session :
      String → F → GoalStore F → SessionGoalContext F × GoalStore F
  unfolding open_context
  get_or_create_session id now m = elim (get String_discrete id m.sessions) [
    | some c ↦ (c, m)
    | none ↦
        let c = open_context session id m.max_depth m.decay_lambda now in
        (c, record m { sessions = set String_discrete id c m.sessions })
  ]

  unfoldable pub get_or_create_trace : String → F → GoalStore F → SessionGoalContext F × GoalStore F
  unfolding open_context
  get_or_create_trace id now m = elim (get String_discrete id m.traces) [
    | some c ↦ (c, m)
    | none ↦
        let c = open_context trace id m.max_depth m.decay_lambda now in
        (c, record m { traces = set String_discrete id c m.traces })
  ]

  unfoldable pub delete_session : String → GoalStore F → Bool × GoalStore F
  delete_session id m = (
    is_some (get String_discrete id m.sessions),
    record m { sessions = delete String_discrete id m.sessions },
  )

  unfoldable pub delete_trace : String → GoalStore F → Bool × GoalStore F
  delete_trace id m = (
    is_some (get String_discrete id m.traces),
    record m { traces = delete String_discrete id m.traces },
  )

  abbrev pub list_sessions : GoalStore F → List String
  list_sessions m = keys m.sessions

  abbrev pub list_traces : GoalStore F → List String
  list_traces m = keys m.traces
