-- ===== src/Memory/Goal.antt =====
-- app/memory/goal.py: a goal, and how one is made.
use cortex_cognitive_runtime.Prelude.{Option, none, some, String}
use cortex_cognitive_runtime.Float.{Float64, ratio}

pub data GoalStatus : Type 0 where
  active paused completed expired : GoalStatus

pub GoalStatus-discrete : Discrete GoalStatus
GoalStatus-discrete = hlevel

pub data GoalSource : Type 0 where
  user_explicit pfc_inferred system : GoalSource

pub record Goal (F : Type 0) : Type 0 where
  pub goal_id : String
  pub title : String
  pub category : Option String
  pub priority : F
  pub status : GoalStatus
  pub source : GoalSource
  pub created_at : F
  pub updated_at : F
  pub last_used_at : F
  pub source_trace_id : Option String
  pub session_id : Option String
  pub summary : Option String

module _ {F : Type 0} ⦃fl : Float64 F⦄ where
  -- `_DEFAULT_PRIORITIES`
  unfoldable pub default_priority : GoalSource → F
  default_priority user_explicit = ratio 8 10
  default_priority pfc_inferred = ratio 5 10
  default_priority system = ratio 3 10

  unfoldable pub effective_priority : Option F → GoalSource → F
  unfolding default_priority
  effective_priority none source = default_priority source
  effective_priority (some p) source = p

  -- `make_goal`: `now` is the clock's reading and `goal_id` the fresh id.
  unfoldable pub make_goal :
      String
      → GoalSource
      → Option String
      → Option String
      → Option F
      → Option String
      → Option String
      → F
      → String
      → Goal F
  unfolding effective_priority
  make_goal title source session_id trace_id priority category summary now goal_id = record {
    goal_id = goal_id;
    title = title;
    category = category;
    priority = effective_priority priority source;
    status = active;
    source = source;
    created_at = now;
    updated_at = now;
    last_used_at = now;
    source_trace_id = trace_id;
    session_id = session_id;
    summary = summary;
  }
