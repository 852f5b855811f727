-- ===== src/Memory/Tests.antt =====
-- Runs on a stack of two goals, and the instances of the theorems about goals.
use cortex_cognitive_runtime.Prelude.{
  All, true, ◌≡◌, refl, none, some, [], ◌∷◌, arith, String, String_discrete, dec_of_iff,
}
use cortex_cognitive_runtime.Int.{ℤ, pos}
use cortex_cognitive_runtime.Float.Fixed.{thousandths}
use cortex_cognitive_runtime.OrderedDict.{get}
use cortex_cognitive_runtime.Memory.Goal.{Goal, GoalStatus, active, completed, user_explicit}
use cortex_cognitive_runtime.Memory.GoalStack.{GoalStack, ok}
use cortex_cognitive_runtime.Memory.GoalStack.Eviction.{IsValid}
use cortex_cognitive_runtime.Memory.GoalStack.Adding.{Added, add_lem}
use cortex_cognitive_runtime.Memory.SessionContext.{SessionGoalContext, session, set_active}
use cortex_cognitive_runtime.Memory.SessionContext.Activation.{settled, set_active_lem}
use cortex_cognitive_runtime.Memory.Ifom.{IfomPolicy, decisions, cleanup_expired}
use cortex_cognitive_runtime.Memory.Ifom.Cleanup.{
  carried_out, cleanup_expired_lem, cleanup_expired_twice,
}
use cortex_cognitive_runtime.Float.{◌<=?◌}
use cortex_cognitive_runtime.Memory.GoalStack.{
  get_top_goal, get_active, sort_by, insert_by, list_by_status, effective_score,
}
use cortex_cognitive_runtime.Memory.GoalStack.Eviction.{Held}
use cortex_cognitive_runtime.Memory.GoalStack.Top.{get_top_goal_lem}

abbrev goal_of : String → GoalStatus → ℤ → Goal ℤ
goal_of id status used = record {
  goal_id = id;
  title = id;
  category = none;
  priority = pos 800;
  status = status;
  source = user_explicit;
  created_at = pos 0;
  updated_at = pos 0;
  last_used_at = used;
  source_trace_id = none;
  session_id = some "s";
  summary = none;
}

-- A full stack.
abbrev stack : GoalStack ℤ
stack = record {
  goals = ("a", goal_of "a" active (pos 10)) ∷ ("b", goal_of "b" completed (pos 20)) ∷ [];
  max_depth = 2;
  decay_lambda = pos 1;
}

abbrev context : SessionGoalContext ℤ
context = record {
  scope_id = "s";
  scope_type = session;
  goal_stack = stack;
  created_at = pos 0;
  updated_at = pos 0;
  last_active_goal_id = none;
}

abbrev flat : ℤ → ℤ
flat x = pos 1000

stack-IsValid : IsValid stack
unfolding get String_discrete dec_of_iff
stack-IsValid = record {
  room = omega arith;
  bounded = omega arith;
  distinct = (refl, (refl, tt));
  keyed = (refl, (refl, tt));
}

new_goal : get String_discrete "c" stack.goals ≡ none
unfolding get String_discrete dec_of_iff
new_goal = refl

add_lem_example : Added flat (pos 30) stack (goal_of "c" active (pos 30))
add_lem_example = add_lem flat (pos 30) stack (goal_of "c" active (pos 30)) stack-IsValid new_goal

old_goal : get String_discrete "b" stack.goals ≡ some (goal_of "b" completed (pos 20))
unfolding get String_discrete dec_of_iff
old_goal = refl

set_active_lem_example :
    (c' : SessionGoalContext ℤ) × (set_active "b" (pos 30) context ≡ ok c')
    × IsValid c'.goal_stack
    × (c'.last_active_goal_id ≡ some "b")
    × ((k : String)
        → get String_discrete k c'.goal_stack.goals
          ≡ settled "b" (pos 30) k (get String_discrete k stack.goals))
set_active_lem_example = set_active_lem "b" (pos 30) context stack-IsValid old_goal

abbrev policy : IfomPolicy ℤ
policy = record {
  config = record {
    active_ttl = pos 5;
    paused_ttl = pos 5;
    completed_ttl = pos 5;
    low_priority_ttl = pos 5;
    low_priority_threshold = pos 300;
  };
  resolver = none;
}

-- What the clock reads at the updates of a first and of a second cleanup.
abbrev readings : String → ℤ
readings k = pos 31

abbrev later_readings : String → ℤ
later_readings k = pos 45

cleanup_expired_lem_example :
    (c' : SessionGoalContext ℤ) × (cleanup_expired policy (pos 30) readings context
      ≡ ok (decisions policy (pos 30) stack, c'))
    × IsValid c'.goal_stack
    × ((k : String)
        → get String_discrete k c'.goal_stack.goals
          ≡ carried_out policy (pos 30) readings k (get String_discrete k stack.goals))
cleanup_expired_lem_example = cleanup_expired_lem policy (pos 30) readings context stack-IsValid

cleanup_expired_twice_example :
    (c' c'' : SessionGoalContext ℤ) × (cleanup_expired policy (pos 30) readings context
      ≡ ok (decisions policy (pos 30) stack, c'))
    × (cleanup_expired policy (pos 30) later_readings c'
        ≡ ok (decisions policy (pos 30) c'.goal_stack, c''))
    × ((k : String)
        → get String_discrete k c''.goal_stack.goals ≡ get String_discrete k c'.goal_stack.goals)
cleanup_expired_twice_example =
    cleanup_expired_twice policy (pos 30) readings later_readings context stack-IsValid

top_goal : get_top_goal flat (pos 30) stack ≡ some (goal_of "a" active (pos 10))
unfolding get_top_goal get_active sort_by insert_by list_by_status effective_score
top_goal = ground arith

get_top_goal_lem_example :
    Held stack.goals (goal_of "a" active (pos 10))
    × ((goal_of "a" active (pos 10)).status ≡ active)
    × All
        (λ x.
          effective_score flat stack.decay_lambda (pos 30) x
            <=? effective_score flat stack.decay_lambda (pos 30) (goal_of "a" active (pos 10))
          ≡ true)
        (list_by_status active stack)
get_top_goal_lem_example =
    get_top_goal_lem flat (pos 30) stack (goal_of "a" active (pos 10)) stack-IsValid top_goal
