-- ===== src/Routing/Continuation/Tests.antt =====
-- A request that continues the active goal of a session, and the instance of the theorem.
use cortex_cognitive_runtime.Prelude.{
  ◌≡◌, refl, true, Option, none, some, [], ◌∷◌, arith, String, String_discrete, dec_of_iff, subst,
}
use cortex_cognitive_runtime.Int.{ℤ, pos}
use cortex_cognitive_runtime.Float.Fixed.{thousandths}
use cortex_cognitive_runtime.OrderedDict.{get, set}
use cortex_cognitive_runtime.Memory.Goal.{Goal, active, user_explicit}
use cortex_cognitive_runtime.Memory.GoalStack.{get_top_goal, get_active, sort_by, list_by_status}
use cortex_cognitive_runtime.Memory.GoalStack.Eviction.{IsValid}
use cortex_cognitive_runtime.Memory.SessionContext.{
  GoalStore, SessionGoalContext, session, get_active_goal, get_or_create_session, open_context,
}
use cortex_cognitive_runtime.Routing.Continuation.{
  CueDetection, Language, continuation, detect, detect_goal, no_session_id, snapshot_of,
}
use cortex_cognitive_runtime.Routing.Continuation.Bypass.{IsBypass, detect_lem}

program : Unit {0}
unfolding String_discrete dec_of_iff get set get_active_goal get_or_create_session open_context
    get_top_goal get_active sort_by list_by_status detect_goal detect
program = tt

abbrev goal : Goal ℤ
goal = record {
  goal_id = "a";
  title = "write";
  category = some "writing";
  priority = pos 800;
  status = active;
  source = user_explicit;
  created_at = pos 0;
  updated_at = pos 0;
  last_used_at = pos 10;
  source_trace_id = none;
  session_id = some "s";
  summary = none;
}

abbrev context : SessionGoalContext ℤ
context = record {
  scope_id = "s";
  scope_type = session;
  goal_stack = record { goals = ("a", goal) ∷ []; max_depth = 2; decay_lambda = pos 1 };
  created_at = pos 0;
  updated_at = pos 0;
  last_active_goal_id = some "a";
}

abbrev store : GoalStore ℤ
store = record { sessions = ("s", context) ∷ []; traces = []; max_depth = 2; decay_lambda = pos 1 }

abbrev cue : CueDetection ℤ
cue = record {
  cue_type = continuation;
  language = Language.en;
  matched_keyword = some "continue";
  confidence = pos 900;
}

abbrev classify : String → Option (CueDetection ℤ)
classify query = some cue

abbrev flat : ℤ → ℤ
flat x = pos 1000

bypassed :
    (detect classify flat (pos 30) "continue" (some "s") store).0.active_goal_snapshot
    ≡ some (snapshot_of cue goal)
unfolding program
bypassed = ground arith

bypasses : (detect classify flat (pos 30) "continue" (some "s") store).0.should_bypass ≡ true
unfolding program
bypasses = ground arith

unnamed : (detect classify flat (pos 30) "continue" none store).0.reason ≡ no_session_id
unfolding program
unnamed = refl

-- A session that was not known is created, though nothing is bypassed.
created :
    get String_discrete "new"
      (detect classify flat (pos 30) "continue" (some "new") store).1.sessions
    ≡ some (open_context session "new" 2 (pos 1) (pos 30))
unfolding program
created = refl

context-IsValid : IsValid context.goal_stack
unfolding get
context-IsValid = record {
  room = omega arith;
  bounded = omega arith;
  distinct = (refl, tt);
  keyed = (refl, tt);
}

store-IsValid :
    (id : String) (c : SessionGoalContext ℤ)
    → get String_discrete id store.sessions ≡ some c
    → IsValid c.goal_stack
unfolding get
store-IsValid id c e = elim (String_discrete id "s") [
  | yes same ↦
      let found : context ≡ c = ground (arith, same, e) in
      subst (λ x. IsValid x.goal_stack) found context-IsValid
  | no other ↦ absurd (ground (arith, other, e))
]

detect_lem_example :
    IsBypass flat
      (pos 30)
      classify
      "continue"
      (some "s")
      store
      (detect classify flat (pos 30) "continue" (some "s") store)
detect_lem_example =
    detect_lem flat (pos 30) classify "continue" (some "s") store store-IsValid bypasses
