-- ===== src/Memory/GoalStack.antt =====
-- app/memory/goal_stack.py: the goals of a session, bounded in number. Each clock reading is an
-- argument, and so is `exp`, the library's exponential.
pub mod Eviction
pub mod Adding
pub mod Updating
pub mod Top
use cortex_cognitive_runtime.Prelude.{
  ℕ, Bool, true, false, not, ◌&&◌, ◌||◌, Option, none, some, List, [], ◌∷◌, ◌==◌, ltb, leb, length,
  select, if◌then◌else◌, is_some, ite, String, String_discrete,
}
use cortex_cognitive_runtime.OrderedDict.{OrderedDict, get, set, delete, values}
use cortex_cognitive_runtime.Float.{Float64, ratio, sub, mul, neg, max_f, ◌<=?◌, ◌<?◌}
use cortex_cognitive_runtime.Memory.Goal.{
  Goal, GoalStatus, GoalStatus-discrete, active, paused, completed, expired,
}

pub record GoalStack (F : Type 0) : Type 0 where
  pub goals : OrderedDict String (Goal F)
  pub max_depth : ℕ
  pub decay_lambda : F

pub data StackError : Type 0 where
  already_exists not_found : StackError

-- What a method returns, or the error that it raises with the state unchanged.
pub data Outcome {ℓ} (A : Type ℓ) : Type ℓ where
  ok : A → Outcome A
  raise : StackError → Outcome A

-- `_STATUS_EVICTION_ORDER`
unfoldable pub eviction_order : GoalStatus → ℕ
eviction_order expired = 0
eviction_order completed = 1
eviction_order paused = 2
eviction_order active = 3

module _ {F : Type 0} ⦃fl : Float64 F⦄ where
  -- `_effective_score`
  unfoldable pub effective_score : (F → F) → F → F → Goal F → F
  effective_score exp decay_lambda now goal =
      mul goal.priority
        (exp (mul (neg decay_lambda) (max_f (ratio 0 1) (sub now goal.last_used_at))))

  -- `eviction_rank(a) < eviction_rank(b)`, tuples being compared from the left.
  unfoldable pub ranks_below : (Goal F → F) → Goal F → Goal F → Bool
  unfolding eviction_order
  ranks_below score a b =
      ltb (eviction_order a.status) (eviction_order b.status)
      || (eviction_order a.status == eviction_order b.status && score a <? score b)

  -- `min(..., key=...)`: the first of the least ones.
  unfoldable pub least : (Goal F → F) → Goal F → List (Goal F) → Goal F
  unfolding ranks_below
  least score best [] = best
  least score best (g ∷ gs) = least score (if ranks_below score g best then g else best) gs

  -- `_evict_one`: the goal that is removed, and the rest.
  unfoldable pub evict_from :
      (Goal F → F)
      → List (Goal F)
      → OrderedDict String (Goal F)
      → Option (Goal F) × OrderedDict String (Goal F)
  unfolding least
  evict_from score [] d = (none, d)
  evict_from score (g ∷ gs) d =
      let target = least score g gs in (some target, delete String_discrete target.goal_id d)

  -- `add`
  unfoldable pub add : (F → F) → F → Goal F → GoalStack F → Outcome (Option (Goal F) × GoalStack F)
  unfolding evict_from effective_score
  add exp now goal s =
      let score = effective_score exp s.decay_lambda now in
      let (evicted, rest) =
        if leb s.max_depth (length s.goals)
        then evict_from score (values s.goals) s.goals
        else (none, s.goals) in
      if is_some (get String_discrete goal.goal_id s.goals)
      then raise already_exists
      else ok (evicted, record s { goals = set String_discrete goal.goal_id goal rest })

module _ {F : Type 0} where
  -- `update(goal_id, status=...)`, the only change that the program makes by `update`.
  unfoldable pub update_status : String → GoalStatus → F → GoalStack F → Outcome (GoalStack F)
  update_status goal_id status now s = elim (get String_discrete goal_id s.goals) [
    | none ↦ raise not_found
    | some old ↦ ok (record s {
      goals =
          set String_discrete goal_id (record old { status = status; updated_at = now }) s.goals;
    })
  ]

  unfoldable pub touch : String → F → GoalStack F → Outcome (GoalStack F)
  touch goal_id now s = elim (get String_discrete goal_id s.goals) [
    | none ↦ raise not_found
    | some old ↦ ok (record s {
      goals =
          set String_discrete goal_id (record old { last_used_at = now; updated_at = now }) s.goals;
    })
  ]

  unfoldable pub remove : String → GoalStack F → Option (Goal F) × GoalStack F
  remove goal_id s = (
    get String_discrete goal_id s.goals,
    record s { goals = delete String_discrete goal_id s.goals },
  )

  abbrev pub list_all : GoalStack F → List (Goal F)
  list_all s = values s.goals

  abbrev pub has_status : GoalStatus → Goal F → Bool
  has_status status g = ite (GoalStatus-discrete g.status status) true false

  unfoldable pub list_by_status : GoalStatus → GoalStack F → List (Goal F)
  list_by_status status s = select (has_status status) (values s.goals)

module _ {F : Type 0} ⦃fl : Float64 F⦄ where
  -- `sorted(..., key=score, reverse=True)`, which is stable: a goal stands before those of equal
  -- score that it preceded.
  unfoldable pub insert_by : (Goal F → F) → Goal F → List (Goal F) → List (Goal F)
  insert_by score g [] = g ∷ []
  insert_by score g (h ∷ hs) = if score g <? score h then h ∷ insert_by score g hs else g ∷ h ∷ hs

  unfoldable pub sort_by : (Goal F → F) → List (Goal F) → List (Goal F)
  unfolding insert_by
  sort_by score [] = []
  sort_by score (g ∷ gs) = insert_by score g (sort_by score gs)

  unfoldable pub get_active : (F → F) → F → GoalStack F → List (Goal F)
  unfolding sort_by effective_score list_by_status
  get_active exp now s = sort_by (effective_score exp s.decay_lambda now) (list_by_status active s)

  unfoldable pub get_top_goal : (F → F) → F → GoalStack F → Option (Goal F)
  unfolding get_active
  get_top_goal exp now s = elim (get_active exp now s) [ [] ↦ none | g ∷ gs ↦ some g ]
