-- ===== src/Memory/GoalStack/Adding.antt =====
-- What `add` does to a stack: the bound, the goal that leaves, and the goals that stay.
use cortex_cognitive_runtime.Prelude.{
  ◌<◌, ◌≡◌, refl, sym, ◌∙◌, ◌≢◌, inl, inr, true, false, Option, none, some, List, [], ◌∷◌, arith,
  All, length, leb, String, String_discrete, Bool-cases, subst,
}
use cortex_cognitive_runtime.OrderedDict.{OrderedDict, get, set, delete, values}
use cortex_cognitive_runtime.OrderedDict.Laws.{
  get-set_self, get-set_ne, get-delete_ne, get-delete_self, set-IsDistinct, delete-IsDistinct,
  length-set_new, length-delete,
}
use cortex_cognitive_runtime.Float.{Float64}
use cortex_cognitive_runtime.Memory.Goal.{Goal}
use cortex_cognitive_runtime.Memory.GoalStack.{
  GoalStack, ok, effective_score, ranks_below, least, evict_from, add,
}
use cortex_cognitive_runtime.Memory.GoalStack.Eviction.{
  IsValid, Held, values-Held, set-IsKeyed, delete-IsKeyed, least-All, least_lem,
}

module _ {F : Type 0} ⦃fl : Float64 F⦄ (exp : F → F) (now : F) where
  abbrev score_in : GoalStack F → Goal F → F
  score_in s = effective_score exp s.decay_lambda now

  -- What `add` leaves of the goals of `s`: all of them while there is room, and otherwise all but a
  -- goal below which none ranks.
  abbrev pub Leaves : GoalStack F → Option (Goal F) → GoalStack F → String → Type 0
  Leaves s none s' new =
      (length s.goals < s.max_depth)
      × ((k : String) → k ≢ new → get String_discrete k s'.goals ≡ get String_discrete k s.goals)
  Leaves s (some victim) s' new =
      (length s.goals ≡ s.max_depth)
      × Held s.goals victim
      × All (λ x. ranks_below (score_in s) x victim ≡ false) (values s.goals)
      × (get String_discrete victim.goal_id s'.goals ≡ none)
      × ((k : String)
          → k ≢ new
          → k ≢ victim.goal_id
          → get String_discrete k s'.goals ≡ get String_discrete k s.goals)

  abbrev pub Added : GoalStack F → Goal F → Type 0
  Added s goal =
      (evicted : Option (Goal F)) × ((s' : GoalStack F) × (add exp now goal s ≡ ok (evicted, s'))
        × IsValid s'
        × Held s'.goals goal
        × Leaves s evicted s' goal.goal_id)

  with_room :
      (s : GoalStack F) (goal : Goal F)
      → IsValid s
      → get String_discrete goal.goal_id s.goals ≡ none
      → leb s.max_depth (length s.goals) ≡ false
      → Added s goal
  unfolding add
  with_room s goal v new room = (
    none,
    (
      record s { goals = set String_discrete goal.goal_id goal s.goals },
      rw (room, new) refl,
      record {
        room = v.room;
        bounded =
            ground (arith, length-set_new String_discrete goal.goal_id goal s.goals, v.bounded);
        distinct = set-IsDistinct String_discrete goal.goal_id goal s.goals v.distinct;
        keyed = set-IsKeyed goal.goal_id goal s.goals refl v.keyed;
      },
      get-set_self String_discrete goal.goal_id goal s.goals,
      (ground arith, λ k ne. get-set_ne String_discrete goal.goal_id k goal s.goals ne),
    ),
  )

  -- The goal that leaves a stack whose values are `g ∷ gs`.
  abbrev victim_of : GoalStack F → Goal F → List (Goal F) → Goal F
  victim_of s g gs = least (score_in s) g gs

  victim-Held :
      (s : GoalStack F) (g : Goal F) (gs : List (Goal F))
      → IsValid s
      → values s.goals ≡ g ∷ gs
      → Held s.goals (victim_of s g gs)
  victim-Held s g gs v e =
      let held = subst (All (Held s.goals)) e (values-Held s.goals v.distinct v.keyed) in
      least-All (score_in s) (Held s.goals) g gs held.0 held.1

  when_full :
      (s : GoalStack F) (goal : Goal F) (g : Goal F) (gs : List (Goal F))
      → IsValid s
      → get String_discrete goal.goal_id s.goals ≡ none
      → leb s.max_depth (length s.goals) ≡ true
      → values s.goals ≡ g ∷ gs
      → Added s goal
  unfolding add evict_from
  when_full s goal g gs v new full e =
      let victim = victim_of s g gs in
      let held : Held s.goals victim = victim-Held s g gs v e in
      let rest = delete String_discrete victim.goal_id s.goals in
      let shorter = length-delete String_discrete victim.goal_id victim s.goals held in
      let other : victim.goal_id ≢ goal.goal_id = λ same. cc in
      let gone : get String_discrete goal.goal_id rest ≡ none =
        get-delete_ne String_discrete victim.goal_id goal.goal_id s.goals (λ same. other (sym same))
        ∙ new in
      (
        some victim,
        (
          record s { goals = set String_discrete goal.goal_id goal rest },
          rw (full, new, e) refl,
          record {
            room = v.room;
            bounded = ground (
              arith,
              length-set_new String_discrete goal.goal_id goal rest gone,
              shorter,
              v.bounded,
            );
            distinct =
                set-IsDistinct String_discrete goal.goal_id goal rest
                  (delete-IsDistinct String_discrete victim.goal_id s.goals v.distinct);
            keyed =
                set-IsKeyed goal.goal_id goal rest refl
                  (delete-IsKeyed victim.goal_id s.goals v.keyed);
          },
          get-set_self String_discrete goal.goal_id goal rest,
          (
            ground (arith, v.bounded),
            held,
            subst (All (λ x. ranks_below (score_in s) x victim ≡ false)) (sym e)
                (least_lem (score_in s) g gs),
            get-set_ne String_discrete goal.goal_id victim.goal_id goal rest other
                ∙ get-delete_self String_discrete victim.goal_id s.goals v.distinct,
            λ k ne kept.
                get-set_ne String_discrete goal.goal_id k goal rest ne
                ∙ get-delete_ne String_discrete victim.goal_id k s.goals kept,
          ),
        ),
      )

  length-values_pos :
      (d : OrderedDict String (Goal F))
      → 0 < length d
      → (g : Goal F) × ((gs : List (Goal F)) × (values d ≡ g ∷ gs))
  length-values_pos [] pos = ground arith
  length-values_pos (e ∷ d) pos = (e.1, (values d, refl))

  -- A goal with a new id is always added to a valid stack, and the stack stays valid, so within its
  -- depth. With room every other goal stays as it is. Without room exactly one goal leaves, one
  -- below which no goal of the stack ranks, and every other goal stays as it is.
  pub add_lem :
      (s : GoalStack F) (goal : Goal F)
      → IsValid s
      → get String_discrete goal.goal_id s.goals ≡ none
      → Added s goal
  add_lem s goal v new = elim (Bool-cases (leb s.max_depth (length s.goals))) [
    | inr room ↦ with_room s goal v new room
    | inl full ↦
        let (g, (gs, e)) = length-values_pos s.goals (ground (arith, v.room)) in
        when_full s goal g gs v new full e
  ]
