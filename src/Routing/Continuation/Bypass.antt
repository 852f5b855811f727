-- ===== src/Routing/Continuation/Bypass.antt =====
-- What a bypass stands on.
use text.Mathlib.Text.{◌==◌ as str_beq}
use cortex_cognitive_runtime.Prelude.{
  ℕ, ◌≡◌, refl, inl, inr, true, false, Option, none, some, String, String_discrete, arith,
  Option-cases, sym, subst, ap, ◌∙◌,
}
use cortex_cognitive_runtime.OrderedDict.{get}
use cortex_cognitive_runtime.Float.{Float64}
use cortex_cognitive_runtime.Memory.Goal.{Goal, GoalStatus-discrete, active}
use cortex_cognitive_runtime.Memory.GoalStack.{get_active, get_top_goal, list_by_status, sort_by}
use cortex_cognitive_runtime.Memory.GoalStack.Eviction.{IsValid, Held}
use cortex_cognitive_runtime.Memory.GoalStack.Updating.{get-IsKeyed}
use cortex_cognitive_runtime.Memory.GoalStack.Top.{get_top_goal_lem}
use cortex_cognitive_runtime.Memory.SessionContext.{
  GoalStore, SessionGoalContext, get_active_goal, get_or_create_session, open_context, session,
}
use cortex_cognitive_runtime.Routing.Continuation.{
  CueDetection, ContinuationDecision, decision_on, detect, detect_goal, is_continuation,
  snapshot_of,
}

module _ {F : Type 0} ⦃fl : Float64 F⦄ (exp : F → F) (now : F) where
  get_active_goal_lem :
      (c : SessionGoalContext F) (g : Goal F)
      → IsValid c.goal_stack
      → get_active_goal exp now c ≡ some g
      → Held c.goal_stack.goals g × (g.status ≡ active)
  unfolding get_active_goal
  get_active_goal_lem c g v e = elim (Option-cases c.last_active_goal_id) [
    | inl unset ↦ by_top (ground (arith, unset, e))
    | inr (id, last) ↦ elim (Option-cases (get String_discrete id c.goal_stack.goals)) [
      | inl gone ↦ by_top (ground (arith, last, gone, e))
      | inr (h, found) ↦ elim (GoalStatus-discrete h.status active) [
        | yes on ↦
            let same : h ≡ g = ground (arith, last, found, on, e) in
            subst (λ x. Held c.goal_stack.goals x × (x.status ≡ active)) same
              (
                subst (λ k. get String_discrete k c.goal_stack.goals ≡ some h)
                    (get-IsKeyed id c.goal_stack.goals {g = h} v.keyed found) found,
                on,
              )
        | no off ↦ by_top (ground (arith, last, found, off, e))
      ]
    ]
  ]
    where
      by_top :
          get_top_goal exp now c.goal_stack ≡ some g
          → Held c.goal_stack.goals g × (g.status ≡ active)
      by_top t = let (held, on, best) = get_top_goal_lem exp now c.goal_stack g v t in (held, on)

  detect_goal-known :
      (cue : CueDetection F) (id : String) (m : GoalStore F) (c : SessionGoalContext F)
      → get String_discrete id m.sessions ≡ some c
      → detect_goal exp now cue id m ≡ (decision_on cue (get_active_goal exp now c), m)
  unfolding detect_goal get_or_create_session
  detect_goal-known cue id m c known = ground (arith, known)

  get_active_goal-open_context :
      (id : String) (max_depth : ℕ) (decay_lambda : F)
      → get_active_goal exp now (open_context session id max_depth decay_lambda now) ≡ none
  unfolding get_active_goal open_context get_top_goal get_active list_by_status sort_by
  get_active_goal-open_context id max_depth decay_lambda = refl

  -- A session that was not known has no goal.
  detect_goal-unknown :
      (cue : CueDetection F) (id : String) (m : GoalStore F)
      → get String_discrete id m.sessions ≡ none
      → (detect_goal exp now cue id m).0.should_bypass ≡ false
  unfolding detect_goal get_or_create_session
  detect_goal-unknown cue id m unknown =
      ground (arith, unknown, get_active_goal-open_context id m.max_depth m.decay_lambda)

  detect-cued :
      (classify : String → Option (CueDetection F)) (query id : String) (m : GoalStore F)
      (cue : CueDetection F)
      → classify query ≡ some cue
      → str_beq id "" ≡ false
      → is_continuation cue.cue_type ≡ true
      → detect classify exp now query (some id) m ≡ detect_goal exp now cue id m
  unfolding detect
  detect-cued classify query id m cue cued named continues = ground (arith, cued, named, continues)

  detect_goal-bypass :
      (cue : CueDetection F) (id : String) (m : GoalStore F)
      → ((c : SessionGoalContext F)
          → get String_discrete id m.sessions ≡ some c
          → IsValid c.goal_stack)
      → (detect_goal exp now cue id m).0.should_bypass ≡ true
      → (c : SessionGoalContext F) × (g : Goal F) × (get String_discrete id m.sessions ≡ some c)
        × Held c.goal_stack.goals g
        × (g.status ≡ active)
        × ((detect_goal exp now cue id m).0.active_goal_snapshot ≡ some (snapshot_of cue g))
        × ((detect_goal exp now cue id m).1 ≡ m)
  detect_goal-bypass cue id m v e = elim (Option-cases (get String_discrete id m.sessions)) [
    | inl unknown ↦ let refused = detect_goal-unknown cue id m unknown in absurd (cc)
    | inr (c, known) ↦ elim (Option-cases (get_active_goal exp now c)) [
      | inl idle ↦ let p = detect_goal-known cue id m c known in absurd (ground (arith, p, idle, e))
      | inr (g, top) ↦
          let (held, on) = get_active_goal_lem c g (v c known) top in
          let p : detect_goal exp now cue id m ≡ (decision_on cue (some g), m) =
            detect_goal-known cue id m c known ∙ ap (λ o. (decision_on cue o, m)) top in
          (c, g, known, held, on, ap (λ r. r.0.active_goal_snapshot) p, ap (λ r. r.1) p)
    ]
  ]

  -- What is true of a bypass.
  pub record IsBypass (classify : String → Option (CueDetection F)) (query : String)
      (session : Option String) (m : GoalStore F) (r : ContinuationDecision F × GoalStore F)
      : Type 0 where
    pub cue : CueDetection F
    pub cued : classify query ≡ some cue
    pub continues : is_continuation cue.cue_type ≡ true
    pub id : String
    pub given : session ≡ some id
    pub named : str_beq id "" ≡ false
    pub context : SessionGoalContext F
    pub known : get String_discrete id m.sessions ≡ some context
    pub goal : Goal F
    pub held : Held context.goal_stack.goals goal
    pub on : goal.status ≡ active
    pub snapshot : r.0.active_goal_snapshot ≡ some (snapshot_of cue goal)
    pub unchanged : r.1 ≡ m

  -- With valid goal stacks in the store, the caches are bypassed only for a continuation cue in a
  -- named session that the store knows. The snapshot is of an active goal that the session holds,
  -- and the store stays as it was.
  pub detect_lem :
      (classify : String → Option (CueDetection F)) (query : String) (session : Option String)
      (m : GoalStore F)
      → ((id : String) (c : SessionGoalContext F)
          → get String_discrete id m.sessions ≡ some c
          → IsValid c.goal_stack)
      → (detect classify exp now query session m).0.should_bypass ≡ true
      → IsBypass classify query session m (detect classify exp now query session m)
  unfolding detect
  detect_lem classify query none m v e = elim (Option-cases (classify query)) [
    | inl raised ↦ absurd (ground (arith, raised, e))
    | inr (cue, cued) ↦ absurd (ground (arith, cued, e))
  ]
  detect_lem classify query (some id) m v e = elim (Option-cases (classify query)) [
    | inl raised ↦ absurd (ground (arith, raised, e))
    | inr (cue, cued) ↦
        let named : str_beq id "" ≡ false = ground (arith, cued, e) in
        let continues : is_continuation cue.cue_type ≡ true = ground (arith, cued, named, e) in
        let (c, g, known, held, on, snapshot, unchanged) =
          detect_goal-bypass cue id m (v id) (ground (arith, cued, named, continues, e)) in
        let p = detect-cued classify query id m cue cued named continues in
        subst (IsBypass classify query (some id) m) (sym p) (record {
          cue = cue;
          cued = cued;
          continues = continues;
          id = id;
          given = refl;
          named = named;
          context = c;
          known = known;
          goal = g;
          held = held;
          on = on;
          snapshot = snapshot;
          unchanged = unchanged;
        })
  ]
