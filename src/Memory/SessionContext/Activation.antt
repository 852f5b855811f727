-- ===== src/Memory/SessionContext/Activation.antt =====
-- What `set_active` leaves of every goal of the stack.
use cortex_cognitive_runtime.Prelude.{
  ◌≡◌, refl, sym, ◌∙◌, ◌≢◌, inl, inr, Bool, true, false, Option, none, some, List, [], ◌∷◌, arith,
  All, All-map, select, String, String_discrete, Option-cases, is_some, subst, if◌then◌else◌, ite,
}
use cortex_cognitive_runtime.OrderedDict.{OrderedDict, get, values}
use cortex_cognitive_runtime.OrderedDict.Laws.{IsDistinct, get-set_self, get-set_ne}
use cortex_cognitive_runtime.Memory.Goal.{Goal, active, paused}
use cortex_cognitive_runtime.Memory.GoalStack.{
  GoalStack, ok, update_status, touch, list_by_status, has_status,
}
use cortex_cognitive_runtime.Memory.GoalStack.Eviction.{IsKeyed, IsValid, Held, values-Held}
use cortex_cognitive_runtime.Memory.GoalStack.Updating.{
  replaced, replaced-IsValid, update_status-found, touch-found,
}
use cortex_cognitive_runtime.Memory.SessionContext.{SessionGoalContext, pause_others, set_active}

module _ {F : Type 0} (goal_id : String) (now : F) where
  abbrev paused_at : Goal F → Goal F
  paused_at g = record g { status = paused; updated_at = now }

  abbrev pause_found : Option (Goal F) → Option (Goal F)
  pause_found none = none
  pause_found (some g) = some (paused_at g)

  -- Whether the list has a goal with this id.
  abbrev lists : String → List (Goal F) → Bool
  lists k [] = false
  lists k (g ∷ gs) = ite (String_discrete g.goal_id k) true (lists k gs)

  abbrev Stored : GoalStack F → Goal F → Type 0
  Stored s g = is_some (get String_discrete g.goal_id s.goals) ≡ true

  abbrev PausedFrom : List (Goal F) → GoalStack F → GoalStack F → Type 0
  PausedFrom gs s s' =
      IsValid s'
      × (get String_discrete goal_id s'.goals ≡ get String_discrete goal_id s.goals)
      × ((k : String)
          → k ≢ goal_id
          → get String_discrete k s'.goals ≡ (
              if lists k gs
              then pause_found (get String_discrete k s.goals)
              else get String_discrete k s.goals))

  replaced-Stored :
      (k : String) (g : Goal F) (s : GoalStack F) (h : Goal F)
      → Stored s h
      → Stored (replaced k g s) h
  replaced-Stored k g s h e = elim (String_discrete h.goal_id k) [
    | yes p ↦ rw (p, get-set_self String_discrete k g s.goals) refl
    | no n ↦ rw (get-set_ne String_discrete k h.goal_id g s.goals n) e
  ]

  pause_others-step :
      (g : Goal F) (gs : List (Goal F)) (s s1 : GoalStack F)
      → g.goal_id ≢ goal_id
      → update_status g.goal_id paused now s ≡ ok s1
      → pause_others goal_id now (g ∷ gs) s ≡ pause_others goal_id now gs s1
  unfolding pause_others
  pause_others-step g gs s s1 other e = ground (arith, e)

  pause_others_lem :
      (gs : List (Goal F)) (s : GoalStack F)
      → IsValid s
      → All (Stored s) gs
      → (s' : GoalStack F) × (pause_others goal_id now gs s ≡ ok s') × PausedFrom gs s s'
  unfolding pause_others
  pause_others_lem [] s v hs = (s, refl, (v, refl, λ k ne. refl))
  pause_others_lem (g ∷ gs) s v hs = elim (String_discrete g.goal_id goal_id) [
    | yes same ↦
        let (s', e, (v', kept, rest)) = pause_others_lem gs s v hs.1 in
        (s', ground arith, (v', kept, λ k ne. ground (arith, rest k ne)))
    | no other ↦ elim (Option-cases (get String_discrete g.goal_id s.goals)) [
      | inl missing ↦ ground arith
      | inr (old, found) ↦
          let s1 = replaced g.goal_id (paused_at old) s in
          let (s', e, (v', kept, rest)) =
            pause_others_lem gs s1 (replaced-IsValid g.goal_id old (paused_at old) s v found refl)
              (All-map gs (replaced-Stored g.goal_id (paused_at old) s) hs.1) in
          let stored = get-set_self String_discrete g.goal_id (paused_at old) s.goals in
          (
            s',
            pause_others-step g gs s s1 other (update_status-found g.goal_id paused now s found)
                ∙ e,
            (
              v',
              kept
                  ∙ get-set_ne String_discrete g.goal_id goal_id (paused_at old) s.goals
                      (λ x. other (sym x)),
              λ k ne. elim (String_discrete g.goal_id k) [
                | yes q ↦ ground (
                  arith,
                  rest k ne,
                  subst (λ x. get String_discrete x s1.goals ≡ some (paused_at old)) q stored,
                  subst (λ x. get String_discrete x s.goals ≡ some old) q found,
                )
                | no n ↦ ground (
                  arith,
                  rest k ne,
                  get-set_ne String_discrete g.goal_id k (paused_at old) s.goals,
                )
              ],
            ),
          )
    ]
  ]

  -- A goal is listed as active exactly if it stands in the stack with that status.
  lists-active :
      (k : String) (d : OrderedDict String (Goal F))
      → IsDistinct String_discrete d
      → IsKeyed d
      → lists k (select (has_status active) (values d))
        ≡ (elim (get String_discrete k d) [ none ↦ false | some g ↦ has_status active g ])
  unfolding get
  lists-active k [] u h = refl
  lists-active k (e ∷ d) u h = ground (arith, lists-active k d u.1 h.1)

  select-Stored :
      (d : OrderedDict String (Goal F)) (s : GoalStack F)
      → All (Held s.goals) (values d)
      → All (Stored s) (select (has_status active) (values d))
  select-Stored [] s h = tt
  select-Stored (e ∷ d) s h = ground (arith, select-Stored d s h.1)

  -- What becomes of the goal that stands under the id `k`.
  abbrev pub settled : String → Option (Goal F) → Option (Goal F)
  settled k none = none
  settled k (some g) = some (
      if ite (String_discrete k goal_id) true false
      then record g { status = active; last_used_at = now; updated_at = now }
      else if has_status active g
      then paused_at g
      else g)

  set_active-steps :
      (c : SessionGoalContext F) (g g2 : Goal F) (s1 s2 s3 : GoalStack F)
      → get String_discrete goal_id c.goal_stack.goals ≡ some g
      → pause_others goal_id now (list_by_status active c.goal_stack) c.goal_stack ≡ ok s1
      → update_status goal_id active now s1 ≡ ok s2
      → touch goal_id now s2 ≡ ok s3
      → set_active goal_id now c
        ≡ ok (record c { goal_stack = s3; last_active_goal_id = some goal_id; updated_at = now })
  unfolding set_active
  set_active-steps c g g2 s1 s2 s3 e run1 run2 run3 = rw (e, run1, run2, run3, set_active) refl

  -- `set_active` on a goal of a valid stack succeeds, and keeps the stack valid: that goal becomes
  -- active and just used, every other active goal is paused, and all other goals stay as they are.
  pub set_active_lem :
      (c : SessionGoalContext F) {g : Goal F}
      → IsValid c.goal_stack
      → get String_discrete goal_id c.goal_stack.goals ≡ some g
      → (c' : SessionGoalContext F) × (set_active goal_id now c ≡ ok c')
        × IsValid c'.goal_stack
        × (c'.last_active_goal_id ≡ some goal_id)
        × ((k : String)
            → get String_discrete k c'.goal_stack.goals
              ≡ settled k (get String_discrete k c.goal_stack.goals))
  unfolding list_by_status
  set_active_lem c {g = g} v e =
      let s = c.goal_stack in
      let listed = list_by_status active s in
      let (s1, run1, (v1, kept, rest)) =
        pause_others_lem listed s v
          (select-Stored s.goals s (values-Held s.goals v.distinct v.keyed)) in
      let e1 : get String_discrete goal_id s1.goals ≡ some g = kept ∙ e in
      let g2 : Goal F = record g { status = active; updated_at = now } in
      let s2 = replaced goal_id g2 s1 in
      let e2 : get String_discrete goal_id s2.goals ≡ some g2 =
        get-set_self String_discrete goal_id g2 s1.goals in
      let g3 : Goal F = record g2 { last_used_at = now; updated_at = now } in
      let s3 = replaced goal_id g3 s2 in
      (
        record c { goal_stack = s3; last_active_goal_id = some goal_id; updated_at = now },
        set_active-steps c g g2 s1 s2 s3 e run1 (update_status-found goal_id active now s1 e1)
            (touch-found goal_id now s2 e2),
        replaced-IsValid goal_id g2 g3 s2 (replaced-IsValid goal_id g g2 s1 v1 e1 refl) e2 refl,
        refl,
        λ k. elim (String_discrete k goal_id) [
          | yes p ↦
              subst
                (λ x. get String_discrete x s3.goals ≡ settled x (get String_discrete x s.goals))
                (sym p) (ground (arith, e, get-set_self String_discrete goal_id g3 s2.goals))
          | no n ↦ ground (
            arith,
            get-set_ne String_discrete goal_id k g3 s2.goals n,
            get-set_ne String_discrete goal_id k g2 s1.goals n,
            rest k n,
            lists-active k s.goals v.distinct v.keyed,
          )
        ],
      )
