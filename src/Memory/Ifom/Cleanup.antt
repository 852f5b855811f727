-- ===== src/Memory/Ifom/Cleanup.antt =====
-- What a cleanup leaves of every goal, and that cleaning twice is cleaning once.
use cortex_cognitive_runtime.Prelude.{
  ◌≡◌, refl, sym, ap, ◌∙◌, false, Option, none, some, List, [], ◌∷◌, arith, All, All-map, String,
  String_discrete,
}
use cortex_cognitive_runtime.OrderedDict.{get}
use cortex_cognitive_runtime.Float.{Float64}
use cortex_cognitive_runtime.Memory.Goal.{Goal}
use cortex_cognitive_runtime.Memory.GoalStack.{GoalStack, ok}
use cortex_cognitive_runtime.Memory.GoalStack.Eviction.{IsValid}
use cortex_cognitive_runtime.Memory.SessionContext.{SessionGoalContext}
use cortex_cognitive_runtime.Memory.Ifom.{
  IfomPolicy, keep, mark_expired, remove_goal, evaluate_goal, judge, decisions, to_remove,
  to_expire, remove_all, stamp_context, cleanup_expired,
}
use cortex_cognitive_runtime.Memory.Ifom.Sweep.{
  listed, listed-All, removes, expires, expired_at, Present, get-remove_all, remove_all-IsValid,
  expire_all_lem, listed-to_remove, listed-to_expire,
}

module _ {F : Type 0} ⦃fl : Float64 F⦄ (p : IfomPolicy F) (now : F) (clock : String → F) where
  -- What the decision about a goal makes of it.
  abbrev pub carried_out : String → Option (Goal F) → Option (Goal F)
  carried_out k none = none
  carried_out k (some g) = elim (evaluate_goal p now g).action [
    | keep ↦ some g
    | mark_expired ↦ some (expired_at clock k g)
    | remove_goal ↦ none
  ]

  named : (g : Goal F) → (evaluate_goal p now g).goal_id ≡ g.goal_id
  unfolding evaluate_goal
  named g = refl

  removal :
      (s : GoalStack F) (k : String)
      → IsValid s
      → listed k (to_remove (decisions p now s)) ≡ (elim (get String_discrete k s.goals) [
        | none ↦ false
        | some g ↦ removes (evaluate_goal p now g).action
      ])
  removal s k v = listed-to_remove (evaluate_goal p now) named s.goals k v.distinct v.keyed

  expiry :
      (s : GoalStack F) (k : String)
      → IsValid s
      → listed k (to_expire (decisions p now s)) ≡ (elim (get String_discrete k s.goals) [
        | none ↦ false
        | some g ↦ expires (evaluate_goal p now g).action
      ])
  expiry s k v = listed-to_expire (evaluate_goal p now) named s.goals k v.distinct v.keyed

  -- No goal is both removed and marked, so the marking finds all its goals.
  marked-Present :
      (s : GoalStack F)
      → IsValid s
      → All
          (Present clock (remove_all (to_remove (decisions p now s)) s))
          (to_expire (decisions p now s))
  marked-Present s v =
      All-map (to_expire (decisions p now s))
        (λ k h. ground (
          arith,
          h,
          expiry s k v,
          removal s k v,
          get-remove_all (to_remove (decisions p now s)) s k v,
        ))
        (listed-All (to_expire (decisions p now s)))

  stamp_context-stack :
      (rs es : List String) (s : GoalStack F) (c : SessionGoalContext F)
      → (stamp_context rs es now s c).goal_stack ≡ s
  unfolding stamp_context
  stamp_context-stack [] [] s c = refl
  stamp_context-stack [] (e ∷ es) s c = refl
  stamp_context-stack (r ∷ rs) es s c = refl

  -- A cleanup of a valid stack never raises and keeps the stack valid. It reports the decision about
  -- every goal, and each goal is kept as it is, marked as expired at the clock's reading for its id, or
  -- removed, as its own decision says.
  pub cleanup_expired_lem :
      (c : SessionGoalContext F)
      → IsValid c.goal_stack
      → (c' : SessionGoalContext F) × (cleanup_expired p now clock c
          ≡ ok (decisions p now c.goal_stack, c'))
        × IsValid c'.goal_stack
        × ((k : String)
            → get String_discrete k c'.goal_stack.goals
              ≡ carried_out k (get String_discrete k c.goal_stack.goals))
  unfolding cleanup_expired
  cleanup_expired_lem c v =
      let s = c.goal_stack in
      let ds = decisions p now s in
      let (s', e, v', rest) =
        expire_all_lem clock (to_expire ds) (remove_all (to_remove ds) s)
          (remove_all-IsValid (to_remove ds) s v) (marked-Present s v) in
      let same = stamp_context-stack (to_remove ds) (to_expire ds) s' c in
      (
        stamp_context (to_remove ds) (to_expire ds) now s' c,
        rw (e, cleanup_expired) refl,
        rw same v',
        λ k. rw same (
            ground
              (arith, rest k, get-remove_all (to_remove ds) s k v, removal s k v, expiry s k v)),
      )

module _ {F : Type 0} ⦃fl : Float64 F⦄ (p : IfomPolicy F) (now : F) where
  -- A goal that is marked is kept from then on.
  evaluate_goal-expired :
      (clock : String → F) (k : String) (g : Goal F)
      → (evaluate_goal p now (expired_at clock k g)).action ≡ keep
  unfolding evaluate_goal judge
  evaluate_goal-expired clock k g = refl

  carried_out-twice :
      (clock again : String → F) (k : String) (g : Option (Goal F))
      → carried_out p now again k (carried_out p now clock k g) ≡ carried_out p now clock k g
  carried_out-twice clock again k none = refl
  carried_out-twice clock again k (some g) = ground (arith, evaluate_goal-expired clock k g)

  -- A second cleanup that judges by the same moment leaves every goal as the first one did, its
  -- stamps included, whatever the clock reads at the second one's updates.
  pub cleanup_expired_twice :
      (clock again : String → F) (c : SessionGoalContext F)
      → IsValid c.goal_stack
      → (c' c'' : SessionGoalContext F) × (cleanup_expired p now clock c
          ≡ ok (decisions p now c.goal_stack, c'))
        × (cleanup_expired p now again c' ≡ ok (decisions p now c'.goal_stack, c''))
        × ((k : String)
            → get String_discrete k c''.goal_stack.goals
              ≡ get String_discrete k c'.goal_stack.goals)
  cleanup_expired_twice clock again c v =
      let (c', e, v', kept) = cleanup_expired_lem p now clock c v in
      let (c'', e', v'', kept') = cleanup_expired_lem p now again c' v' in
      (
        c',
        c'',
        e,
        e',
        λ k.
            kept' k
            ∙ ap (carried_out p now again k) (kept k)
            ∙ carried_out-twice clock again k (get String_discrete k c.goal_stack.goals)
            ∙ sym (kept k),
      )
