-- ===== src/Memory/GoalStack/Top.antt =====
-- The goal that `get_top_goal` answers with.
use cortex_cognitive_runtime.Prelude.{
  ◌≡◌, refl, inl, inr, true, some, List, [], ◌∷◌, arith, All, All-map, Bool-cases, select, ap, sym,
  subst, none,
}
use cortex_cognitive_runtime.OrderedDict.{values}
use cortex_cognitive_runtime.Float.{Float64, ◌<=?◌, ◌<?◌}
use cortex_cognitive_runtime.Memory.Goal.{Goal, GoalStatus-discrete, active}
use cortex_cognitive_runtime.Memory.GoalStack.{
  GoalStack, effective_score, has_status, list_by_status, insert_by, sort_by, get_active,
  get_top_goal,
}
use cortex_cognitive_runtime.Memory.GoalStack.Eviction.{IsValid, Held, values-Held}

module _ {F : Type 0} ⦃fl : Float64 F⦄ (score : Goal F → F) where
  -- The head of the list, if there is one, is bounded below by every goal of `gs`.
  abbrev Heads : List (Goal F) → List (Goal F) → Type 0
  Heads [] gs = gs ≡ []
  Heads (h ∷ hs) gs = All (λ x. score x <=? score h ≡ true) gs

  insert_by-Heads :
      (g : Goal F) (sorted gs : List (Goal F))
      → Heads sorted gs
      → Heads (insert_by score g sorted) (g ∷ gs)
  unfolding insert_by
  insert_by-Heads g [] gs h =
      subst (All (λ x. score x <=? score g ≡ true)) (ap (λ l. g ∷ l) (sym h))
        (fl.leb_refl (score g), tt)
  insert_by-Heads g (h ∷ hs) gs below = elim (Bool-cases (score g <? score h)) [
    | inl lower ↦ rw (lower, insert_by) (ground (arith, fl.leb_total (score h) (score g)), below)
    | inr above ↦
        rw (above, insert_by)
          (
            fl.leb_refl (score g),
            All-map gs (λ x le. fl.leb_trans (score x) (score h) (score g) le (ground arith)) below,
          )
  ]

  pub sort_by-Heads : (gs : List (Goal F)) → Heads (sort_by score gs) gs
  unfolding sort_by
  sort_by-Heads [] = refl
  sort_by-Heads (g ∷ gs) = insert_by-Heads g (sort_by score gs) gs (sort_by-Heads gs)

  insert_by-All {κ} :
      (P : Goal F → Type κ) (g : Goal F) (gs : List (Goal F))
      → P g
      → All P gs
      → All P (insert_by score g gs)
  unfolding insert_by
  insert_by-All P g [] h hs = (h, tt)
  insert_by-All P g (x ∷ gs) h hs = elim (Bool-cases (score g <? score x)) [
    | inl lower ↦ rw (lower, insert_by) (hs.0, insert_by-All P g gs h hs.1)
    | inr above ↦ rw (above, insert_by) (h, hs)
  ]

  pub sort_by-All {κ} :
      (P : Goal F → Type κ) (gs : List (Goal F)) → All P gs → All P (sort_by score gs)
  unfolding sort_by
  sort_by-All P [] h = tt
  sort_by-All P (g ∷ gs) h = insert_by-All P g (sort_by score gs) h.0 (sort_by-All P gs h.1)

select-All {κ} :
    {F : Type 0} (P : Goal F → Type κ) (gs : List (Goal F))
    → All P gs
    → All (λ g. P g × (g.status ≡ active)) (select (has_status active) gs)
select-All P [] h = tt
select-All P (g ∷ gs) h = elim (GoalStatus-discrete g.status active) [
  | yes p ↦ ground (arith, h.0, p, select-All P gs h.1)
  | no n ↦ ground (arith, select-All P gs h.1)
]

module _ {F : Type 0} ⦃fl : Float64 F⦄ (exp : F → F) (now : F) where
  -- The top goal of a valid stack, if there is one, is held by the stack and active, and no active
  -- goal has a greater score.
  pub get_top_goal_lem :
      (s : GoalStack F) (g : Goal F)
      → IsValid s
      → get_top_goal exp now s ≡ some g
      → Held s.goals g
        × (g.status ≡ active)
        × All
            (λ x.
              effective_score exp s.decay_lambda now x <=? effective_score exp s.decay_lambda now g
              ≡ true)
            (list_by_status active s)
  unfolding get_top_goal get_active list_by_status
  get_top_goal_lem s g v e =
      by_head (sort_by score gs) (sort_by-Heads score gs)
        (sort_by-All score (λ x. Held s.goals x × (x.status ≡ active)) gs
          (select-All (Held s.goals) (values s.goals) (values-Held s.goals v.distinct v.keyed)))
        e
    where
      score : Goal F → F
      score = effective_score exp s.decay_lambda now

      gs : List (Goal F)
      gs = select (has_status active) (values s.goals)

      by_head :
          (sorted : List (Goal F))
          → Heads score sorted gs
          → All (λ x. Held s.goals x × (x.status ≡ active)) sorted
          → (elim sorted [ [] ↦ none | h ∷ hs ↦ some h ]) ≡ some g
          → Held s.goals g × (g.status ≡ active) × All (λ x. score x <=? score g ≡ true) gs
      by_head [] heads held found = cc
      by_head (h ∷ hs) heads held found =
          let same : h ≡ g = ground arith in
          subst
            (λ k. Held s.goals k × (k.status ≡ active) × All (λ x. score x <=? score k ≡ true) gs)
            same (held.0.0, held.0.1, heads)
