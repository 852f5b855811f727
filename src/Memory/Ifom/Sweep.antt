-- ===== src/Memory/Ifom/Sweep.antt =====
-- The two loops of a cleanup: what they leave under every id.
use cortex_cognitive_runtime.Prelude.{
  ◌≡◌, refl, sym, ◌∙◌, inl, inr, Bool, true, false, Option, none, some, List, [], ◌∷◌, map, arith,
  All, All-map, String, String_discrete, Option-cases, is_some, subst, if◌then◌else◌, ite,
}
use cortex_cognitive_runtime.OrderedDict.{OrderedDict, get, delete, values}
use cortex_cognitive_runtime.OrderedDict.Laws.{
  IsDistinct, get-set_self, get-set_ne, get-delete_ne, get-delete_self,
}
use cortex_cognitive_runtime.Memory.Goal.{Goal, expired}
use cortex_cognitive_runtime.Memory.GoalStack.{GoalStack, ok, remove, update_status}
use cortex_cognitive_runtime.Memory.GoalStack.Eviction.{IsKeyed, IsValid}
use cortex_cognitive_runtime.Memory.GoalStack.Updating.{
  replaced, replaced-IsValid, update_status-found, remove-IsValid,
}
use cortex_cognitive_runtime.Memory.Ifom.{
  Action, mark_expired, remove_goal, IfomDecision, to_remove, to_expire, remove_all, expire_all,
}

-- Whether an id is in the list.
abbrev pub listed : String → List String → Bool
listed k [] = false
listed k (id ∷ ids) = ite (String_discrete id k) true (listed k ids)

listed-here : (k : String) (ids : List String) → listed k (k ∷ ids) ≡ true
listed-here k ids = ground arith

pub listed-All : (ids : List String) → All (λ id. listed id ids ≡ true) ids
listed-All [] = tt
listed-All (id ∷ ids) =
    (listed-here id ids, All-map ids (λ k h. ground (arith, h)) (listed-All ids))

abbrev pub removes : Action → Bool
removes remove_goal = true
removes _ = false

abbrev pub expires : Action → Bool
expires mark_expired = true
expires _ = false

module _ {F : Type 0} where
  pub get-remove_all :
      (ids : List String) (s : GoalStack F) (k : String)
      → IsValid s
      → get String_discrete k (remove_all ids s).goals
        ≡ (if listed k ids then none else get String_discrete k s.goals)
  unfolding remove_all remove
  get-remove_all [] s k v = refl
  get-remove_all (id ∷ ids) s k v =
      let rest = get-remove_all ids (remove id s).1 k (remove-IsValid id s v) in
      elim (String_discrete id k) [
        | yes p ↦ ground (
          arith,
          rest,
          subst (λ x. get String_discrete x (delete String_discrete id s.goals) ≡ none) p
              (get-delete_self String_discrete id s.goals v.distinct),
        )
        | no n ↦ ground (arith, rest, get-delete_ne String_discrete id k s.goals (λ e. n (sym e)))
      ]

  pub remove_all-IsValid :
      (ids : List String) (s : GoalStack F) → IsValid s → IsValid (remove_all ids s)
  unfolding remove_all
  remove_all-IsValid [] s v = v
  remove_all-IsValid (id ∷ ids) s v = remove_all-IsValid ids (remove id s).1 (remove-IsValid id s v)

module _ {F : Type 0} (clock : String → F) where
  -- The goal under the id `k` once it is marked.
  abbrev pub expired_at : String → Goal F → Goal F
  expired_at k g = record g { status = expired; updated_at = clock k }

  abbrev pub expire_found : String → Option (Goal F) → Option (Goal F)
  expire_found k none = none
  expire_found k (some g) = some (expired_at k g)

  abbrev pub Present : GoalStack F → String → Type 0
  Present s id = is_some (get String_discrete id s.goals) ≡ true

  replaced-Present :
      (k : String) (g : Goal F) (s : GoalStack F) (id : String)
      → Present s id
      → Present (replaced k g s) id
  replaced-Present k g s id e = elim (String_discrete id k) [
    | yes p ↦ rw (p, get-set_self String_discrete k g s.goals) refl
    | no n ↦ rw (get-set_ne String_discrete k id g s.goals n) e
  ]

  expire_all-step :
      (id : String) (ids : List String) (s s1 : GoalStack F)
      → update_status id expired (clock id) s ≡ ok s1
      → expire_all clock (id ∷ ids) s ≡ expire_all clock ids s1
  unfolding expire_all
  expire_all-step id ids s s1 e = rw (e, expire_all) refl

  -- If every id is present, the loop succeeds, and marks exactly the listed goals.
  pub expire_all_lem :
      (ids : List String) (s : GoalStack F)
      → IsValid s
      → All (Present s) ids
      → (s' : GoalStack F) × (expire_all clock ids s ≡ ok s')
        × IsValid s'
        × ((k : String)
            → get String_discrete k s'.goals ≡ (
                if listed k ids
                then expire_found k (get String_discrete k s.goals)
                else get String_discrete k s.goals))
  unfolding expire_all
  expire_all_lem [] s v hs = (s, refl, v, λ k. refl)
  expire_all_lem (id ∷ ids) s v hs = elim (Option-cases (get String_discrete id s.goals)) [
    | inl missing ↦ ground arith
    | inr (old, found) ↦
        let s1 = replaced id (expired_at id old) s in
        let (s', e, v', rest) =
          expire_all_lem ids s1 (replaced-IsValid id old (expired_at id old) s v found refl)
            (All-map ids (replaced-Present id (expired_at id old) s) hs.1) in
        let stored = get-set_self String_discrete id (expired_at id old) s.goals in
        (
          s',
          expire_all-step id ids s s1 (update_status-found id expired (clock id) s found) ∙ e,
          v',
          λ k. elim (String_discrete id k) [
            | yes q ↦ ground (
              arith,
              rest k,
              subst (λ x. get String_discrete x s1.goals ≡ some (expired_at id old)) q stored,
              subst (λ x. get String_discrete x s.goals ≡ some old) q found,
            )
            | no n ↦ ground (
              arith,
              rest k,
              get-set_ne String_discrete id k (expired_at id old) s.goals (λ x. n (sym x)),
            )
          ],
        )
  ]

module _ {F : Type 0} (verdict : Goal F → IfomDecision F)
    (named : (g : Goal F) → (verdict g).goal_id ≡ g.goal_id) where
  pub listed-to_remove :
      (d : OrderedDict String (Goal F)) (k : String)
      → IsDistinct String_discrete d
      → IsKeyed d
      → listed k (to_remove (map verdict (values d)))
        ≡ (elim (get String_discrete k d) [ none ↦ false | some g ↦ removes (verdict g).action ])
  unfolding get to_remove
  listed-to_remove [] k u h = refl
  listed-to_remove (e ∷ d) k u h = ground (arith, listed-to_remove d k u.1 h.1, named e.1)

  pub listed-to_expire :
      (d : OrderedDict String (Goal F)) (k : String)
      → IsDistinct String_discrete d
      → IsKeyed d
      → listed k (to_expire (map verdict (values d)))
        ≡ (elim (get String_discrete k d) [ none ↦ false | some g ↦ expires (verdict g).action ])
  unfolding get to_expire
  listed-to_expire [] k u h = refl
  listed-to_expire (e ∷ d) k u h = ground (arith, listed-to_expire d k u.1 h.1, named e.1)
