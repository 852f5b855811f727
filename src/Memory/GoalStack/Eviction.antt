-- ===== src/Memory/GoalStack/Eviction.antt =====
-- Which goal leaves a full stack, and what stays.
use cortex_cognitive_runtime.Prelude.{
  ◌≤◌, ◌<◌, ◌≡◌, refl, sym, inl, inr, true, false, none, some, List, [], ◌∷◌, arith, All, All-map,
  length, String, String_discrete, Bool-cases, subst,
}
use cortex_cognitive_runtime.OrderedDict.{OrderedDict, get, set, delete, values}
use cortex_cognitive_runtime.OrderedDict.Laws.{IsDistinct}
use cortex_cognitive_runtime.Float.{Float64}
use cortex_cognitive_runtime.Memory.Goal.{Goal}
use cortex_cognitive_runtime.Memory.GoalStack.{GoalStack, ranks_below, least}

module _ {F : Type 0} where
  -- Every goal is held under its own id.
  abbrev pub IsKeyed : OrderedDict String (Goal F) → Type 0
  IsKeyed = All (λ e. e.0 ≡ e.1.goal_id)

  pub record IsValid (s : GoalStack F) : Type 0 where
    pub room : 0 < s.max_depth
    pub bounded : length s.goals ≤ s.max_depth
    pub distinct : IsDistinct String_discrete s.goals
    pub keyed : IsKeyed s.goals

  abbrev pub Held : OrderedDict String (Goal F) → Goal F → Type 0
  Held d g = get String_discrete g.goal_id d ≡ some g

  Held-later :
      (k : String) (v : Goal F) (d : OrderedDict String (Goal F)) (g : Goal F)
      → get String_discrete k d ≡ none
      → Held d g
      → Held ((k, v) ∷ d) g
  unfolding get
  Held-later k v d g new h = ground arith

  -- Every value of the dictionary is found under its id.
  pub values-Held :
      (d : OrderedDict String (Goal F))
      → IsDistinct String_discrete d
      → IsKeyed d
      → All (Held d) (values d)
  unfolding get
  values-Held [] u k = tt
  values-Held (e ∷ d) u k = (
    ground arith,
    All-map (values d) (λ g h. Held-later e.0 e.1 d g u.0 h) (values-Held d u.1 k.1),
  )

  pub set-IsKeyed :
      (k : String) (g : Goal F) (d : OrderedDict String (Goal F))
      → k ≡ g.goal_id
      → IsKeyed d
      → IsKeyed (set String_discrete k g d)
  unfolding set
  set-IsKeyed k g [] e h = (e, tt)
  set-IsKeyed k g (x ∷ d) e h = ground (arith, set-IsKeyed k g d e h.1)

  pub delete-IsKeyed :
      (k : String) (d : OrderedDict String (Goal F))
      → IsKeyed d
      → IsKeyed (delete String_discrete k d)
  unfolding delete
  delete-IsKeyed k [] h = tt
  delete-IsKeyed k (x ∷ d) h = ground (arith, delete-IsKeyed k d h.1)

module _ {F : Type 0} ⦃fl : Float64 F⦄ (score : Goal F → F) where
  ranks_below_irrefl : (g : Goal F) → ranks_below score g g ≡ false
  unfolding ranks_below
  ranks_below_irrefl g = ground (arith, fl.leb_refl (score g))

  ranks_below_trans :
      (a b c : Goal F)
      → ranks_below score a b ≡ true
      → ranks_below score b c ≡ true
      → ranks_below score a c ≡ true
  unfolding ranks_below
  ranks_below_trans a b c p q =
      ground (arith, fl.leb_total (score b) (score a), fl.leb_trans (score c) (score a) (score b))

  least-here :
      (best g : Goal F) (gs : List (Goal F))
      → ranks_below score g best ≡ true
      → least score best (g ∷ gs) ≡ least score g gs
  unfolding least
  least-here best g gs below = rw (below, least) refl

  least-there :
      (best g : Goal F) (gs : List (Goal F))
      → ranks_below score g best ≡ false
      → least score best (g ∷ gs) ≡ least score best gs
  unfolding least
  least-there best g gs above = rw (above, least) refl

  pub least-All {κ} :
      (P : Goal F → Type κ) (best : Goal F) (gs : List (Goal F))
      → P best
      → All P gs
      → P (least score best gs)
  unfolding least
  least-All P best [] h hs = h
  least-All P best (g ∷ gs) h hs = elim (Bool-cases (ranks_below score g best)) [
    | inl below ↦ subst P (sym (least-here best g gs below)) (least-All P g gs hs.0 hs.1)
    | inr above ↦ subst P (sym (least-there best g gs above)) (least-All P best gs h hs.1)
  ]

  -- A goal that does not rank below some goal does not rank below the least one either.
  pub least-below :
      (x best : Goal F) (gs : List (Goal F))
      → ranks_below score x best ≡ false
      → ranks_below score x (least score best gs) ≡ false
  unfolding least
  least-below x best [] h = h
  least-below x best (g ∷ gs) h = elim (Bool-cases (ranks_below score g best)) [
    | inl below ↦
        rw (below, least) (least-below x g gs (ground (arith, ranks_below_trans x g best)))
    | inr above ↦ rw (above, least) (least-below x best gs h)
  ]

  -- No goal ranks below the one that `min` picks.
  pub least_lem :
      (best : Goal F) (gs : List (Goal F))
      → All (λ x. ranks_below score x (least score best gs) ≡ false) (best ∷ gs)
  unfolding least
  least_lem best [] = (ranks_below_irrefl best, tt)
  least_lem best (g ∷ gs) = elim (Bool-cases (ranks_below score g best)) [
    | inl below ↦
        subst (λ m. All (λ x. ranks_below score x m ≡ false) (best ∷ g ∷ gs))
          (sym (least-here best g gs below))
          (
            least-below best g gs
                (ground (arith, ranks_below_trans best g best, ranks_below_irrefl best)),
            least_lem g gs,
          )
    | inr above ↦
        subst (λ m. All (λ x. ranks_below score x m ≡ false) (best ∷ g ∷ gs))
          (sym (least-there best g gs above))
          ((least_lem best gs).0, (least-below g best gs above, (least_lem best gs).1))
  ]
