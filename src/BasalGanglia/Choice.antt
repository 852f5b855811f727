-- ===== src/BasalGanglia/Choice.antt =====
-- What the advisor chooses: its candidate is one of those given and fits the demand best, and the
-- validators accept every decision that it makes of a valid context.
use mathlib.Core.List.{Memᴰ}
use cortex_cognitive_runtime.Prelude.{
  ◌≤◌, ◌≡◌, ◌⊎◌, refl, Bool, true, false, Option, some, List, [], ◌∷◌, inr, String, arith, All,
  All-map, subst, sym,
}
use cortex_cognitive_runtime.Float.{Float64, ◌<=?◌, ◌<?◌, ratio, clamp_bounds}
use cortex_cognitive_runtime.Sorting.{sort_with-All, All-Mem, sort_with-leads, sort_with-cons}
use cortex_cognitive_runtime.BasalGanglia.Models.{
  CandidateType, ActionCandidate, ActionSelectionContext, PolicyConfig, in_unit,
}
use cortex_cognitive_runtime.BasalGanglia.Policy.{
  type_priority, before_by, confidence_of, score_of, scored, select_by, demand_of, select, unit,
}

module _ {F : Type 0} ⦃fl : Float64 F⦄ where
  -- A type of score sx and priority px is chosen over one of sy and py.
  abbrev pub Outranks : CandidateType → F → CandidateType → F → Type 0
  Outranks x sx y sy =
      (sy <=? sx ≡ true) × ((sy <? sx ≡ true) ⊎ (type_priority x ≤ type_priority y))

  abbrev Beats : ActionCandidate F × F → ActionCandidate F × F → Type 0
  Beats x y = Outranks x.0.candidate_type x.1 y.0.candidate_type y.1

  Beats-trans : (x y z : ActionCandidate F × F) → Beats x y → Beats y z → Beats x z
  Beats-trans x y z p q = ground (
    arith,
    p.0,
    p.1,
    q.0,
    q.1,
    fl.leb_trans z.1 y.1 x.1,
    fl.leb_trans x.1 z.1 y.1,
    fl.leb_trans y.1 x.1 z.1,
  )

  Beats-of_before :
      (id_lt : String → String → Bool) (x y : ActionCandidate F × F)
      → before_by id_lt x y ≡ true
      → Beats x y
  unfolding before_by
  Beats-of_before id_lt x y h = ground (arith, fl.leb_total x.1 y.1, fl.leb_total y.1 x.1)

  Beats-of_not_before :
      (id_lt : String → String → Bool) (x y : ActionCandidate F × F)
      → before_by id_lt y x ≡ false
      → Beats x y
  unfolding before_by
  Beats-of_not_before id_lt x y h = ground (arith, fl.leb_total x.1 y.1, fl.leb_total y.1 x.1)

  unit-in_unit : (x : F) → in_unit (unit x) ≡ true
  unfolding in_unit
  unit-in_unit x = ground (
    arith,
    clamp_bounds x (ratio 0 1) (ratio 1 1)
        (fl.ratio_mono 0 1 1 1 (omega arith) (omega arith) (omega arith)),
  )

  pub confidence_of-in_unit :
      (top : F) (rest : List (ActionCandidate F × F)) → in_unit (confidence_of top rest) ≡ true
  unfolding confidence_of
  confidence_of-in_unit top [] = unit-in_unit _
  confidence_of-in_unit top ((c, second) ∷ rest) = unit-in_unit _

  scored-All :
      (P : ActionCandidate F × F → Type 0) (demand : F) (cs : List (ActionCandidate F))
      → All (λ c. P (c, score_of demand c.candidate_type)) cs
      → All P (scored demand cs)
  scored-All P demand [] h = tt
  scored-All P demand (c ∷ cs) h = (h.0, scored-All P demand cs h.1)

  All-scored :
      (P : ActionCandidate F × F → Type 0) (demand : F) (cs : List (ActionCandidate F))
      → All P (scored demand cs)
      → All (λ c. P (c, score_of demand c.candidate_type)) cs
  All-scored P demand [] h = tt
  All-scored P demand (c ∷ cs) h = (h.0, All-scored P demand cs h.1)

  -- What the policy promises of its answer on a list of candidates.
  pub record IsChoice (demand : F) (candidates : List (ActionCandidate F))
      (answer : Option (ActionCandidate F)) (confidence : F) : Type 0 where
    pub chosen : ActionCandidate F
    pub answers : answer ≡ some chosen
    pub given : Memᴰ chosen candidates
    pub best :
        All
          (λ c.
            Outranks chosen.candidate_type
              (score_of demand chosen.candidate_type)
              c.candidate_type
              (score_of demand c.candidate_type))
          candidates
    pub confident : in_unit confidence ≡ true

  -- Of one candidate or more, the policy chooses one that was given: none has a greater score, and
  -- none of the same score a heavier type. Its confidence lies between 0 and 1.
  pub select_lem :
      (id_lt : String → String → Bool) (cfg : PolicyConfig F) (context : ActionSelectionContext F)
      (c : ActionCandidate F) (cs : List (ActionCandidate F))
      → IsChoice
          (demand_of cfg context).0
          (c ∷ cs)
          (select id_lt cfg context (c ∷ cs)).0
          (select id_lt cfg context (c ∷ cs)).1
  unfolding select select_by
  select_lem id_lt cfg context c cs =
      let items = scored demand (c ∷ cs) in
      let (h, hs, e) =
        sort_with-cons (before_by id_lt) (c, score_of demand c.candidate_type) (scored demand cs) in
      let held = sort_with-All (before_by id_lt) Known items (
        scored-All Known demand (c ∷ cs)
          (All-map (c ∷ cs) (λ x m. (refl, m)) (All-Mem (c ∷ cs)))) in
      let known : Known h = (subst (All Known) e held).0 in
      let leads : All (Beats h) items =
        sort_with-leads (before_by id_lt) Beats Beats-trans (Beats-of_before id_lt)
          (Beats-of_not_before id_lt) (λ x. (fl.leb_refl x.1, inr (omega arith))) items h hs e in
      subst
        (λ l.
          IsChoice demand (c ∷ cs) (select_by (demand_of cfg context) l).0
            (select_by (demand_of cfg context) l).1)
        (sym e)
        (record {
          chosen = h.0;
          answers = refl;
          given = known.1;
          best =
              All-scored
                (λ x.
                  Outranks h.0.candidate_type (score_of demand h.0.candidate_type)
                    x.0.candidate_type x.1)
                demand (c ∷ cs)
                (subst (λ s. All (λ x. Outranks h.0.candidate_type s x.0.candidate_type x.1) items)
                  known.0 leads);
          confident = confidence_of-in_unit h.1 hs;
        })
    where
      demand : F
      demand = (demand_of cfg context).0

      Known : ActionCandidate F × F → Type 0
      Known p = (p.1 ≡ score_of demand p.0.candidate_type) × Memᴰ p.0 (c ∷ cs)
