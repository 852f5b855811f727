-- ===== src/Rpe/Selection/Winner.antt =====
-- The groups hold proposals of one trace and key, and the winner of a group is a confident one of it.
use cortex_cognitive_runtime.Prelude.{
  append-All, ◌≡◌, refl, inl, inr, Bool, true, false, some, List, [], ◌∷◌, ◌++◌, arith, All,
  Option-cases, subst, if◌then◌else◌,
}
use cortex_cognitive_runtime.OrderedDict.{OrderedDict, get, set}
use cortex_cognitive_runtime.Float.{Float64, ◌<=?◌}
use cortex_cognitive_runtime.Rpe.Cell.{CellKey}
use cortex_cognitive_runtime.Rpe.Proposal.{RpeProposal}
use cortex_cognitive_runtime.Rpe.Selection.{
  TraceKey, TraceKey_discrete, trace_key, into_group, group_from, goes_before, select_winner,
}

module _ {F : Type 0} where
  abbrev pub IsGrouped : OrderedDict TraceKey (List (RpeProposal CellKey F)) → Type 0
  IsGrouped = All (λ g. All (λ p. trace_key p ≡ g.0) g.1)

  set-IsGrouped :
      (k : TraceKey) (ps : List (RpeProposal CellKey F))
      (groups : OrderedDict TraceKey (List (RpeProposal CellKey F)))
      → All (λ q. trace_key q ≡ k) ps
      → IsGrouped groups
      → IsGrouped (set TraceKey_discrete k ps groups)
  unfolding set
  set-IsGrouped k ps [] h g = (h, tt)
  set-IsGrouped k ps (e ∷ groups) h g = elim (TraceKey_discrete e.0 k) [
    | yes p ↦ ground (arith, h, g.1)
    | no n ↦ ground (arith, g.0, set-IsGrouped k ps groups h g.1)
  ]

  get-IsGrouped :
      (k : TraceKey) (groups : OrderedDict TraceKey (List (RpeProposal CellKey F)))
      (ps : List (RpeProposal CellKey F))
      → IsGrouped groups
      → get TraceKey_discrete k groups ≡ some ps
      → All (λ q. trace_key q ≡ k) ps
  unfolding get
  get-IsGrouped k [] ps g e = cc
  get-IsGrouped k (x ∷ groups) ps g e = elim (TraceKey_discrete x.0 k) [
    | yes p ↦
        let same : x.1 ≡ ps = ground (arith, e) in
        subst (λ qs. All (λ q. trace_key q ≡ k) qs) same
          (subst (λ j. All (λ q. trace_key q ≡ j) x.1) p g.0)
    | no n ↦ get-IsGrouped k groups ps g.1 (ground (arith, e))
  ]

  pub group_from-IsGrouped :
      (groups : OrderedDict TraceKey (List (RpeProposal CellKey F)))
      (ps : List (RpeProposal CellKey F))
      → IsGrouped groups
      → IsGrouped (group_from groups ps)
  unfolding group_from into_group
  group_from-IsGrouped groups [] g = g
  group_from-IsGrouped groups (p ∷ ps) g =
      group_from-IsGrouped (into_group p groups) ps (with_one p groups g)
    where
      with_one :
          (p : RpeProposal CellKey F) (groups : OrderedDict TraceKey (List (RpeProposal CellKey F)))
          → IsGrouped groups
          → IsGrouped (into_group p groups)
      with_one p groups g = elim (Option-cases (get TraceKey_discrete (trace_key p) groups)) [
        | inl e ↦ rw (e, into_group) (set-IsGrouped (trace_key p) (p ∷ []) groups (refl, tt) g)
        | inr (qs, e) ↦
            rw (e, into_group)
              (set-IsGrouped (trace_key p) (qs ++ p ∷ []) groups
                (append-All (λ q. trace_key q ≡ trace_key p) qs (p ∷ [])
                  (get-IsGrouped (trace_key p) groups qs g e) (refl, tt))
                g)
      ]

module _ {F : Type 0} ⦃fl : Float64 F⦄ where
  -- Either of the two that the choice compares.
  pub select_winner-All {κ} :
      (P : RpeProposal CellKey F → Type κ) (best : RpeProposal CellKey F)
      (ps : List (RpeProposal CellKey F))
      → P best
      → All P ps
      → P (select_winner best ps)
  unfolding select_winner
  select_winner-All P best [] h hs = h
  select_winner-All P best (p ∷ ps) h hs =
      select_winner-All P (if goes_before p best then p else best) ps
        (either (goes_before p best) hs.0 h) hs.1
    where
      either : {p q : RpeProposal CellKey F} (b : Bool) → P p → P q → P (if b then p else q)
      either true h k = h
      either false h k = k

  choice-confident :
      (p best : RpeProposal CellKey F)
      → (p.confidence <=? (if goes_before p best then p else best).confidence ≡ true)
        × (best.confidence <=? (if goes_before p best then p else best).confidence ≡ true)
  unfolding goes_before
  choice-confident p best = (
    ground (
      arith,
      fl.leb_refl p.confidence,
      fl.leb_refl best.confidence,
      fl.leb_total best.confidence p.confidence,
    ),
    ground (
      arith,
      fl.leb_refl p.confidence,
      fl.leb_refl best.confidence,
      fl.leb_total p.confidence best.confidence,
    ),
  )

  winner-above :
      (x best : RpeProposal CellKey F) (ps : List (RpeProposal CellKey F))
      → x.confidence <=? best.confidence ≡ true
      → x.confidence <=? (select_winner best ps).confidence ≡ true
  unfolding select_winner
  winner-above x best [] h = h
  winner-above x best (p ∷ ps) h =
      let c = if goes_before p best then p else best in
      winner-above x c ps
        (fl.leb_trans x.confidence best.confidence c.confidence h (choice-confident p best).1)

  -- No proposal of a group is more confident than the one that is selected.
  pub select_winner_lem :
      (best : RpeProposal CellKey F) (ps : List (RpeProposal CellKey F))
      → All (λ p. p.confidence <=? (select_winner best ps).confidence ≡ true) (best ∷ ps)
  unfolding select_winner
  select_winner_lem best [] = (fl.leb_refl best.confidence, tt)
  select_winner_lem best (p ∷ ps) =
      let c = if goes_before p best then p else best in
      let both = choice-confident p best in
      (winner-above best c ps both.1, (winner-above p c ps both.0, (select_winner_lem c ps).1))
