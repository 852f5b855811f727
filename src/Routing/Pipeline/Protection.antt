-- ===== src/Routing/Pipeline/Protection.antt =====
-- What the chain of organs promises of the path of a request.
use cortex_cognitive_runtime.Prelude.{
  ◌+◌, ◌≤◌, ◌<◌, ◌≡◌, refl, sym, ap, ◌∙◌, ◌≢◌, ◌⊎◌, inl, inr, true, Option, none, some, arith, max,
  String, Option-cases, subst,
}
use cortex_cognitive_runtime.Float.{Float64, ◌<?◌}
use cortex_cognitive_runtime.Rpe.Cell.{Cell}
use cortex_cognitive_runtime.Rpe.WeightStore.{WeightStore}
use cortex_cognitive_runtime.Routing.Task.{
  Difficulty, RoutePath, RouteDecision, TaskContext, is_band, band_index, level, cell_of,
}
use cortex_cognitive_runtime.Routing.SkipRouter.{native_path, route}
use cortex_cognitive_runtime.Routing.Override.{Thresholds, override_by}
use cortex_cognitive_runtime.Routing.Override.OneBand.{override_by-is_band}
use cortex_cognitive_runtime.Routing.Ratchet
use cortex_cognitive_runtime.Routing.Override
use cortex_cognitive_runtime.Routing.Ratchet.{Ratchet, floor_of, floor_index, clamp_up}
use cortex_cognitive_runtime.Routing.Ratchet.Floors.{
  IsBounded, clamp_up_lem, clamp_up-keeps, SessionHeld, clamp_up-IsBounded,
}
use cortex_cognitive_runtime.Routing.Decay.{baseline_band}
use cortex_cognitive_runtime.Routing.Pipeline.{decide}

-- The baseline that the decay spares is the path that the skip router gives by itself.
pub baseline_band-level : (d : Difficulty) → baseline_band (level d) ≡ native_path d
unfolding baseline_band level native_path
baseline_band-level d = ground arith

native-is_band : (d : Difficulty) → is_band (native_path d) ≡ true
unfolding native_path is_band
native-is_band d = ground arith

ratchet-apply :
    {F : Type 0} (d : RouteDecision F) (t : TaskContext F) (session : Option String) (r : Ratchet)
    {c : Cell}
    → cell_of t session ≡ some c
    → is_band d.path ≡ true
    → Ratchet.apply d t session r ≡ clamp_up d c r
unfolding Ratchet.apply
ratchet-apply d t session r e b = rw (e, Ratchet.apply) (rw b refl)

module _ {S F : Type 0} ⦃fl : Float64 F⦄ ⦃w : WeightStore S F⦄ where
  override-apply :
      (h : Thresholds F) (d : RouteDecision F) (t : TaskContext F) (session : Option String) (s : S)
      {c : Cell}
      → cell_of t session ≡ some c
      → is_band d.path ≡ true
      → Override.apply h d t session s
        ≡ (override_by h d (w.read_weight c s).0, (w.read_weight c s).1)
  unfolding Override.apply
  override-apply h d t session s e b = rw (e, Override.apply) (rw b refl)

  module _ (h : Thresholds F) (t : TaskContext F) (session : Option String) (s : S) (r : Ratchet)
      {c : Cell} (e : cell_of t session ≡ some c) where
    -- The decision that reaches the ratchet.
    abbrev asked : RouteDecision F
    asked = override_by h (route t) (w.read_weight c s).0

    asked-is_band : is_band asked.path ≡ true
    asked-is_band = override_by-is_band h (route t) _ (unfold route in native-is_band t.difficulty)

    -- For a request with a cell, the chain is the clamp of the override of the native path.
    decide-clamp_up :
        decide h t session s r
        ≡ ((clamp_up asked c r).0, (w.read_weight c s).1, (clamp_up asked c r).1)
    unfolding decide
    decide-clamp_up = rw (
      override-apply h (route t) t session s e (unfold route in native-is_band t.difficulty),
      ratchet-apply asked t session r e asked-is_band,
    )

    asked_unlearned : w.peek c s ≡ none → asked.path ≡ native_path t.difficulty
    unfolding override_by route
    asked_unlearned u = rw (w.read-value c s ∙ u, override_by) refl

    asked_low :
        {v : F}
        → w.peek c s ≡ some v
        → v <? h.demote_below ≡ true
        → 0 < band_index (native_path t.difficulty)
        → band_index asked.path + 1 ≡ band_index (native_path t.difficulty)
    unfolding override_by route
    asked_low {v} learned low high = rw (w.read-value c s ∙ learned, override_by) (ground arith)

    floor_index-held :
        {p : RoutePath} → floor_of c r ≡ some p → floor_index (floor_of c r) ≡ band_index p
    unfolding floor_index
    floor_index-held held = rw (held, floor_index) refl

    floor_index-fresh : floor_of c r ≡ none → floor_index (floor_of c r) ≡ 0
    unfolding floor_index
    floor_index-fresh fresh = rw (fresh, floor_index) refl

    -- The path is the higher one of what was asked and the floor, and becomes the floor.
    pub decide_lem :
        (band_index (decide h t session s r).0.path
          ≡ max (band_index asked.path) (floor_index (floor_of c r)))
        × (floor_of c (decide h t session s r).2 ≡ some (decide h t session s r).0.path)
    decide_lem = rw decide-clamp_up (clamp_up_lem asked c r asked-is_band)

    -- An unlearned cell gets at least the path of its difficulty, and the floor to keep it.
    pub decide_unlearned :
        w.peek c s ≡ none
        → (band_index (native_path t.difficulty) ≤ band_index (decide h t session s r).0.path)
          × (floor_of c (decide h t session s r).2 ≡ some (decide h t session s r).0.path)
    decide_unlearned u =
        (omega (arith, decide_lem.0, ap band_index (asked_unlearned u)), decide_lem.1)

    -- The path of a request is not below the floor of its cell, whatever was learned, and is the
    -- cell's new floor.
    pub decide_protects :
        {p : RoutePath}
        → floor_of c r ≡ some p
        → (band_index p ≤ band_index (decide h t session s r).0.path)
          × (floor_of c (decide h t session s r).2 ≡ some (decide h t session s r).0.path)
    decide_protects {p} held = (omega (arith, decide_lem.0, floor_index-held held), decide_lem.1)

    -- Nothing protects the first request of a session on a cell whose learned weight is low: the
    -- override takes it one band below the path of its difficulty, and the ratchet stamps that path
    -- as the cell's floor.
    pub decide_first_demoted :
        {v : F}
        → floor_of c r ≡ none
        → w.peek c s ≡ some v
        → v <? h.demote_below ≡ true
        → 0 < band_index (native_path t.difficulty)
        → (band_index (decide h t session s r).0.path + 1 ≡ band_index (native_path t.difficulty))
          × (floor_of c (decide h t session s r).2 ≡ some (decide h t session s r).0.path)
    decide_first_demoted {v} fresh learned low high = (
      omega (arith, decide_lem.0, floor_index-fresh fresh, asked_low learned low high),
      decide_lem.1,
    )

module _ {S F : Type 0} ⦃fl : Float64 F⦄ ⦃w : WeightStore S F⦄ where
  -- The decision on a request leaves the floor of every other cell whose session is held after it.
  pub decide-keeps :
      (h : Thresholds F) (t : TaskContext F) (session : Option String) (s : S) (r : Ratchet)
      (j : Cell)
      → IsBounded r
      → cell_of t session ≢ some j
      → SessionHeld j (decide h t session s r).2
      → floor_of j (decide h t session s r).2 ≡ floor_of j r
  decide-keeps h t session s r j b other held = by_cell (Option-cases (cell_of t session))
    where
      by_cell :
          ((cell_of t session ≡ none) ⊎ ((c : Cell) × (cell_of t session ≡ some c)))
          → floor_of j (decide h t session s r).2 ≡ floor_of j r
      by_cell (inl e) =
          let same : (decide h t session s r).2 ≡ r =
            unfold decide Override.apply Ratchet.apply in
            rw (e, decide, Override.apply, Ratchet.apply) refl in
          ap (floor_of j) same
      by_cell (inr (c, e)) =
          let same = ap (λ x. x.2) (decide-clamp_up h t session s r e) in
          ap (floor_of j) same
          ∙ clamp_up-keeps (asked h t session s r e) c j r b (λ own. other (e ∙ ap some (sym own)))
              (subst (SessionHeld j) same held)

  pub decide-IsBounded :
      (h : Thresholds F) (t : TaskContext F) (session : Option String) (s : S) (r : Ratchet)
      → IsBounded r
      → IsBounded (decide h t session s r).2
  decide-IsBounded h t session s r b = by_cell (Option-cases (cell_of t session))
    where
      by_cell :
          ((cell_of t session ≡ none) ⊎ ((c : Cell) × (cell_of t session ≡ some c)))
          → IsBounded (decide h t session s r).2
      by_cell (inl e) =
          let same : (decide h t session s r).2 ≡ r =
            unfold decide Override.apply Ratchet.apply in
            rw (e, decide, Override.apply, Ratchet.apply) refl in
          rw same b
      by_cell (inr (c, e)) =
          rw (decide-clamp_up h t session s r e)
            (clamp_up-IsBounded (asked h t session s r e) c r b)
