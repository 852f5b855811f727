-- ===== src/Routing/Pipeline/Sessions.antt =====
-- What holds of a cell over all the requests of a session, and of those of other sessions that are
-- served between them.
use cortex_cognitive_runtime.Prelude.{
  ◌≤◌, ◌<◌, ◌≡◌, refl, sym, ap, ◌∙◌, ◌≢◌, ◌⊎◌, inl, inr, Bool, true, false, Option, none, some,
  arith, String, Option-cases, subst,
}
use cortex_cognitive_runtime.Float.{Float64}
use cortex_cognitive_runtime.Rpe.Cell.{Cell, Cell_discrete}
use cortex_cognitive_runtime.Rpe.WeightStore.{WeightStore}
use cortex_cognitive_runtime.Routing.Task.{RouteDecision, TaskContext, band_index, cell_of}
use cortex_cognitive_runtime.Routing.Ratchet.{Ratchet, floor_of}
use cortex_cognitive_runtime.Routing.Ratchet.Floors.{IsBounded, SessionHeld}
use cortex_cognitive_runtime.Routing.Decay
use cortex_cognitive_runtime.Routing.Decay.{baseline_band}
use cortex_cognitive_runtime.Routing.Decay.Forgetting.{Protected, step-Protected, step-IsBounded}
use cortex_cognitive_runtime.Routing.Gate.{overlay, overlay_by}
use cortex_cognitive_runtime.BasalGanglia.Models.{CandidateType}
use cortex_cognitive_runtime.Routing.Pipeline.{
  ladder_index, bg_apply, stamp, Organs, decide, route_request,
}
use cortex_cognitive_runtime.Routing.Pipeline.Protection.{
  decide_protects, decide-keeps, decide-IsBounded,
}

module _ {F : Type 0} where
  -- The basal ganglia only promote: the path that leaves them is the one that entered, or a
  -- heavier band.
  pub bg_apply_promotes :
      (enabled : Bool) (selected : Option CandidateType) (t : TaskContext F) (d : RouteDecision F)
      → (bg_apply enabled selected t d ≡ (t, d))
        ⊎ ((band_index d.path ≤ band_index (bg_apply enabled selected t d).1.path)
            × (ladder_index d.path < ladder_index (bg_apply enabled selected t d).1.path)
            × ((bg_apply enabled selected t d).0 ≡ stamp (bg_apply enabled selected t d).1.path t))
  unfolding bg_apply band_index
  bg_apply_promotes enabled none t d = inl refl
  bg_apply_promotes enabled (some selected) t d = ground arith

  cell_of-overlay_by :
      (t : TaskContext F) (category : String) (v : Option F) (session : Option String)
      → cell_of (overlay_by t category v) session ≡ cell_of t session
  unfolding cell_of overlay_by
  cell_of-overlay_by t category none none = refl
  cell_of-overlay_by t category none (some s) = refl
  cell_of-overlay_by t category (some v) none = refl
  cell_of-overlay_by t category (some v) (some s) = refl

module _ {S F : Type 0} ⦃fl : Float64 F⦄ ⦃w : WeightStore S F⦄ where
  cell_of-overlay :
      (enabled : Bool) (t : TaskContext F) (session : Option String) (s : S)
      → cell_of (overlay enabled t session s).0 session ≡ cell_of t session
  cell_of-overlay false t session s = unfold overlay in refl
  cell_of-overlay true t session s = by_cell (Option-cases (cell_of t session))
    where
      by_cell :
          ((cell_of t session ≡ none) ⊎ ((c : Cell) × (cell_of t session ≡ some c)))
          → cell_of (overlay true t session s).0 session ≡ cell_of t session
      by_cell (inl e) =
          let same : (overlay true t session s).0 ≡ t = unfold overlay in rw (e, overlay) refl in
          ap (λ (u : TaskContext F). cell_of u session) same
      by_cell (inr (c, e)) =
          let same : (overlay true t session s).0 ≡ overlay_by t c.category (w.read_weight c s).0 =
            unfold overlay in rw (e, overlay) refl in
          ap (λ (u : TaskContext F). cell_of u session) same
          ∙ cell_of-overlay_by t c.category (w.read_weight c s).0 session

  module _ (t : TaskContext F) (session : Option String) (o : Organs S F) where
    -- The ratchet after the decay, and the context and the store after the gate.
    abbrev released : Ratchet
    released = (Decay.step t session o.decay o.store o.ratchet).2

    abbrev gated : TaskContext F × S
    gated = overlay o.gate_enabled t session (Decay.step t session o.decay o.store o.ratchet).1

    abbrev decided : RouteDecision F × S × Ratchet
    decided = decide o.thresholds gated.0 session gated.1 released

    abbrev served : TaskContext F × RouteDecision F × Organs S F
    served = route_request t session o

    served-ratchet : served.2.ratchet ≡ decided.2
    unfolding route_request
    served-ratchet = refl

    served-path : band_index decided.0.path ≤ band_index served.1.path
    unfolding route_request
    served-path =
        elim (bg_apply_promotes o.bg_enabled (o.advise (stamp decided.0.path gated.0))
          (stamp decided.0.path gated.0) decided.0) [
            | inl same ↦ rw same (omega arith)
            | inr (up, _, _) ↦ up
          ]

    -- A request whose cell has a floor at or above the baseline of its difficulty is served on a
    -- path at or above that baseline, whatever the weights, the decay and the basal ganglia say,
    -- and the floor of the cell stays at or above the baseline.
    pub route_request_protects :
        {c : Cell}
        → cell_of t session ≡ some c
        → Protected c o.ratchet
        → (band_index (baseline_band c.difficulty) ≤ band_index served.1.path)
          × Protected c served.2.ratchet
    route_request_protects {c} e h =
        let (p, held, above) = step-Protected t session o.decay o.store o.ratchet c h in
        let (up, stamped) =
          decide_protects o.thresholds gated.0 session gated.1 released
            (cell_of-overlay o.gate_enabled t session _ ∙ e) held in
        (omega (arith, served-path), rw served-ratchet (decided.0.path, stamped, omega arith))

    -- Every protected cell whose session is still held after a request is still protected.
    pub route_request_keeps :
        (j : Cell)
        → IsBounded o.ratchet
        → Protected j o.ratchet
        → SessionHeld j served.2.ratchet
        → Protected j served.2.ratchet
    route_request_keeps j b h held = by_cell (Option-cases (cell_of t session))
      where
        kept : cell_of t session ≢ some j → Protected j served.2.ratchet
        kept other =
            let (p, floor, above) = step-Protected t session o.decay o.store o.ratchet j h in
            let same : floor_of j decided.2 ≡ floor_of j released =
              decide-keeps o.thresholds gated.0 session gated.1 released j
                (step-IsBounded t session o.decay o.store o.ratchet b)
                (λ own. other (sym (cell_of-overlay o.gate_enabled t session _) ∙ own))
                (subst (SessionHeld j) served-ratchet held) in
            (p, ap (floor_of j) served-ratchet ∙ same ∙ floor, above)

        by_cell :
            ((cell_of t session ≡ none) ⊎ ((c : Cell) × (cell_of t session ≡ some c)))
            → Protected j served.2.ratchet
        by_cell (inl e) = kept (λ own. cc)
        by_cell (inr (c, e)) = elim (Cell_discrete c j) [
          | yes same ↦ (route_request_protects (e ∙ ap some same) h).1
          | no differ ↦ kept (λ own. differ (ground arith))
        ]

    pub route_request-IsBounded : IsBounded o.ratchet → IsBounded served.2.ratchet
    route_request-IsBounded b = rw served-ratchet (
        decide-IsBounded o.thresholds gated.0 session gated.1 released
          (step-IsBounded t session o.decay o.store o.ratchet b))

  -- The states that requests of any sessions lead to while the ratchet holds the session of `j`: it
  -- still has an entry after each of them.
  pub data Serves (j : Cell) (o : Organs S F) : Organs S F → Type 0 where
    here : Serves j o o
    next :
        {o' : Organs S F} (t : TaskContext F) (session : Option String)
        → Serves j o o'
        → SessionHeld j (route_request t session o').2.ratchet
        → Serves j o (route_request t session o').2

  Serves-Protected :
      {j : Cell} {o o' : Organs S F}
      → IsBounded o.ratchet
      → Protected j o.ratchet
      → Serves j o o'
      → IsBounded o'.ratchet × Protected j o'.ratchet
  Serves-Protected b h here = (b, h)
  Serves-Protected {j} b h (next {o'} t session r there) =
      let (b', h') = Serves-Protected b h r in
      (route_request-IsBounded t session o' b', route_request_keeps t session o' j b' h' there)

  -- Once a cell is protected, every later request on it is served at or above the baseline of its
  -- difficulty, for as long as the ratchet holds an entry of its session.
  pub session_protection :
      {j : Cell} {o o' : Organs S F} (t : TaskContext F) (session : Option String)
      → IsBounded o.ratchet
      → Protected j o.ratchet
      → Serves j o o'
      → cell_of t session ≡ some j
      → band_index (baseline_band j.difficulty) ≤ band_index (route_request t session o').1.path
  session_protection {o'} t session b h r e =
      (route_request_protects t session o' e (Serves-Protected b h r).1).0
