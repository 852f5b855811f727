-- ===== src/Routing/Decay.antt =====
-- app/routing/routing_decay.py: an idle cell forgets, lazily, when it becomes current again.
pub mod Forgetting
use cortex_cognitive_runtime.Prelude.{
  ℕ, ◌+◌, ◌-◌, Bool, true, false, Option, none, some, [], ◌==◌, leb, if◌then◌else◌, String,
  String_discrete,
}
use cortex_cognitive_runtime.OrderedDict.{OrderedDict, get, set}
use cortex_cognitive_runtime.OrderedDict.Bounded.{touch_or_create, found_or}
use cortex_cognitive_runtime.Float.{Float64, ratio, of_nat, sub, mul, max_f, ◌<?◌}
use cortex_cognitive_runtime.Rpe.Cell.{Cell, CellKey, CellKey_discrete, key_of}
use cortex_cognitive_runtime.Rpe.WeightStore.{WeightStore}
use cortex_cognitive_runtime.Routing.Task.{
  RoutePath, lightweight, standard, full_pipeline, TaskContext, cell_of,
}
use cortex_cognitive_runtime.Routing.Ratchet.{Ratchet, decay_release}

-- `_baseline_band`
unfoldable pub baseline_band : ℕ → RoutePath
baseline_band difficulty =
    if leb 4 difficulty then full_pipeline else if leb 2 difficulty then standard else lightweight

-- The dictionary that `_sessions` holds for a session.
pub record SessionSteps : Type 0 where
  pub step : ℕ
  pub last_used : OrderedDict CellKey ℕ

abbrev pub fresh : SessionSteps
fresh = record { step = 0; last_used = [] }

-- RoutingDecay
pub record Decay : Type 0 where
  pub sessions : OrderedDict String SessionSteps
  pub max_sessions : ℕ

-- The first part of `step`: `_session_state`, the count, and the mark of the current cell. The
-- result is the number of idle steps, `step - last - 1`, or nothing for a cell seen first. The
-- last use is an earlier step, so the difference is never negative.
unfoldable pub tick : Cell → Decay → Option ℕ × Decay
unfolding touch_or_create found_or
tick c d =
    let state = found_or String_discrete c.session fresh d.sessions in
    let sessions' = touch_or_create String_discrete d.max_sessions c.session fresh d.sessions in
    let now = state.step + 1 in
    let state' : SessionSteps = record {
      step = now;
      last_used = set CellKey_discrete (key_of c) now state.last_used;
    } in
    let idle : Option ℕ = elim (get CellKey_discrete (key_of c) state.last_used) [
      | none ↦ none
      | some last ↦ some (now - last - 1)
    ] in
    (idle, record d { sessions = set String_discrete c.session state' sessions' })

module _ {F : Type 0} ⦃fl : Float64 F⦄ where
  -- `max(WEIGHT_MIN, weight - DECAY_RATE * idle)`
  unfoldable pub decayed : F → ℕ → F
  decayed weight idle = max_f (ratio 1 10) (sub weight (mul (ratio 1 100) (of_nat idle)))

  -- What is done with the weight of a cell that was idle: it is written back if it fell, and below
  -- the release threshold the floor is released.
  unfoldable pub forget :
      {S : Type 0} ⦃w : WeightStore S F⦄ → Cell → F → ℕ → S → Ratchet → S × Ratchet
  unfolding decayed decay_release baseline_band
  forget ⦃w⦄ c weight idle s r =
      let v = decayed weight idle in
      (
        if v <? weight then w.write_weight c v s else s,
        if v <? ratio 4 10 then decay_release c (baseline_band c.difficulty) r else r,
      )

  -- The part of `step` that follows a positive number of idle steps.
  unfoldable pub realize :
      {S : Type 0} ⦃w : WeightStore S F⦄ → TaskContext F → Cell → ℕ → S → Ratchet → S × Ratchet
  unfolding forget
  realize ⦃w⦄ t c idle s r = elim (w.read_weight c s).0 [
    | none ↦ ((w.read_weight c s).1, r)
    | some weight ↦ forget c weight idle (w.read_weight c s).1 r
  ]

  -- The part of `step` that follows the mark: nothing for a new or a fresh cell.
  unfoldable pub after_tick :
      {S : Type 0} ⦃w : WeightStore S F⦄
      → TaskContext F
      → Cell
      → Option ℕ
      → S
      → Ratchet
      → S × Ratchet
  unfolding realize
  after_tick t c none s r = (s, r)
  after_tick t c (some idle) s r = if leb idle 0 then (s, r) else realize t c idle s r

  -- `step`
  unfoldable pub step :
      {S : Type 0} ⦃w : WeightStore S F⦄
      → TaskContext F
      → Option String
      → Decay
      → S
      → Ratchet
      → Decay × S × Ratchet
  unfolding cell_of tick after_tick
  step t session d s r = elim (cell_of t session) [
    | none ↦ (d, s, r)
    | some c ↦ let (idle, d') = tick c d in let (s', r') = after_tick t c idle s r in (d', s', r')
  ]
