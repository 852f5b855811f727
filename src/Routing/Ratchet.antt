-- ===== src/Routing/Ratchet.antt =====
-- app/routing/routing_ratchet.py: within a session the path of a cell does not fall below its floor.
pub mod Floors
pub mod Release
use cortex_cognitive_runtime.Prelude.{
  ℕ, ◌-◌, Bool, Option, none, some, List, [], ◌∷◌, ◌++◌, ◌==◌, if◌then◌else◌, String,
  String_discrete, max,
}
use cortex_cognitive_runtime.OrderedDict.{OrderedDict, get, set}
use cortex_cognitive_runtime.OrderedDict.Bounded.{touch_or_create, found_or}
use cortex_cognitive_runtime.Rpe.Cell.{Cell, CellKey, CellKey_discrete, key_of}
use cortex_cognitive_runtime.Routing.Task.{
  RoutePath, RouteDecision, TaskContext, ratchet_floor, cell_of, is_band, band_index, band_at,
}

abbrev pub Floors : Type 0
Floors = OrderedDict CellKey RoutePath

-- RoutingRatchet: the floors of each session, least recently used first.
pub record Ratchet : Type 0 where
  pub floors : OrderedDict String Floors
  pub max_sessions : ℕ

-- `_floors.get(session_id)` and then `.get(cell)`: what the ratchet holds for a cell.
unfoldable pub floor_of : Cell → Ratchet → Option RoutePath
floor_of c r = elim (get String_discrete c.session r.floors) [
  | none ↦ none
  | some fs ↦ get CellKey_discrete (key_of c) fs
]

-- `_band_index` of a floor that may be missing
unfoldable pub floor_index : Option RoutePath → ℕ
unfolding band_index
floor_index none = 0
floor_index (some p) = band_index p

-- `_session_floors`: the floors of the session, and the state after the touch or the creation.
unfoldable pub session_floors : String → Ratchet → Floors × Ratchet
unfolding touch_or_create found_or
session_floors session r = (
  found_or String_discrete session [] r.floors,
  record r { floors = touch_or_create String_discrete r.max_sessions session [] r.floors },
)

-- `self._floors[session][cell] = path`, for a session that is held.
unfoldable pub write_floor : Cell → RoutePath → Floors → Ratchet → Ratchet
write_floor c path fs r = record r {
  floors = set String_discrete c.session (set CellKey_discrete (key_of c) path fs) r.floors;
}

-- `max(override_idx, floor_idx)`
unfoldable pub final_index : RoutePath → Option RoutePath → ℕ
unfolding floor_index band_index
final_index path floor = max (band_index path) (floor_index floor)

-- The decision with the path of the final index; unchanged where that is its own.
unfoldable pub clamped : {F : Type 0} → RouteDecision F → ℕ → RouteDecision F
unfolding band_at band_index
clamped d final = if final == band_index d.path then d else record d {
  path = band_at final;
  reason = d.reason ++ ratchet_floor (band_at final) d.path ∷ [];
}

-- `apply`, behind its two guards
unfoldable pub clamp_up :
    {F : Type 0} → RouteDecision F → Cell → Ratchet → RouteDecision F × Ratchet
unfolding session_floors write_floor final_index band_at clamped
clamp_up d c r =
    let (fs, r') = session_floors c.session r in
    let final = final_index d.path (get CellKey_discrete (key_of c) fs) in
    (clamped d final, write_floor c (band_at final) fs r')

unfoldable pub apply :
    {F : Type 0}
    → RouteDecision F
    → TaskContext F
    → Option String
    → Ratchet
    → RouteDecision F × Ratchet
unfolding clamp_up cell_of is_band
apply d t session r = elim (cell_of t session) [
  | none ↦ (d, r)
  | some c ↦ if is_band d.path then clamp_up d c r else (d, r)
]

-- `lower_floor`: no entry of the order is touched, and a session without floors gets none.
unfoldable pub lower_floor : Cell → RoutePath → Ratchet → Ratchet
unfolding write_floor
lower_floor c path r = elim (get String_discrete c.session r.floors) [
  | none ↦ r
  | some fs ↦ write_floor c path fs r
]

-- `decay_release`: one band down, and not below the baseline.
unfoldable pub decay_release : Cell → RoutePath → Ratchet → Ratchet
unfolding floor_of lower_floor band_index band_at
decay_release c baseline r = elim (floor_of c r) [
  | none ↦ r
  | some current ↦ lower_floor c (band_at (max (band_index baseline) (band_index current - 1))) r
]
