-- ===== src/Routing/Ratchet/Floors.antt =====
-- How each operation of the ratchet moves the floors.
use cortex_cognitive_runtime.Prelude.{
  ℕ, zero, suc, ◌≤◌, ◌<◌, ◌≡◌, refl, sym, ap, ◌∙◌, ◌≢◌, inl, inr, true, Option, none, some, [],
  arith, max, length, String, String_discrete, Option-cases,
}
use cortex_cognitive_runtime.OrderedDict.{get, set}
use cortex_cognitive_runtime.OrderedDict.Laws.{
  IsDistinct, get-set_self, get-set_ne, set-IsDistinct, length-set_old,
}
use cortex_cognitive_runtime.OrderedDict.Bounded.{
  found_or, touch_or_create-IsDistinct, length-touch_or_create, get-touch_or_create_self,
  get-touch_or_create_ne,
}
use cortex_cognitive_runtime.Rpe.Cell.{Cell, CellKey_discrete, key_of}
use cortex_cognitive_runtime.Routing.Task.{RoutePath, RouteDecision, is_band, band_index, band_at}
use cortex_cognitive_runtime.Routing.Ratchet.{
  Ratchet, Floors, floor_of, floor_index, session_floors, write_floor, final_index, clamp_up,
  clamped,
}

-- The map of sessions is a dictionary within its bound.
pub record IsBounded (r : Ratchet) : Type 0 where
  pub room : 0 < r.max_sessions
  pub bounded : length r.floors ≤ r.max_sessions
  pub distinct : IsDistinct String_discrete r.floors

pub band_index-band_at : (n : ℕ) → n ≤ 2 → band_index (band_at n) ≡ n
unfolding band_index band_at
band_index-band_at zero h = refl
band_index-band_at (suc zero) h = refl
band_index-band_at (suc (suc n)) h = omega arith

pub band_index-le : (p : RoutePath) → band_index p ≤ 2
unfolding band_index
band_index-le p = ground arith

pub final_index-le : (p : RoutePath) (f : Option RoutePath) → final_index p f ≤ 2
unfolding final_index floor_index
final_index-le p none = omega (arith, band_index-le p)
final_index-le p (some q) = omega (arith, band_index-le p, band_index-le q)

-- The floor that `_session_floors` leads to is the one that is held.
floor_of-found :
    (c : Cell) (r : Ratchet)
    → get CellKey_discrete (key_of c) (session_floors c.session r).0 ≡ floor_of c r
unfolding session_floors floor_of found_or get
floor_of-found c r = ground arith

-- A written floor is read back, whatever else the map holds.
pub floor_of-write_floor :
    (c : Cell) (p : RoutePath) (fs : Floors) (r : Ratchet)
    → floor_of c (write_floor c p fs r) ≡ some p
unfolding floor_of write_floor
floor_of-write_floor c p fs r = ground (
  arith,
  get-set_self String_discrete c.session (set CellKey_discrete (key_of c) p fs) r.floors,
  get-set_self CellKey_discrete (key_of c) p fs,
)

pub key_ne : (c j : Cell) → c.session ≡ j.session → j ≢ c → key_of j ≢ key_of c
key_ne c j e n k =
    n (λ i. record { session = sym e i; category = (k i).category; difficulty = (k i).difficulty })

clamped-path :
    {F : Type 0} (d : RouteDecision F) (n : ℕ)
    → is_band d.path ≡ true
    → n ≤ 2
    → (clamped d n).path ≡ band_at n
unfolding clamped is_band band_index band_at
clamped-path d n b h = ground arith

-- After the clamp the index of the path is the higher one of the requested path's and the
-- floor's, and the path is the new floor.
pub clamp_up_lem :
    {F : Type 0} (d : RouteDecision F) (c : Cell) (r : Ratchet)
    → is_band d.path ≡ true
    → (band_index (clamp_up d c r).0.path ≡ max (band_index d.path) (floor_index (floor_of c r)))
      × (floor_of c (clamp_up d c r).1 ≡ some (clamp_up d c r).0.path)
clamp_up_lem d c r b = (
  unfold clamp_up in
      rw (clamped-path d final b small, band_index-band_at final small)
        (ap (λ (f : Option RoutePath). max (band_index d.path) (floor_index f))
          (floor_of-found c r)),
  unfold clamp_up in rw (clamped-path d final b small) (floor_of-write_floor c (band_at final) _ _),
)
  where
    final : ℕ
    final = final_index d.path (get CellKey_discrete (key_of c) (session_floors c.session r).0)

    small : final ≤ 2
    small = final_index-le d.path _

-- Some floors of the session of the cell are held.
abbrev pub SessionHeld : Cell → Ratchet → Type 0
SessionHeld j r = get String_discrete j.session r.floors ≢ none

write_floor-sibling :
    (c j : Cell) (p : RoutePath) (fs : Floors) (r : Ratchet)
    → j ≢ c
    → c.session ≡ j.session
    → floor_of j (write_floor c p fs r) ≡ get CellKey_discrete (key_of j) fs
unfolding floor_of write_floor
write_floor-sibling c j p fs r n same = ground (
  arith,
  same,
  get-set_self String_discrete c.session (set CellKey_discrete (key_of c) p fs) r.floors,
  get-set_ne CellKey_discrete (key_of c) (key_of j) p fs (key_ne c j same n),
)

write_floor-stranger :
    (c j : Cell) (p : RoutePath) (fs : Floors) (r : Ratchet)
    → j.session ≢ c.session
    → get String_discrete j.session (write_floor c p fs r).floors
      ≡ get String_discrete j.session r.floors
unfolding write_floor
write_floor-stranger c j p fs r n =
    get-set_ne String_discrete c.session j.session (set CellKey_discrete (key_of c) p fs) r.floors n

floor_of-session :
    (j : Cell) (r r' : Ratchet)
    → get String_discrete j.session r'.floors ≡ get String_discrete j.session r.floors
    → floor_of j r' ≡ floor_of j r
unfolding floor_of
floor_of-session j r r' e = ground (arith, e)

session_floors-keeps :
    (session : String) (j : Cell) (r : Ratchet)
    → IsBounded r
    → j.session ≢ session
    → SessionHeld j (session_floors session r).1
    → get String_discrete j.session (session_floors session r).1.floors
      ≡ get String_discrete j.session r.floors
unfolding session_floors
session_floors-keeps session j r h differ held =
    elim (Option-cases (get String_discrete j.session (session_floors session r).1.floors)) [
      | inl gone ↦ absurd (held gone)
      | inr (fs, e) ↦
          e
          ∙ sym (
              get-touch_or_create_ne String_discrete r.max_sessions session j.session [] fs r.floors
                h.distinct differ e)
    ]

-- The clamp of one cell keeps the floor of every other cell whose session is held after it.
pub clamp_up-keeps :
    {F : Type 0} (d : RouteDecision F) (c j : Cell) (r : Ratchet)
    → IsBounded r
    → j ≢ c
    → SessionHeld j (clamp_up d c r).1
    → floor_of j (clamp_up d c r).1 ≡ floor_of j r
unfolding clamp_up
clamp_up-keeps d c j r h n held = elim (String_discrete j.session c.session) [
  | yes same ↦
      write_floor-sibling c j _ _ _ n (sym same)
      ∙ ap (λ s. get CellKey_discrete (key_of j) (session_floors s r).0) (sym same)
      ∙ floor_of-found j r
  | no differ ↦
      let there = write_floor-stranger c j _ _ (session_floors c.session r).1 differ in
      let before = session_floors-keeps c.session j r h differ (λ gone. held (there ∙ gone)) in
      floor_of-session j r _ (there ∙ before)
]

session_floors-IsBounded :
    (session : String) (r : Ratchet) → IsBounded r → IsBounded (session_floors session r).1
unfolding session_floors
session_floors-IsBounded session r h = record {
  room = h.room;
  bounded = length-touch_or_create String_discrete r.max_sessions session [] r.floors h.bounded;
  distinct =
      touch_or_create-IsDistinct String_discrete r.max_sessions session [] r.floors h.distinct;
}

pub write_floor-IsBounded :
    (c : Cell) (p : RoutePath) (fs : Floors) (r : Ratchet) {old : Floors}
    → get String_discrete c.session r.floors ≡ some old
    → IsBounded r
    → IsBounded (write_floor c p fs r)
unfolding write_floor
write_floor-IsBounded c p fs r {old} e h = record {
  room = h.room;
  bounded = omega (
    arith,
    h.bounded,
    length-set_old String_discrete c.session (set CellKey_discrete (key_of c) p fs) old r.floors e,
  );
  distinct = set-IsDistinct String_discrete c.session _ r.floors h.distinct;
}

-- The clamp keeps the map of sessions within its bound.
pub clamp_up-IsBounded :
    {F : Type 0} (d : RouteDecision F) (c : Cell) (r : Ratchet)
    → IsBounded r
    → IsBounded (clamp_up d c r).1
unfolding clamp_up
clamp_up-IsBounded d c r h =
    write_floor-IsBounded c _ _ (session_floors c.session r).1
      (unfold session_floors in
        get-touch_or_create_self String_discrete r.max_sessions c.session [] r.floors h.room
          h.distinct)
      (session_floors-IsBounded c.session r h)
