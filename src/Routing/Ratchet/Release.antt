-- ===== src/Routing/Ratchet/Release.antt =====
-- How the release of a forgotten cell moves the floors.
use cortex_cognitive_runtime.Prelude.{
  ◌-◌, ◌<◌, ◌∙◌, ◌≡◌, sym, ap, ◌≢◌, ◌⊎◌, inl, inr, none, some, arith, max, String_discrete,
  Option-cases,
}
use cortex_cognitive_runtime.OrderedDict.{get, set}
use cortex_cognitive_runtime.OrderedDict.Laws.{get-set_self, get-set_ne}
use cortex_cognitive_runtime.Rpe.Cell.{Cell, CellKey_discrete, key_of}
use cortex_cognitive_runtime.Routing.Task.{RoutePath, band_index, band_at}
use cortex_cognitive_runtime.Routing.Ratchet.{Ratchet, Floors, floor_of, write_floor, decay_release}
use cortex_cognitive_runtime.Routing.Ratchet.Floors.{
  IsBounded, band_index-band_at, band_index-le, floor_of-write_floor, write_floor-IsBounded, key_ne,
}

-- The release writes one floor of a session that is held, or does nothing.
abbrev Released : Cell → RoutePath → Ratchet → Type 0
Released c baseline r =
    ((floor_of c r ≡ none) × (decay_release c baseline r ≡ r))
    ⊎ ((fs : Floors) × (p : RoutePath) × (get String_discrete c.session r.floors ≡ some fs)
        × (get CellKey_discrete (key_of c) fs ≡ some p)
        × (decay_release c baseline r
            ≡ write_floor c (band_at (max (band_index baseline) (band_index p - 1))) fs r))

decay_release-cases : (c : Cell) (baseline : RoutePath) (r : Ratchet) → Released c baseline r
unfolding floor_of decay_release
decay_release-cases c baseline r =
    by_session (Option-cases (get String_discrete c.session r.floors))
  where
    by_floor :
        (fs : Floors)
        → get String_discrete c.session r.floors ≡ some fs
        → ((get CellKey_discrete (key_of c) fs ≡ none)
            ⊎ ((p : RoutePath) × (get CellKey_discrete (key_of c) fs ≡ some p)))
        → Released c baseline r
    by_floor fs e (inl none_held) = inl (ground arith, ground arith)
    by_floor fs e (inr (p, held)) = inr (fs, p, e, held, ground arith)

    by_session :
        ((get String_discrete c.session r.floors ≡ none)
          ⊎ ((fs : Floors) × (get String_discrete c.session r.floors ≡ some fs)))
        → Released c baseline r
    by_session (inl gone) = inl (ground arith, ground arith)
    by_session (inr (fs, e)) = by_floor fs e (Option-cases (get CellKey_discrete (key_of c) fs))

-- The floor that a release leaves of a floor that is held.
pub floor_of-decay_release :
    (c : Cell) (baseline p : RoutePath) (r : Ratchet)
    → floor_of c r ≡ some p
    → floor_of c (decay_release c baseline r)
      ≡ some (band_at (max (band_index baseline) (band_index p - 1)))
floor_of-decay_release c baseline p r e = elim (decay_release-cases c baseline r) [
  | inl (gone, same) ↦ cc
  | inr (fs, q, there, held, written) ↦
      let agree : floor_of c r ≡ some q = unfold floor_of in ground arith in
      let path : q ≡ p = ground arith in rw (written, path) (floor_of-write_floor c _ fs r)
]

-- The release touches no other floor.
pub decay_release-others :
    (c j : Cell) (baseline : RoutePath) (r : Ratchet)
    → j ≢ c
    → floor_of j (decay_release c baseline r) ≡ floor_of j r
decay_release-others c j baseline r n = elim (decay_release-cases c baseline r) [
  | inl (gone, same) ↦ ap (floor_of j) same
  | inr (fs, p, there, held, written) ↦ rw written (unwritten fs _ there)
]
  where
    unwritten :
        (fs : Floors) (q : RoutePath)
        → get String_discrete c.session r.floors ≡ some fs
        → floor_of j (write_floor c q fs r) ≡ floor_of j r
    unwritten fs q there = elim (String_discrete j.session c.session) [
      | yes same ↦
          unfold floor_of write_floor in
          ground (
            arith,
            get-set_self String_discrete c.session (set CellKey_discrete (key_of c) q fs) r.floors,
            get-set_ne CellKey_discrete (key_of c) (key_of j) q fs (key_ne c j (sym same) n),
          )
      | no differ ↦
          unfold floor_of write_floor in
          ground (
            arith,
            get-set_ne String_discrete c.session j.session (set CellKey_discrete (key_of c) q fs)
                r.floors differ,
          )
    ]

pub decay_release-IsBounded :
    (c : Cell) (baseline : RoutePath) (r : Ratchet)
    → IsBounded r
    → IsBounded (decay_release c baseline r)
decay_release-IsBounded c baseline r h = elim (decay_release-cases c baseline r) [
  | inl (gone, same) ↦ rw same h
  | inr (fs, p, there, held, written) ↦ rw written (write_floor-IsBounded c _ fs r there h)
]

-- A floor below the baseline is not lowered: the release raises it to the baseline.
raised_by_release :
    (c : Cell) (baseline p : RoutePath) (r : Ratchet) (q : RoutePath)
    → floor_of c r ≡ some p
    → band_index p < band_index baseline
    → floor_of c (decay_release c baseline r) ≡ some q
    → band_index q ≡ band_index baseline
raised_by_release c baseline p r q e below found =
    let n = max (band_index baseline) (band_index p - 1) in
    let index = band_index-band_at n (omega (arith, below, band_index-le baseline)) in
    let left : some (band_at n) ≡ some q = sym (floor_of-decay_release c baseline p r e) ∙ found in
    let same : band_at n ≡ q = ground arith in omega (arith, index, below, ap band_index same)
