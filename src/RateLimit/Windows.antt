-- ===== src/RateLimit/Windows.antt =====
-- The hits that the limiter keeps of a session, against the times of the session's requests.
use cortex_cognitive_runtime.Prelude.{
  ℕ, ◌≡◌, refl, ap, ◌∙◌, Bool, true, List, [], ◌∷◌, ◌++◌, arith, All, All-map, length, select, inl,
  inr, Bool-cases, append-All,
}
use cortex_cognitive_runtime.Float.{Float64, sub, ◌<=?◌, ◌<?◌}
use cortex_cognitive_runtime.RateLimit.{drop_expired}

module _ {F : Type 0} ⦃fl : Float64 F⦄ where
  -- How many of the times are later than the given one.
  abbrev pub later_than : F → List F → ℕ
  later_than cut ts = length (select (λ t. cut <? t) ts)

  abbrev pub Ascending : List F → Type 0
  Ascending [] = Unit
  Ascending (h ∷ hs) = All (λ x. h <=? x ≡ true) hs × Ascending hs

  fresh_id :
      (cut : F) (hs : List F) → All (λ x. cut <? x ≡ true) hs → select (λ t. cut <? t) hs ≡ hs
  fresh_id cut [] h = refl
  fresh_id cut (x ∷ hs) h = ground (arith, h.0, fresh_id cut hs h.1)

  fresh_after : (cut h x : F) → cut <? h ≡ true → h <=? x ≡ true → cut <? x ≡ true
  fresh_after cut h x e le = ground (arith, fl.leb_trans h x cut, e, le)

  drop_expired-select :
      (cut : F) (hs : List F) → Ascending hs → drop_expired cut hs ≡ select (λ t. cut <? t) hs
  unfolding drop_expired
  drop_expired-select cut [] s = refl
  drop_expired-select cut (h ∷ hs) s = elim (Bool-cases (h <=? cut)) [
    | inl e ↦ ground (arith, e, drop_expired-select cut hs s.1)
    | inr e ↦ ground (
      arith,
      e,
      fresh_id cut hs (All-map hs (λ x le. fresh_after cut h x (ground (arith, e)) le) s.0),
    )
  ]

  select-All : (P : F → Type 0) (p : F → Bool) (hs : List F) → All P hs → All P (select p hs)
  select-All P p [] h = tt
  select-All P p (x ∷ hs) h = elim (Bool-cases (p x)) [
    | inl e ↦ rw (e) (h.0, select-All P p hs h.1)
    | inr e ↦ rw (e) (select-All P p hs h.1)
  ]

  select-Ascending : (p : F → Bool) (hs : List F) → Ascending hs → Ascending (select p hs)
  select-Ascending p [] s = tt
  select-Ascending p (x ∷ hs) s = elim (Bool-cases (p x)) [
    | inl e ↦ rw (e) (select-All (λ y. x <=? y ≡ true) p hs s.0, select-Ascending p hs s.1)
    | inr e ↦ rw (e) (select-Ascending p hs s.1)
  ]

  append-Ascending :
      (now : F) (hs : List F)
      → Ascending hs
      → All (λ h. h <=? now ≡ true) hs
      → Ascending (hs ++ now ∷ [])
  append-Ascending now [] s b = (tt, tt)
  append-Ascending now (h ∷ hs) s b = (
    append-All (λ x. h <=? x ≡ true) hs (now ∷ []) s.0 (b.0, tt),
    append-Ascending now hs s.1 b.1,
  )

  later_than-append :
      (cut now : F) (hs : List F) → later_than cut (hs ++ now ∷ []) ≡ later_than cut (now ∷ hs)
  later_than-append cut now [] = refl
  later_than-append cut now (h ∷ hs) = ground (arith, later_than-append cut now hs)

  later_than-cons :
      (cut now : F) (hs ts : List F)
      → later_than cut hs ≡ later_than cut ts
      → later_than cut (now ∷ hs) ≡ later_than cut (now ∷ ts)
  later_than-cons cut now hs ts e = ground (arith, e)

  pub later_than-fresh :
      (cut next : F) (hs : List F)
      → cut <=? next ≡ true
      → later_than next (select (λ t. cut <? t) hs) ≡ later_than next hs
  later_than-fresh cut next [] le = refl
  later_than-fresh cut next (h ∷ hs) le =
      ground (arith, le, fl.leb_trans h cut next, later_than-fresh cut next hs le)

  -- The hits of a session stand for the times of its requests, as far as a window can see that ends
  -- at `last` or later.
  pub record Tracks (window last : F) (hits ts : List F) : Type 0 where
    pub ascending : Ascending hits
    pub before : All (λ h. h <=? last ≡ true) hits
    pub counted :
        (cut : F) → sub last window <=? cut ≡ true → later_than cut hits ≡ later_than cut ts

  module _ (window last now : F) (on : last <=? now ≡ true) where
    pub Tracks-later : (hits ts : List F) → Tracks window last hits ts → Tracks window now hits ts
    Tracks-later hits ts v = record {
      ascending = v.ascending;
      before = All-map hits (λ h le. fl.leb_trans h last now le on) v.before;
      counted = λ cut le. v.counted cut (fl.leb_trans _ _ _ (fl.sub_mono last now window on) le);
    }

    pub Tracks-drop :
        (hits ts : List F)
        → Tracks window last hits ts
        → Tracks window now (drop_expired (sub now window) hits) ts
    Tracks-drop hits ts v =
        let same = drop_expired-select (sub now window) hits v.ascending in
        let w = Tracks-later hits ts v in
        rw (same) (record {
          ascending = select-Ascending _ hits v.ascending;
          before = select-All _ _ hits w.before;
          counted = λ cut le. later_than-fresh (sub now window) cut hits le ∙ w.counted cut le;
        })

    pub Tracks-hit :
        (hits ts : List F)
        → Tracks window last hits ts
        → Tracks window now (drop_expired (sub now window) hits ++ now ∷ []) (now ∷ ts)
    Tracks-hit hits ts v =
        let w = Tracks-drop hits ts v in
        let kept = drop_expired (sub now window) hits in
        record {
          ascending = append-Ascending now kept w.ascending w.before;
          before = append-All _ kept (now ∷ []) w.before (fl.leb_refl now, tt);
          counted = λ cut le.
              later_than-append cut now kept ∙ later_than-cons cut now kept ts (w.counted cut le);
        }

    pub length-dropped :
        (hits ts : List F)
        → Tracks window last hits ts
        → length (drop_expired (sub now window) hits) ≡ later_than (sub now window) ts
    length-dropped hits ts v =
        ap length (drop_expired-select (sub now window) hits v.ascending)
        ∙ v.counted (sub now window) (fl.sub_mono last now window on)
