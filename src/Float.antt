-- ===== src/Float.antt =====
-- The floats of the program: learned weights, scores, time stamps. `Float64 F` says what the code
-- uses of Python's `float` on a type `F`, and which laws it relies on. They hold of IEEE 754 for
-- values that are no NaN, since rounding is monotone: every operation named here rounds once.
pub mod Fixed
use cortex_cognitive_runtime.Prelude.{
  ℕ, List, ◌*◌, ◌≤◌, ◌<◌, ◌≡◌, refl, Bool, true, false, not, ◌&&◌, arith, if◌then◌else◌,
}

pub record Float64 (F : Type 0) : Type 0 where
  -- `a <= b`
  pub leb : F → F → Bool
  pub add : F → F → F
  pub sub : F → F → F
  pub mul : F → F → F
  pub neg : F → F
  -- The literal or quotient n / d, and `float(n)` for d = 1.
  pub ratio : ℕ → ℕ → F
  -- `sum` of a list of floats, which newer versions of Python compensate for rounding.
  pub sum : List F → F
  pub leb_refl : (a : F) → leb a a ≡ true
  pub leb_trans : (a b c : F) → leb a b ≡ true → leb b c ≡ true → leb a c ≡ true
  pub leb_total : (a b : F) → leb a b ≡ false → leb b a ≡ true
  -- `F` does not tell 0.0 from -0.0; no operation of the program does.
  pub leb_antisym : (a b : F) → leb a b ≡ true → leb b a ≡ true → a ≡ b
  pub sub-le : (a b : F) → leb (ratio 0 1) b ≡ true → leb (sub a b) a ≡ true
  pub sub_mono : (a b c : F) → leb a b ≡ true → leb (sub a c) (sub b c) ≡ true
  pub sub_antitone : (a b c : F) → leb b c ≡ true → leb (sub a c) (sub a b) ≡ true
  pub add_nonneg :
      (a b : F)
      → leb (ratio 0 1) a ≡ true
      → leb (ratio 0 1) b ≡ true
      → leb (ratio 0 1) (add a b) ≡ true
  pub mul_nonneg :
      (a b : F)
      → leb (ratio 0 1) a ≡ true
      → leb (ratio 0 1) b ≡ true
      → leb (ratio 0 1) (mul a b) ≡ true
  pub mul_mono :
      (a b c : F) → leb (ratio 0 1) a ≡ true → leb b c ≡ true → leb (mul a b) (mul a c) ≡ true
  pub ratio_mono :
      (a b c d : ℕ) → 0 < b → 0 < d → a * d ≤ c * b → leb (ratio a b) (ratio c d) ≡ true

module _ {F : Type 0} ⦃fl : Float64 F⦄ where
  infix 50 ◌<=?◌
  abbrev pub ◌<=?◌ : F → F → Bool
  a <=? b = fl.leb a b

  -- `a < b`, which is `not (b <= a)` where neither is NaN.
  infix 50 ◌<?◌
  abbrev pub ◌<?◌ : F → F → Bool
  a <? b = not (fl.leb b a)

  -- `a == b`
  abbrev pub eqf : F → F → Bool
  eqf a b = fl.leb a b && fl.leb b a

  abbrev pub add : F → F → F
  add = fl.add

  abbrev pub sub : F → F → F
  sub = fl.sub

  abbrev pub mul : F → F → F
  mul = fl.mul

  abbrev pub neg : F → F
  neg = fl.neg

  abbrev pub ratio : ℕ → ℕ → F
  ratio = fl.ratio

  abbrev pub sum : List F → F
  sum = fl.sum

  abbrev pub of_nat : ℕ → F
  of_nat n = fl.ratio n 1

  -- `abs(a)`
  abbrev pub abs : F → F
  abs a = if fl.leb (fl.ratio 0 1) a then a else fl.neg a

  -- Python's `max` and `min` return the first of two equal arguments.
  abbrev pub max_f : F → F → F
  max_f a b = if fl.leb b a then a else b

  abbrev pub min_f : F → F → F
  min_f a b = if fl.leb a b then a else b

  -- `_clamp` of rpe/models.py and basal_ganglia/policies.py
  unfoldable pub clamp : F → F → F → F
  clamp value lo hi = if value <? lo then lo else if hi <? value then hi else value

  -- A clamped value lies between the bounds.
  pub clamp_bounds :
      (v lo hi : F)
      → lo <=? hi ≡ true
      → (lo <=? clamp v lo hi ≡ true) × (clamp v lo hi <=? hi ≡ true)
  unfolding clamp
  clamp_bounds v lo hi h = ground (arith, fl.leb_refl lo, fl.leb_refl hi)

  pub clamp_id : (v lo hi : F) → lo <=? v ≡ true → v <=? hi ≡ true → clamp v lo hi ≡ v
  unfolding clamp
  clamp_id v lo hi p q = ground arith

  pub max_f-ge_left : (a b : F) → a <=? max_f a b ≡ true
  max_f-ge_left a b = ground (arith, fl.leb_refl a, fl.leb_total b a)

  pub max_f-le : (a b c : F) → a <=? c ≡ true → b <=? c ≡ true → max_f a b <=? c ≡ true
  max_f-le a b c p q = ground arith

  -- The bounds of a clamp may also be written with `max` and `min`.
  pub max_f-min_f_bounds :
      (v lo hi : F)
      → lo <=? hi ≡ true
      → (lo <=? max_f lo (min_f hi v) ≡ true) × (max_f lo (min_f hi v) <=? hi ≡ true)
  max_f-min_f_bounds v lo hi h = ground (
    arith,
    fl.leb_refl lo,
    fl.leb_refl hi,
    fl.leb_total hi v,
    fl.leb_total v lo,
    fl.leb_total hi lo,
  )

  pub max_f-min_f_id : (v lo hi : F) → lo <=? v ≡ true → v <=? hi ≡ true → max_f lo (min_f hi v) ≡ v
  max_f-min_f_id v lo hi p q = ground (
    arith,
    fl.leb_antisym hi v,
    fl.leb_antisym v lo,
    fl.leb_antisym hi lo,
    fl.leb_trans hi v lo,
    fl.leb_trans lo v hi,
  )

  pub max_f_mono : (a b c : F) → b <=? c ≡ true → max_f a b <=? max_f a c ≡ true
  max_f_mono a b c h =
      ground (arith, fl.leb_refl a, fl.leb_total b a, fl.leb_total c a, fl.leb_trans b c a)
