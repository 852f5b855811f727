-- ===== src/Float/Fixed.antt =====
-- Whole thousandths with truncation satisfy the laws: the type at which the examples are evaluated.
use native.Mathlib.Nat.{mul-le-mul_left, le-div_iff_mul-le, le_of_mul-le-mul_right, div-mul-le_self}
use cortex_cognitive_runtime.Prelude.{
  ℕ, ◌+◌, ◌*◌, ◌/◌, ◌≤◌, ◌<◌, ◌≡◌, List, [], ◌∷◌, Bool, true, false, arith, leb,
}
use cortex_cognitive_runtime.Int.{ℤ, pos, negsuc, pos_part, neg_part, sub_ℕ}
use cortex_cognitive_runtime.Float.{Float64}

abbrev pub leb_fixed : ℤ → ℤ → Bool
leb_fixed a b = leb (pos_part a + neg_part b) (pos_part b + neg_part a)

abbrev pub mul_fixed : ℤ → ℤ → ℤ
mul_fixed a b =
    sub_ℕ (pos_part a * pos_part b / 1000 + neg_part a * neg_part b / 1000)
      (pos_part a * neg_part b / 1000 + neg_part a * pos_part b / 1000)

abbrev pub neg_fixed : ℤ → ℤ
neg_fixed a = sub_ℕ (neg_part a) (pos_part a)

abbrev pub ratio_fixed : ℕ → ℕ → ℤ
ratio_fixed n d = pos (n * 1000 / d)

abbrev pub sub_fixed : ℤ → ℤ → ℤ
sub_fixed a b = sub_ℕ (pos_part a + neg_part b) (neg_part a + pos_part b)

abbrev pub add_fixed : ℤ → ℤ → ℤ
add_fixed a b = sub_ℕ (pos_part a + pos_part b) (neg_part a + neg_part b)

abbrev pub sum_fixed : List ℤ → ℤ
sum_fixed [] = pos 0
sum_fixed (x ∷ xs) = add_fixed x (sum_fixed xs)

pub leb_refl_fixed : (a : ℤ) → leb_fixed a a ≡ true
leb_refl_fixed a = ground arith

pub leb_trans_fixed :
    (a b c : ℤ) → leb_fixed a b ≡ true → leb_fixed b c ≡ true → leb_fixed a c ≡ true
leb_trans_fixed a b c p q = ground arith

pub leb_total_fixed : (a b : ℤ) → leb_fixed a b ≡ false → leb_fixed b a ≡ true
leb_total_fixed a b p = ground arith

pub leb_antisym_fixed : (a b : ℤ) → leb_fixed a b ≡ true → leb_fixed b a ≡ true → a ≡ b
leb_antisym_fixed a b p q = ground arith

pub sub-le_fixed : (a b : ℤ) → leb_fixed (pos 0) b ≡ true → leb_fixed (sub_fixed a b) a ≡ true
sub-le_fixed a b p = ground arith

pub sub_mono_fixed :
    (a b c : ℤ) → leb_fixed a b ≡ true → leb_fixed (sub_fixed a c) (sub_fixed b c) ≡ true
sub_mono_fixed a b c p = ground arith

pub sub_antitone_fixed :
    (a b c : ℤ) → leb_fixed b c ≡ true → leb_fixed (sub_fixed a c) (sub_fixed a b) ≡ true
sub_antitone_fixed a b c p = ground arith

pub add_nonneg_fixed :
    (a b : ℤ)
    → leb_fixed (pos 0) a ≡ true
    → leb_fixed (pos 0) b ≡ true
    → leb_fixed (pos 0) (add_fixed a b) ≡ true
add_nonneg_fixed a b p q = ground arith

pub mul_nonneg_fixed :
    (a b : ℤ)
    → leb_fixed (pos 0) a ≡ true
    → leb_fixed (pos 0) b ≡ true
    → leb_fixed (pos 0) (mul_fixed a b) ≡ true
mul_nonneg_fixed (pos m) (pos n) p q = ground arith
mul_nonneg_fixed (negsuc m) b p q = absurd (ground arith)
mul_nonneg_fixed (pos m) (negsuc n) p q = absurd (ground arith)

scaled_mono : (m n k : ℕ) → n ≤ k → m * n / 1000 ≤ m * k / 1000
scaled_mono m n k h = omega (arith, mul-le-mul_left m h)

pub mul_mono_fixed :
    (a b c : ℤ)
    → leb_fixed (pos 0) a ≡ true
    → leb_fixed b c ≡ true
    → leb_fixed (mul_fixed a b) (mul_fixed a c) ≡ true
mul_mono_fixed (negsuc m) b c p q = absurd (ground arith)
mul_mono_fixed (pos m) (pos n) (pos k) p q = ground (arith, scaled_mono m n k)
mul_mono_fixed (pos m) (negsuc n) (pos k) p q = ground arith
mul_mono_fixed (pos m) (pos n) (negsuc k) p q = absurd (ground arith)
mul_mono_fixed (pos m) (negsuc n) (negsuc k) p q = ground (arith, scaled_mono m (k + 1) (n + 1))

quotient_mono : (a b c d : ℕ) → 0 < b → 0 < d → a * d ≤ c * b → a * 1000 / b ≤ c * 1000 / d
quotient_mono a b c d p q h = (le-div_iff_mul-le q).1 (le_of_mul-le-mul_right (below) p)
  where
    below : a * 1000 / b * d * b ≤ c * 1000 * b
    below = grind (arith, mul-le-mul_left d (div-mul-le_self (a * 1000) b))

pub ratio_mono_fixed :
    (a b c d : ℕ)
    → 0 < b
    → 0 < d
    → a * d ≤ c * b
    → leb_fixed (ratio_fixed a b) (ratio_fixed c d) ≡ true
ratio_mono_fixed a b c d p q h = ground (arith, quotient_mono a b c d p q h)

instance abbrev pub thousandths : Float64 ℤ
thousandths = record {
  leb = leb_fixed;
  add = add_fixed;
  sub = sub_fixed;
  mul = mul_fixed;
  neg = neg_fixed;
  ratio = ratio_fixed;
  sum = sum_fixed;
  leb_refl = leb_refl_fixed;
  leb_trans = leb_trans_fixed;
  leb_total = leb_total_fixed;
  leb_antisym = leb_antisym_fixed;
  sub-le = sub-le_fixed;
  sub_mono = sub_mono_fixed;
  sub_antitone = sub_antitone_fixed;
  add_nonneg = add_nonneg_fixed;
  mul_nonneg = mul_nonneg_fixed;
  mul_mono = mul_mono_fixed;
  ratio_mono = ratio_mono_fixed;
}
