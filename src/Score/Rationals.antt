-- ===== src/Score/Rationals.antt =====
-- Fractions of natural numbers as an instance of the operations that src/score.rs uses of `f64`: the
-- laws of `FloatLaws` can hold. The logarithm is a stand-in.
use native.Mathlib.Nat.{div-le_of_le-mul, mul-one, one-mul, mul_comm}
use mcp_eval.Prelude.{
  ℕ, ◌+◌, ◌-◌, ◌*◌, ◌/◌, ◌≤◌, ◌≡◌, refl, Bool, true, false, arith, ltb, if◌then◌else◌,
}
use mcp_eval.Score.Floats.{Floats, FloatLaws}

abbrev Fraction : Type 0
Fraction = ℕ × ℕ

abbrev below : Fraction → Fraction → Bool
below (a, b) (c, d) = ltb (a * d) (c * b)

abbrev add_fractions : Fraction → Fraction → Fraction
add_fractions (a, b) (c, d) = (a * d + c * b, b * d)

abbrev sub_fractions : Fraction → Fraction → Fraction
sub_fractions (a, b) (c, d) = (a * d - c * b, b * d)

abbrev mul_fractions : Fraction → Fraction → Fraction
mul_fractions (a, b) (c, d) = (a * c, b * d)

abbrev div_fractions : Fraction → Fraction → Fraction
div_fractions (a, b) (c, d) = (a * d, b * c)

abbrev round_fraction : Fraction → Fraction
round_fraction (a, b) = ((2 * a + b) / (2 * b), 1)

abbrev floor_fraction : Fraction → ℕ
floor_fraction (a, b) = a / b

abbrev clamp_fraction : Fraction → Fraction → Fraction → Fraction
clamp_fraction x lo hi = if below x lo then lo else if below hi x then hi else x

abbrev pub fractions : Floats
fractions = record {
  F64 = Fraction;
  of_u64 = λ n. (n, 1);
  add = add_fractions;
  sub = sub_fractions;
  mul = mul_fractions;
  div = div_fractions;
  ln = λ x. x;
  round = round_fraction;
  clamp = clamp_fraction;
  as_u64 = floor_fraction;
}

never_below : (a b : ℕ) → ltb (a * 1) (0 * b) ≡ false
never_below a b = ground arith

floor_bounded :
    (t : Bool) (a b n : ℕ)
    → (t ≡ false → a ≤ b * n)
    → floor_fraction (if t then (n, 1) else (a, b)) ≤ n
floor_bounded true a b n h = omega arith
floor_bounded false a b n h = div-le_of_le-mul b (h refl)

clamped : (x : Fraction) (n : ℕ) → floor_fraction (clamp_fraction x (0, 1) (n, 1)) ≤ n
clamped (a, b) n =
    rw (never_below a b)
      (floor_bounded (ltb (n * b) (a * 1)) a b n (λ h. ground (arith, mul_comm n b)))

round_quotient :
    (m n : ℕ) → round_fraction (div_fractions (m, 1) (n, 1)) ≡ ((2 * m + n) / (2 * n), 1)
round_quotient m n = simp (mul-one, one-mul)

pub fraction_laws : FloatLaws fractions
fraction_laws = record {
  as_u64-of_u64 = λ n h. omega arith;
  as_u64-clamp = λ x n h. clamped x n;
  clamp-of_u64 = λ k n h small. ground arith;
  mul-of_u64 = λ m n h. refl;
  round-of_u64 = λ n h. ground arith;
  round-div = λ m n hm pos hn. round_quotient m n;
}
