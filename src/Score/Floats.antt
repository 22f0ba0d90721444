-- ===== src/Score/Floats.antt =====
-- `f64`, which antt does not have: the operations that src/score.rs uses, and what it relies on of
-- them, as IEEE 754 and the documentation of Rust's `f64` state it.
use mcp_eval.Prelude.{ℕ, ◌+◌, ◌*◌, ◌/◌, ◌^◌, ◌≤◌, ◌<◌, ◌≡◌}

pub record Floats : Type 1 where
  pub F64 : Type 0
  -- `n as f64`
  pub of_u64 : ℕ → F64
  pub add : F64 → F64 → F64
  pub sub : F64 → F64 → F64
  pub mul : F64 → F64 → F64
  pub div : F64 → F64 → F64
  pub ln : F64 → F64
  pub round : F64 → F64
  -- `x.clamp(lo, hi)`
  pub clamp : F64 → F64 → F64 → F64
  -- `x as u64`
  pub as_u64 : F64 → ℕ

-- Integers below 2^53 are exact, and so are their products below it. A quotient of integers below
-- 2^52 differs from every half-integer that it does not equal by more than its rounding error.
pub record FloatLaws (f : Floats) : Type 1 where
  pub as_u64-of_u64 : (n : ℕ) → n < 2 ^ 53 → Floats.as_u64 f (Floats.of_u64 f n) ≡ n
  pub as_u64-clamp :
      (x : Floats.F64 f) (n : ℕ)
      → n < 2 ^ 53
      → Floats.as_u64 f (Floats.clamp f x (Floats.of_u64 f 0) (Floats.of_u64 f n)) ≤ n
  pub clamp-of_u64 :
      (k n : ℕ)
      → k ≤ n
      → n < 2 ^ 53
      → Floats.clamp f (Floats.of_u64 f k) (Floats.of_u64 f 0) (Floats.of_u64 f n)
        ≡ Floats.of_u64 f k
  pub mul-of_u64 :
      (m n : ℕ)
      → m * n < 2 ^ 53
      → Floats.mul f (Floats.of_u64 f m) (Floats.of_u64 f n) ≡ Floats.of_u64 f (m * n)
  pub round-of_u64 : (n : ℕ) → n < 2 ^ 53 → Floats.round f (Floats.of_u64 f n) ≡ Floats.of_u64 f n
  pub round-div :
      (m n : ℕ)
      → m < 2 ^ 52
      → 0 < n
      → n < 2 ^ 52
      → Floats.round f (Floats.div f (Floats.of_u64 f m) (Floats.of_u64 f n))
        ≡ Floats.of_u64 f ((2 * m + n) / (2 * n))
