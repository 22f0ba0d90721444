-- ===== src/Arguments/WholeNumbers.antt =====
-- Whole numbers as an instance of the numbers that src/standard.rs computes with, for the examples.
use mcp_eval.Prelude.{ℕ, ◌+◌, min, true}
use mcp_eval.Prelude.Int.{pos}
use mcp_eval.Json.{number, unsigned, as_u64}
use mcp_eval.Arguments.Synthesis.{NumberOps}

abbrev pub whole_numbers : NumberOps
whole_numbers = record {
  F64 = ℕ;
  one = 1;
  as_f64 = as_u64;
  add = λ a b. a + b;
  min = λ a b. min a b;
  is_whole = λ a. true;
  as_i64 = λ a. pos a;
  to_value = λ a. number (unsigned a);
}
