-- ===== src/Score/Curve.antt =====
-- `round`, `log_curve`, `latency_band` and `lost` of src/score.rs, and the checks that they make.
use mcp_eval.Prelude.{ℕ, String, Option, some, none, List, [], ◌∷◌, leb, ltb, if◌then◌else◌}
use mcp_eval.Score.CheckId.{CheckId}
use mcp_eval.Score.CheckReason.{CheckReason}
use mcp_eval.Score.Floats.{Floats}

abbrev pub catalog_full_tokens : ℕ
catalog_full_tokens = 2000

abbrev pub catalog_zero_tokens : ℕ
catalog_zero_tokens = 40000

abbrev pub tool_full_tokens : ℕ
tool_full_tokens = 500

abbrev pub tool_zero_tokens : ℕ
tool_zero_tokens = 5000

abbrev pub description_min_chars : ℕ
description_min_chars = 40

pub record Check : Type 0 where
  pub id : CheckId
  pub tool : Option String
  pub score : ℕ
  pub observed : Option ℕ
  pub reason : CheckReason

unfoldable pub latency_band : ℕ → ℕ
latency_band median_ms =
    if leb median_ms 100
    then 100
    else if leb median_ms 300
    then 80
    else if leb median_ms 1000
    then 50
    else if leb median_ms 3000
    then 20
    else 0

-- `checks.extend(…)` of an optional check
abbrev pub to_list {ℓ} : {A : Type ℓ} → Option A → List A
to_list none = []
to_list (some a) = a ∷ []

module _ (f : Floats) where
  open f use {F64, of_u64, add, sub, mul, div, ln, round, clamp, as_u64}

  unfoldable pub round_score : F64 → ℕ
  round_score value = as_u64 (clamp (round value) (of_u64 0) (of_u64 100))

  unfoldable pub log_curve : ℕ → ℕ → ℕ → F64
  log_curve value full zero_at =
      if leb value full
      then of_u64 100
      else if leb zero_at value
      then of_u64 0
      else div (mul (of_u64 100) (sub (ln (of_u64 zero_at)) (ln (of_u64 value))))
          (sub (ln (of_u64 zero_at)) (ln (of_u64 full)))

  unfoldable pub lost : CheckId → Option String → F64 → Option ℕ → CheckReason → Option Check
  unfolding round_score
  lost id tool value observed reason =
      let score = round_score value in
      if ltb score 100
      then some
          (record { id = id; tool = tool; score = score; observed = observed; reason = reason })
      else none

  sum_from : F64 → List F64 → F64
  sum_from acc [] = acc
  sum_from acc (x ∷ xs) = sum_from (add acc x) xs

  -- `iter().sum::<f64>()`
  unfoldable pub sum : List F64 → F64
  unfolding sum_from
  sum xs = sum_from (of_u64 0) xs
