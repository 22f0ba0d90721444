-- ===== src/Score/Areas.antt =====
-- `protocol`, `catalog`, `context`, `error_honesty` and `coverage` of src/score.rs.
use Prim.Native.Nat.{Ordering, compare}
use Prim.Native.String
use mcp_eval.Prelude.{
  ℕ, String, Bool, true, false, not, ◌&&◌, Option, some, none, List, [], ◌∷◌, ◌++◌, is_none,
  count_if, length, is_empty, if◌then◌else◌, filter_map, sum_by, map_some, leb, ltb, ◌==◌, map,
}
use mcp_eval.Json.{Value, number, unsigned}
use mcp_eval.Score.Area.{Area}
use mcp_eval.Score.CheckId.{CheckId}
use mcp_eval.Score.CheckReason.{CheckReason}
use mcp_eval.Score.Floats.{Floats}
use mcp_eval.Score.Curve.{
  Check, lost, log_curve, round_score, sum, to_list, description_min_chars, catalog_full_tokens,
  catalog_zero_tokens, tool_full_tokens, tool_zero_tokens,
}
use mcp_eval.Standard.{
  ToolObservation, Exercise, not_exercised, exercised, Honesty, honest, dishonest, is_writer,
}

pub record AreaScore : Type 0 where
  pub area : Area
  pub score : ℕ
  pub checks : List Check
  pub measurements : List (String × Value)

abbrev pub count_of : ℕ → Value
count_of n = number (unsigned n)

unfoldable pub read_only_surface : List ToolObservation → ℕ
read_only_surface tools = count_if (λ t. not (is_writer t.class)) tools

-- One entry of `results` in `catalog`.
pub record Fact : Type 0 where
  pub passed : Bool
  pub id : CheckId
  pub reason : CheckReason
  pub observed : Option ℕ

abbrev fact : Bool → CheckId → CheckReason → Option ℕ → Fact
fact passed id reason observed = record {
  passed = passed;
  id = id;
  reason = reason;
  observed = observed;
}

unfoldable pub facts : ToolObservation → List Fact
facts tool =
    let c = tool.catalog in
    fact (leb description_min_chars c.description_chars) CheckId.catalog_description
      CheckReason.catalog_short_description (some c.description_chars)
    ∷ ((if ltb 0 c.properties
          then fact (c.described_properties == c.properties) CheckId.catalog_params_described
              CheckReason.catalog_undescribed_params none
            ∷ fact (c.typed_properties == c.properties) CheckId.catalog_params_typed
                CheckReason.catalog_untyped_params none
            ∷ []
          else [])
        ++ fact c.read_only_declared CheckId.catalog_read_only_declared
            CheckReason.catalog_read_only_undeclared none
          ∷ ((if is_writer tool.class
                then fact c.destructive_declared CheckId.catalog_destructive_declared
                    CheckReason.catalog_destructive_undeclared none
                  ∷ []
                else [])
              ++ fact c.output_schema CheckId.catalog_output_schema
                  CheckReason.catalog_no_output_schema none
                ∷ []))

abbrev is_gt : Ordering → Bool
is_gt Ordering.gt = true
is_gt _ = false

-- `a.tokens.cmp(&b.tokens).then_with(|| b.name.cmp(&a.name))`
abbrev pub heavier : ToolObservation → ToolObservation → Ordering
heavier a b = elim (compare a.tokens b.tokens) [
  | Ordering.eq ↦ String.compare b.name a.name
  | other ↦ other
]

-- `max_by`: the last of the largest.
max_from : ToolObservation → List ToolObservation → ToolObservation
max_from best [] = best
max_from best (t ∷ ts) = max_from (if is_gt (heavier best t) then best else t) ts

unfoldable pub heaviest : List ToolObservation → Option ToolObservation
unfolding max_from
heaviest [] = none
heaviest (t ∷ ts) = some (max_from t ts)

abbrev tokens_of : Option ToolObservation → ℕ
tokens_of none = 0
tokens_of (some t) = t.tokens

abbrev pub is_honest : ToolObservation × Honesty → Bool
is_honest (t, honest) = true
is_honest (t, dishonest r) = false

unfoldable pub judged : List ToolObservation → List (ToolObservation × Honesty)
judged tools = filter_map (λ t. map_some (λ h. (t, h)) t.honesty) tools

abbrev pub is_covered : ToolObservation → Bool
is_covered t = not (is_writer t.class) && ltb 0 t.calls.successful

abbrev pub held : CheckId × Option CheckReason → Bool
held (id, reason) = is_none reason

module _ (f : Floats) where
  open f use {F64, of_u64, add, sub, mul, div}

  -- `round(100.0 * passed as f64 / n as f64)`
  unfoldable pub share : ℕ → ℕ → ℕ
  unfolding round_score
  share passed n = round_score f (div (mul (of_u64 100) (of_u64 passed)) (of_u64 n))

  abbrev pub protocol_loss : CheckId × Option CheckReason → Option Check
  protocol_loss (id, none) = none
  protocol_loss (id, some reason) = lost f id none (of_u64 0) none reason

  unfoldable pub protocol : List (CheckId × Option CheckReason) → AreaScore
  unfolding share
  protocol results = record {
    area = Area.protocol;
    score = if is_empty results then 0 else share (count_if held results) (length results);
    checks =
        filter_map protocol_loss results
        ++ (if is_empty results
            then to_list
                (lost f CheckId.protocol_ping none (of_u64 0) none CheckReason.protocol_call_failed)
            else []);
    measurements = [];
  }

  abbrev pub fact_loss : ToolObservation → Fact → Option Check
  fact_loss tool r =
      if r.passed then none else lost f r.id (some tool.name) (of_u64 0) r.observed r.reason

  unfoldable pub fraction : ToolObservation → F64
  unfolding facts
  fraction tool =
      div (mul (of_u64 100) (of_u64 (count_if (λ r. r.passed) (facts tool))))
        (of_u64 (length (facts tool)))

  unfoldable pub catalog_checks : List ToolObservation → List Check
  unfolding facts
  catalog_checks [] = []
  catalog_checks (tool ∷ tools) = filter_map (fact_loss tool) (facts tool) ++ catalog_checks tools

  unfoldable pub catalog : List ToolObservation → AreaScore
  unfolding fraction catalog_checks
  catalog tools = record {
    area = Area.catalog;
    score =
        if is_empty tools
        then 0
        else round_score f (div (sum f (map fraction tools)) (of_u64 (length tools)));
    checks =
        if is_empty tools
        then to_list
            (lost f CheckId.catalog_empty none (of_u64 0) none CheckReason.catalog_no_tools)
        else catalog_checks tools;
    measurements = [];
  }

  -- `CATALOG_SHARE`, 0.75
  abbrev catalog_share : F64
  catalog_share = div (of_u64 3) (of_u64 4)

  unfoldable pub context : List ToolObservation → AreaScore
  unfolding heaviest
  context tools =
      let catalog_tokens = sum_by (λ t. t.tokens) tools in
      let most = heaviest tools in
      let catalog_part = log_curve f catalog_tokens catalog_full_tokens catalog_zero_tokens in
      let tool_part = log_curve f (tokens_of most) tool_full_tokens tool_zero_tokens in
      record {
        area = Area.context;
        score =
            round_score f
              (add (mul catalog_share catalog_part) (mul (sub (of_u64 1) catalog_share) tool_part));
        checks =
            to_list (
              lost f CheckId.context_catalog none catalog_part (some catalog_tokens)
                CheckReason.context_catalog_heavy)
            ++ to_list (
                lost f CheckId.context_heaviest_tool
                  (map_some (λ (t : ToolObservation). t.name) most) tool_part
                  (some (tokens_of most)) CheckReason.context_tool_heavy);
        measurements =
            ("catalog_tokens", count_of catalog_tokens)
            ∷ ("heaviest_tool_tokens", count_of (tokens_of most))
            ∷ [];
      }

  abbrev pub honesty_loss : ToolObservation × Honesty → Option Check
  honesty_loss (tool, honest) = none
  honesty_loss (tool, dishonest reason) =
      lost f CheckId.error_honesty_invalid_arguments (some tool.name) (of_u64 0) none reason

  unfoldable pub error_honesty : List ToolObservation → AreaScore
  unfolding share judged read_only_surface
  error_honesty tools = record {
    area = Area.error_honesty;
    score =
        if is_empty (judged tools)
        then 0
        else share (count_if is_honest (judged tools)) (length (judged tools));
    checks =
        filter_map honesty_loss (judged tools)
        ++ (if is_empty (judged tools)
            then to_list (
                lost f CheckId.error_honesty_untestable none (of_u64 0) none (
                  if read_only_surface tools == 0
                  then CheckReason.no_read_only_tools
                  else CheckReason.honesty_untestable))
            else []);
    measurements = [];
  }

  abbrev pub coverage_loss : ToolObservation → Option Exercise → Option Check
  coverage_loss tool none = none
  coverage_loss tool (some (exercised c m o)) =
      lost f CheckId.coverage_exercised (some tool.name) (of_u64 0) none
        CheckReason.coverage_call_failed
  coverage_loss tool (some (not_exercised reason)) =
      lost f CheckId.coverage_exercised (some tool.name) (of_u64 0) none reason

  -- One round of the loop in `coverage`.
  abbrev pub coverage_check : ToolObservation → Option Check
  coverage_check t =
      if is_writer t.class
      then none
      else if ltb 0 t.calls.successful
      then none
      else coverage_loss t t.exercise

  unfoldable pub coverage : List ToolObservation → AreaScore
  unfolding share read_only_surface
  coverage tools = record {
    area = Area.coverage;
    score =
        if read_only_surface tools == 0
        then 0
        else share (count_if is_covered tools) (read_only_surface tools);
    checks =
        filter_map coverage_check tools
        ++ (if read_only_surface tools == 0
            then to_list (
                lost f CheckId.coverage_exercised none (of_u64 0) none
                  CheckReason.no_read_only_tools)
            else []);
    measurements = [];
  }
