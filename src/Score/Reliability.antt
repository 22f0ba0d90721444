-- ===== src/Score/Reliability.antt =====
-- `reliability` of src/score.rs.
use mcp_eval.Prelude.{
  ℕ, String, Bool, true, false, not, ◌&&◌, Option, some, none, List, [], ◌∷◌, ◌++◌, any, count_if,
  length, is_empty, if◌then◌else◌, sum_by, ◌==◌,
}
use mcp_eval.Json.{Value}
use mcp_eval.Score.Area
use mcp_eval.Score.CheckId.{CheckId}
use mcp_eval.Score.CheckReason.{CheckReason}
use mcp_eval.Score.Floats.{Floats}
use mcp_eval.Score.Curve.{Check, lost, round_score, sum, to_list, latency_band}
use mcp_eval.Score.Areas.{AreaScore, count_of, read_only_surface}
use mcp_eval.Standard.{
  ToolObservation, CallCounts, Exercise, not_exercised, exercised, is_writer, total, Observations,
}

pub data Latency : Type 0 where
  banded full_marks : Latency

abbrev is_coverage_skipped : CheckReason → Bool
is_coverage_skipped CheckReason.coverage_skipped = true
is_coverage_skipped _ = false

abbrev skipped_exercise : Option Exercise → Bool
skipped_exercise none = false
skipped_exercise (some (exercised c m o)) = false
skipped_exercise (some (not_exercised reason)) = is_coverage_skipped reason

-- The `skipped` closure.
abbrev pub skipped : ToolObservation → Bool
skipped t = skipped_exercise t.exercise

unfoldable pub untested : List ToolObservation → ℕ
untested tools = count_if (λ t. not (is_writer t.class) && total t.calls == 0) tools

unfoldable pub reliability_measurements : List ToolObservation → List (String × Value)
unfolding untested
reliability_measurements tools =
    ("successful_calls", count_of (sum_by (λ t. t.calls.successful) tools))
    ∷ ("tool_errors", count_of (sum_by (λ t. t.calls.tool_errors) tools))
    ∷ ("rpc_errors", count_of (sum_by (λ t. t.calls.rpc_errors) tools))
    ∷ ("rejected_calls", count_of (sum_by (λ t. t.calls.rejected) tools))
    ∷ ("transport_errors", count_of (sum_by (λ t. t.calls.transport_errors) tools))
    ∷ ("untested_tools", count_of (untested tools))
    ∷ []

module _ (f : Floats) where
  open f use {F64, of_u64, add, sub, mul, div}

  abbrev pub marks : Bool → F64
  marks true = of_u64 100
  marks false = of_u64 0

  abbrev pub latency_marks : Latency → ℕ → F64
  latency_marks banded median_ms = of_u64 (latency_band median_ms)
  latency_marks full_marks median_ms = of_u64 100

  unfoldable pub success_marks : CallCounts → F64
  success_marks calls =
      if total calls == 0
      then of_u64 0
      else div (mul (of_u64 100) (of_u64 calls.successful)) (of_u64 (total calls))

  abbrev schema_marks : Option Bool → List F64
  schema_marks none = []
  schema_marks (some conforms) = marks conforms ∷ []

  abbrev pub schema_checks : ToolObservation → Option Bool → List Check
  schema_checks tool none = []
  schema_checks tool (some conforms) = to_list (
      lost f CheckId.reliability_output_schema (some tool.name) (marks conforms) none
        CheckReason.reliability_output_schema_broken)

  abbrev pub parts : F64 → Bool → Option Bool → List F64
  parts latency consistent schema = marks consistent ∷ latency ∷ schema_marks schema

  -- The round of an exercised tool: the value pushed to `entries`.
  unfoldable pub exercised_value : F64 → CallCounts → Bool → Option Bool → F64
  unfolding success_marks
  exercised_value latency calls consistent schema =
      div (mul (div (success_marks calls) (of_u64 100)) (sum f (parts latency consistent schema)))
        (of_u64 (length (parts latency consistent schema)))

  unfoldable pub exercised_checks : F64 → ToolObservation → Bool → Option Bool → List Check
  unfolding success_marks
  exercised_checks latency tool consistent schema =
      to_list (
        lost f CheckId.reliability_success (some tool.name) (success_marks tool.calls)
          (some tool.calls.successful) CheckReason.reliability_call_failed)
      ++ (to_list (
            lost f CheckId.reliability_consistent (some tool.name) (marks consistent) none
              CheckReason.reliability_inconsistent)
          ++ (to_list (
                lost f CheckId.reliability_latency (some tool.name) latency none
                  CheckReason.reliability_slow)
              ++ schema_checks tool schema))

  abbrev pub none_reason : Option Exercise → CheckReason
  none_reason none = CheckReason.reliability_none_exercised
  none_reason (some (exercised c m o)) = CheckReason.reliability_none_exercised
  none_reason (some (not_exercised reason)) = reason

  -- The round of a tool that is neither skipped nor exercised.
  abbrev pub idle_round : ToolObservation → List F64 × List Check
  idle_round tool = if is_writer tool.class then ([], []) else (
    of_u64 0 ∷ [],
    to_list (
        lost f CheckId.reliability_none_exercised (some tool.name) (of_u64 0) none
          (none_reason tool.exercise)),
  )

  abbrev pub exercise_round : Latency → ToolObservation → Option Exercise → List F64 × List Check
  exercise_round mode tool none = idle_round tool
  exercise_round mode tool (some (not_exercised reason)) = idle_round tool
  exercise_round mode tool (some (exercised c m o)) = (
    exercised_value (latency_marks mode m) tool.calls c o ∷ [],
    exercised_checks (latency_marks mode m) tool c o,
  )

  -- One round of the loop over the tools: what it adds to `entries` and to `checks`.
  unfoldable pub tool_round : Latency → ToolObservation → List F64 × List Check
  unfolding exercised_value exercised_checks
  tool_round mode tool =
      if skipped tool
      then (
        of_u64 0 ∷ [],
        to_list (
            lost f CheckId.reliability_skipped (some tool.name) (of_u64 0) none
              CheckReason.coverage_skipped),
      )
      else exercise_round mode tool tool.exercise

  abbrev pub both : List F64 × List Check → List F64 × List Check → List F64 × List Check
  both (xs, cs) (ys, ds) = (xs ++ ys, cs ++ ds)

  unfoldable pub tool_rounds : Latency → List ToolObservation → List F64 × List Check
  unfolding tool_round
  tool_rounds mode [] = ([], [])
  tool_rounds mode (tool ∷ tools) = both (tool_round mode tool) (tool_rounds mode tools)

  -- One round of the loop over the server-level cases.
  unfoldable pub case_round : Bool → Option Bool → CheckId → CheckReason → List F64 × List Check
  case_round true outcome id reason =
      (of_u64 0 ∷ [], to_list (lost f id none (of_u64 0) none CheckReason.coverage_skipped))
  case_round false none id reason = ([], [])
  case_round false (some passed) id reason =
      (marks passed ∷ [], to_list (lost f id none (marks passed) none reason))

  unfoldable pub case_rounds : Observations → List F64 × List Check
  unfolding case_round
  case_rounds o =
      let any_skipped = any skipped o.tools in
      both
        (case_round any_skipped o.contention CheckId.reliability_contention
          CheckReason.reliability_contention_failed)
        (case_round any_skipped o.payload CheckId.reliability_payload
          CheckReason.reliability_payload_unhandled)

  unfoldable pub mean : List F64 → ℕ
  unfolding round_score
  mean entries = round_score f (div (sum f entries) (of_u64 (length entries)))

  unfoldable pub reliability : Observations → Latency → AreaScore
  unfolding tool_rounds case_rounds read_only_surface reliability_measurements mean
  reliability o mode =
      let rounds = tool_rounds mode o.tools in
      let cases = case_rounds o in
      let unmeasured = is_empty rounds.0 in
      record {
        area = Area.reliability;
        score = if unmeasured then 0 else mean (rounds.0 ++ cases.0);
        checks =
            rounds.1
            ++ (cases.1
                ++ (if unmeasured
                    then to_list (
                        lost f CheckId.reliability_none_exercised none (of_u64 0) none (
                          if read_only_surface o.tools == 0
                          then CheckReason.no_read_only_tools
                          else CheckReason.reliability_none_exercised))
                    else []));
        measurements = reliability_measurements o.tools;
      }
