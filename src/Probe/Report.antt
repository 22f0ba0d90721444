-- ===== src/Probe/Report.antt =====
-- The reports of src/probe/report.rs, as far as comparisons and exit codes read them, and the exit
-- code that src/main.rs gives for one, by the contract of src/exit.rs.
use mcp_eval.Prelude.{
  ℕ, String, Bool, false, not, ◌||◌, Option, none, some, List, all, any, count_if, is_empty,
  is_none, is_some, length, if◌then◌else◌,
}
use mcp_eval.Score.Fold.{Readiness}
use mcp_eval.Gate.{FloorGate}
use mcp_eval.Gate
use mcp_eval.Probe.ProbeKind.{ProbeKind}
use mcp_eval.Probe.FailureReason.{FailureReason, is_transport}

-- `total_tokens` is that of the case's `token_usage`; its tool, counters and details are left out.
pub record CaseReport : Type 0 where
  pub id : String
  pub probe : ProbeKind
  pub reason : Option FailureReason
  pub total_tokens : Option ℕ
  pub latency_ms : Option ℕ

-- The catalog is left out.
pub record ProbeReport : Type 0 where
  pub cases : List CaseReport
  pub manifest_sha256 : Option String
  pub readiness : Option Readiness
  pub readiness_error : Option FailureReason
  pub legacy_score : Option ℕ
  pub readiness_gate : Option FloorGate

abbrev pub case_passed : CaseReport → Bool
case_passed c = is_none c.reason

abbrev pub transport_reason : Option FailureReason → Bool
transport_reason none = false
transport_reason (some reason) = is_transport reason

abbrev pub case_errored : CaseReport → Bool
case_errored c = transport_reason c.reason

unfoldable pub all_passed : ProbeReport → Bool
all_passed report = all case_passed report.cases

-- `x == Some(false)`
abbrev pub is_some_false : Option Bool → Bool
is_some_false none = false
is_some_false (some b) = not b

abbrev pub gate_failed : Option FloorGate → Bool
gate_failed none = false
gate_failed (some gate) = is_some_false (Gate.passed gate)

unfoldable pub below_floor : ProbeReport → Bool
below_floor report = gate_failed report.readiness_gate

-- `ProbeReport::gate`
unfoldable pub case_counts : ProbeReport → Option (ℕ × ℕ)
case_counts report =
    if is_some report.manifest_sha256 || not (is_empty report.cases)
    then some (count_if case_passed report.cases, length report.cases)
    else none

unfoldable pub run_errored : ProbeReport → Bool
run_errored report = any case_errored report.cases || is_some report.readiness_error

-- `VERDICT`, `USAGE` and `INFRASTRUCTURE`
abbrev pub verdict_code : ℕ
verdict_code = 1

abbrev pub usage_code : ℕ
usage_code = 2

abbrev pub infrastructure_code : ℕ
infrastructure_code = 3

-- The code that the process exits with after `exit_for_report`; 0 where it returns.
unfoldable pub exit_for_report : ProbeReport → ℕ
unfolding all_passed below_floor run_errored
exit_for_report report =
    if run_errored report
    then infrastructure_code
    else if not (all_passed report) || below_floor report
    then verdict_code
    else 0
