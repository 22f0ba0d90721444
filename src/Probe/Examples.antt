-- ===== src/Probe/Examples.antt =====
-- Labels that a report may hold.
use mcp_eval.Prelude.{false, All, [], ◌∷◌, ◌≡◌, ◌↔◌, refl, none, some}
use mcp_eval.Probe.Report.{ProbeReport, exit_for_report, run_errored, below_floor}
use mcp_eval.Probe.Exit.{exit_zero}
use mcp_eval.Probe.ProbeKind
use mcp_eval.Probe.ProbeKind.{ProbeKind, kind_label_iff}
use mcp_eval.Probe.FailureReason
use mcp_eval.Probe.FailureReason.{FailureReason, reason_label_iff}

unknown_test : FailureReason.from_report_label "gave-up" ≡ none
unfolding FailureReason.from_report_label FailureReason.labels
unknown_test = refl

kind_label_iff_test :
    (ProbeKind.from_report_label "token-cost" ≡ some ProbeKind.token_cost)
    ↔ (ProbeKind.as_str ProbeKind.token_cost ≡ "token-cost")
kind_label_iff_test = kind_label_iff "token-cost" ProbeKind.token_cost

reason_label_iff_test :
    (FailureReason.from_report_label "missing-field" ≡ some FailureReason.missing_field)
    ↔ (FailureReason.as_str FailureReason.missing_field ≡ "missing-field")
reason_label_iff_test = reason_label_iff "missing-field" FailureReason.missing_field

-- One case passed, one lost its transport, and the battery finished.
abbrev run : ProbeReport
run = record {
  cases =
      record {
        id = "pages";
        probe = ProbeKind.pagination;
        reason = none;
        total_tokens = none;
        latency_ms = none;
      }
      ∷ record {
        id = "slow";
        probe = ProbeKind.latency_budget;
        reason = some FailureReason.transport_timeout;
        total_tokens = none;
        latency_ms = none;
      }
      ∷ [];
  manifest_sha256 = none;
  readiness = none;
  readiness_error = none;
  legacy_score = none;
  readiness_gate = none;
}

incomplete_test : exit_for_report run ≡ 3
unfolding exit_for_report run_errored FailureReason.is_transport
incomplete_test = refl

exit_zero_example : (exit_for_report run ≡ 0) ↔ (
    All (λ c. c.reason ≡ none) run.cases × (run.readiness_error ≡ none) × (below_floor run ≡ false))
exit_zero_example = exit_zero run
