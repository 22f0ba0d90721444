-- ===== src/Probe/FailureReason.antt =====
-- `FailureReason` of src/probe.rs: why a case of a probe failed.
use mcp_eval.Prelude.{◌≡◌, ◌↔◌, refl, String, Bool, true, false, Option, some, List, [], ◌∷◌, All}
use mcp_eval.Json.{lookup, all_named, lookup_sound}

pub data FailureReason : Type 0 where
  unexpected_outcome missing_field : FailureReason
  value_mismatch error_code_mismatch : FailureReason
  discovery_limit_exceeded token_budget_exceeded : FailureReason
  invalid_schema missing_required_argument : FailureReason
  expected_error unstable_error_code : FailureReason
  retryability_mismatch retry_did_not_recover : FailureReason
  failure_not_observed recovery_failed : FailureReason
  validation_failed contended_client_failed : FailureReason
  latency_budget_exceeded pagination_invalid_entry : FailureReason
  pagination_duplicate_tool pagination_stalled_cursor : FailureReason
  payload_unhandled surface_invalid_envelope : FailureReason
  surface_stalled_cursor output_schema_declared_but_missing : FailureReason
  output_schema_field_missing output_schema_invalid_result : FailureReason
  cancellation_ignored cancellation_errored : FailureReason
  negotiation_echoed_unknown negotiation_invalid_version : FailureReason
  negotiation_inconsistent_support sampling_invalid_request : FailureReason
  sampling_request_flood sampling_stalled_call : FailureReason
  elicitation_invalid_request elicitation_request_flood : FailureReason
  elicitation_stalled_call resource_unreadable : FailureReason
  subscription_rejected subscription_notification_missing : FailureReason
  completion_invalid_request completion_value_flood : FailureReason
  completion_argument_unknown completion_stalled_request : FailureReason
  transport_timeout transport_closed : FailureReason
  transport_error evaluation_budget_exceeded : FailureReason

unfoldable pub as_str : FailureReason → String
as_str unexpected_outcome = "unexpected-outcome"
as_str missing_field = "missing-field"
as_str value_mismatch = "value-mismatch"
as_str error_code_mismatch = "error-code-mismatch"
as_str discovery_limit_exceeded = "discovery-limit-exceeded"
as_str token_budget_exceeded = "token-budget-exceeded"
as_str invalid_schema = "invalid-schema"
as_str missing_required_argument = "missing-required-argument"
as_str expected_error = "expected-error"
as_str unstable_error_code = "unstable-error-code"
as_str retryability_mismatch = "retryability-mismatch"
as_str retry_did_not_recover = "retry-did-not-recover"
as_str failure_not_observed = "failure-not-observed"
as_str recovery_failed = "recovery-failed"
as_str validation_failed = "validation-failed"
as_str contended_client_failed = "contended-client-failed"
as_str latency_budget_exceeded = "latency-budget-exceeded"
as_str pagination_invalid_entry = "pagination-invalid-entry"
as_str pagination_duplicate_tool = "pagination-duplicate-tool"
as_str pagination_stalled_cursor = "pagination-stalled-cursor"
as_str payload_unhandled = "payload-unhandled"
as_str surface_invalid_envelope = "surface-invalid-envelope"
as_str surface_stalled_cursor = "surface-stalled-cursor"
as_str output_schema_declared_but_missing = "output-schema-declared-but-missing"
as_str output_schema_field_missing = "output-schema-field-missing"
as_str output_schema_invalid_result = "output-schema-invalid-result"
as_str cancellation_ignored = "cancellation-ignored"
as_str cancellation_errored = "cancellation-errored"
as_str negotiation_echoed_unknown = "negotiation-echoed-unknown"
as_str negotiation_invalid_version = "negotiation-invalid-version"
as_str negotiation_inconsistent_support = "negotiation-inconsistent-support"
as_str sampling_invalid_request = "sampling-invalid-request"
as_str sampling_request_flood = "sampling-request-flood"
as_str sampling_stalled_call = "sampling-stalled-call"
as_str elicitation_invalid_request = "elicitation-invalid-request"
as_str elicitation_request_flood = "elicitation-request-flood"
as_str elicitation_stalled_call = "elicitation-stalled-call"
as_str resource_unreadable = "resource-unreadable"
as_str subscription_rejected = "subscription-rejected"
as_str subscription_notification_missing = "subscription-notification-missing"
as_str completion_invalid_request = "completion-invalid-request"
as_str completion_value_flood = "completion-value-flood"
as_str completion_argument_unknown = "completion-argument-unknown"
as_str completion_stalled_request = "completion-stalled-request"
as_str transport_timeout = "transport-timeout"
as_str transport_closed = "transport-closed"
as_str transport_error = "transport-error"
as_str evaluation_budget_exceeded = "evaluation-budget-exceeded"

-- The arms of the match on a label, in order.
unfoldable pub labels : List (String × FailureReason)
labels =
    ("unexpected-outcome", unexpected_outcome)
    ∷ ("missing-field", missing_field)
    ∷ ("value-mismatch", value_mismatch)
    ∷ ("error-code-mismatch", error_code_mismatch)
    ∷ ("discovery-limit-exceeded", discovery_limit_exceeded)
    ∷ ("token-budget-exceeded", token_budget_exceeded)
    ∷ ("invalid-schema", invalid_schema)
    ∷ ("missing-required-argument", missing_required_argument)
    ∷ ("expected-error", expected_error)
    ∷ ("unstable-error-code", unstable_error_code)
    ∷ ("retryability-mismatch", retryability_mismatch)
    ∷ ("retry-did-not-recover", retry_did_not_recover)
    ∷ ("failure-not-observed", failure_not_observed)
    ∷ ("recovery-failed", recovery_failed)
    ∷ ("validation-failed", validation_failed)
    ∷ ("contended-client-failed", contended_client_failed)
    ∷ ("latency-budget-exceeded", latency_budget_exceeded)
    ∷ ("pagination-invalid-entry", pagination_invalid_entry)
    ∷ ("pagination-duplicate-tool", pagination_duplicate_tool)
    ∷ ("pagination-stalled-cursor", pagination_stalled_cursor)
    ∷ ("payload-unhandled", payload_unhandled)
    ∷ ("surface-invalid-envelope", surface_invalid_envelope)
    ∷ ("surface-stalled-cursor", surface_stalled_cursor)
    ∷ ("output-schema-declared-but-missing", output_schema_declared_but_missing)
    ∷ ("output-schema-field-missing", output_schema_field_missing)
    ∷ ("output-schema-invalid-result", output_schema_invalid_result)
    ∷ ("cancellation-ignored", cancellation_ignored)
    ∷ ("cancellation-errored", cancellation_errored)
    ∷ ("negotiation-echoed-unknown", negotiation_echoed_unknown)
    ∷ ("negotiation-invalid-version", negotiation_invalid_version)
    ∷ ("negotiation-inconsistent-support", negotiation_inconsistent_support)
    ∷ ("sampling-invalid-request", sampling_invalid_request)
    ∷ ("sampling-request-flood", sampling_request_flood)
    ∷ ("sampling-stalled-call", sampling_stalled_call)
    ∷ ("elicitation-invalid-request", elicitation_invalid_request)
    ∷ ("elicitation-request-flood", elicitation_request_flood)
    ∷ ("elicitation-stalled-call", elicitation_stalled_call)
    ∷ ("resource-unreadable", resource_unreadable)
    ∷ ("subscription-rejected", subscription_rejected)
    ∷ ("subscription-notification-missing", subscription_notification_missing)
    ∷ ("completion-invalid-request", completion_invalid_request)
    ∷ ("completion-value-flood", completion_value_flood)
    ∷ ("completion-argument-unknown", completion_argument_unknown)
    ∷ ("completion-stalled-request", completion_stalled_request)
    ∷ ("transport-timeout", transport_timeout)
    ∷ ("transport-closed", transport_closed)
    ∷ ("transport-error", transport_error)
    ∷ ("evaluation-budget-exceeded", evaluation_budget_exceeded)
    ∷ []

unfoldable pub from_report_label : String → Option FailureReason
unfolding labels
from_report_label label = lookup label labels

unfoldable pub is_transport : FailureReason → Bool
is_transport transport_timeout = true
is_transport transport_closed = true
is_transport transport_error = true
is_transport evaluation_budget_exceeded = true
is_transport _ = false

from_report_label-as_str : (x : FailureReason) → from_report_label (as_str x) ≡ some x
unfolding from_report_label as_str
from_report_label-as_str unexpected_outcome = refl
from_report_label-as_str _ = refl

labels_sound : All (λ e. as_str e.1 ≡ e.0) labels
unfolding labels as_str
labels_sound = all_named as_str labels refl

-- A label of a report is read as a reason exactly when it is the label that the reason is written with.
pub reason_label_iff :
    (label : String) (x : FailureReason) → (from_report_label label ≡ some x) ↔ (as_str x ≡ label)
unfolding from_report_label
reason_label_iff label x =
    (lookup_sound as_str label labels x labels_sound, λ h. rw (← h) (from_report_label-as_str x))

pub FailureReason-discrete : Discrete FailureReason
FailureReason-discrete = hlevel
