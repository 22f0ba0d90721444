-- ===== src/Score/CheckReason.antt =====
-- `CheckReason` of src/score.rs: why a check lost points.
use mcp_eval.Prelude.{String, ◌≡◌, refl, Option, some, List, [], ◌∷◌, arith, str_eq, eq_iff, find}

pub data CheckReason : Type 0 where
  context_catalog_heavy context_tool_heavy : CheckReason
  reliability_call_failed reliability_inconsistent : CheckReason
  reliability_slow reliability_output_schema_broken : CheckReason
  reliability_contention_failed reliability_payload_unhandled : CheckReason
  reliability_none_exercised coverage_unannotated : CheckReason
  coverage_unsynthesizable coverage_skipped : CheckReason
  coverage_rejected_arguments coverage_call_failed : CheckReason
  no_read_only_tools catalog_short_description : CheckReason
  catalog_undescribed_params catalog_untyped_params : CheckReason
  catalog_read_only_undeclared catalog_destructive_undeclared : CheckReason
  catalog_no_output_schema catalog_no_tools : CheckReason
  protocol_negotiation_echoed_unknown protocol_negotiation_invalid_version : CheckReason
  protocol_negotiation_inconsistent_support protocol_unknown_method_answered : CheckReason
  protocol_ping_failed protocol_unknown_tool_accepted : CheckReason
  protocol_pagination_invalid protocol_surface_invalid : CheckReason
  protocol_call_failed honesty_accepted_invalid : CheckReason
  honesty_empty_error honesty_wrong_code : CheckReason
  honesty_call_failed honesty_untestable : CheckReason

-- `CheckReason::ALL`
unfoldable pub all_reasons : List CheckReason
all_reasons =
    context_catalog_heavy ∷ context_tool_heavy ∷ reliability_call_failed ∷ reliability_inconsistent
    ∷ reliability_slow ∷ reliability_output_schema_broken ∷ reliability_contention_failed
    ∷ reliability_payload_unhandled ∷ reliability_none_exercised ∷ coverage_unannotated
    ∷ coverage_unsynthesizable ∷ coverage_skipped ∷ coverage_rejected_arguments
    ∷ coverage_call_failed ∷ no_read_only_tools ∷ catalog_short_description
    ∷ catalog_undescribed_params ∷ catalog_untyped_params ∷ catalog_read_only_undeclared
    ∷ catalog_destructive_undeclared ∷ catalog_no_output_schema ∷ catalog_no_tools
    ∷ protocol_negotiation_echoed_unknown ∷ protocol_negotiation_invalid_version
    ∷ protocol_negotiation_inconsistent_support ∷ protocol_unknown_method_answered
    ∷ protocol_ping_failed ∷ protocol_unknown_tool_accepted ∷ protocol_pagination_invalid
    ∷ protocol_surface_invalid ∷ protocol_call_failed ∷ honesty_accepted_invalid
    ∷ honesty_empty_error ∷ honesty_wrong_code ∷ honesty_call_failed ∷ honesty_untestable ∷ []

unfoldable pub as_str : CheckReason → String
as_str context_catalog_heavy = "context-catalog-heavy"
as_str context_tool_heavy = "context-tool-heavy"
as_str reliability_call_failed = "reliability-call-failed"
as_str reliability_inconsistent = "reliability-inconsistent"
as_str reliability_slow = "reliability-slow"
as_str reliability_output_schema_broken = "reliability-output-schema-broken"
as_str reliability_contention_failed = "reliability-contention-failed"
as_str reliability_payload_unhandled = "reliability-payload-unhandled"
as_str reliability_none_exercised = "reliability-none-exercised"
as_str coverage_unannotated = "coverage-unannotated"
as_str coverage_unsynthesizable = "coverage-unsynthesizable"
as_str coverage_skipped = "coverage-skipped"
as_str coverage_rejected_arguments = "coverage-rejected-arguments"
as_str coverage_call_failed = "coverage-call-failed"
as_str no_read_only_tools = "no-read-only-tools"
as_str catalog_short_description = "catalog-short-description"
as_str catalog_undescribed_params = "catalog-undescribed-params"
as_str catalog_untyped_params = "catalog-untyped-params"
as_str catalog_read_only_undeclared = "catalog-read-only-undeclared"
as_str catalog_destructive_undeclared = "catalog-destructive-undeclared"
as_str catalog_no_output_schema = "catalog-no-output-schema"
as_str catalog_no_tools = "catalog-no-tools"
as_str protocol_negotiation_echoed_unknown = "protocol-negotiation-echoed-unknown"
as_str protocol_negotiation_invalid_version = "protocol-negotiation-invalid-version"
as_str protocol_negotiation_inconsistent_support = "protocol-negotiation-inconsistent-support"
as_str protocol_unknown_method_answered = "protocol-unknown-method-answered"
as_str protocol_ping_failed = "protocol-ping-failed"
as_str protocol_unknown_tool_accepted = "protocol-unknown-tool-accepted"
as_str protocol_pagination_invalid = "protocol-pagination-invalid"
as_str protocol_surface_invalid = "protocol-surface-invalid"
as_str protocol_call_failed = "protocol-call-failed"
as_str honesty_accepted_invalid = "honesty-accepted-invalid"
as_str honesty_empty_error = "honesty-empty-error"
as_str honesty_wrong_code = "honesty-wrong-code"
as_str honesty_call_failed = "honesty-call-failed"
as_str honesty_untestable = "honesty-untestable"

unfoldable pub from_label : String → Option CheckReason
unfolding all_reasons as_str
from_label label = find (λ x. str_eq (as_str x) label) all_reasons

-- Every label reads back as the value that wrote it.
pub from_label-as_str : (x : CheckReason) → from_label (as_str x) ≡ some x
unfolding from_label
from_label-as_str context_catalog_heavy = refl
from_label-as_str _ = refl

labels_sound :
    (xs : List CheckReason) (label : String) (x : CheckReason)
    → find (λ y. str_eq (as_str y) label) xs ≡ some x
    → as_str x ≡ label
labels_sound [] label x h = cc
labels_sound (y ∷ ys) label x h = ground (arith, eq_iff (as_str y) label, labels_sound ys label x)

-- A label that is read is the label of the value: no other text names it.
pub as_str-from_label :
    (label : String) (x : CheckReason) → from_label label ≡ some x → as_str x ≡ label
as_str-from_label label x h = labels_sound all_reasons label x (unfold from_label in h)

pub CheckReason-discrete : Discrete CheckReason
CheckReason-discrete = hlevel
