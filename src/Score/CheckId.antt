-- ===== src/Score/CheckId.antt =====
-- `CheckId` of src/score.rs: what a check of the standard looks at.
use mcp_eval.Prelude.{String, ◌≡◌, refl, Option, some, List, [], ◌∷◌, arith, str_eq, eq_iff, find}

pub data CheckId : Type 0 where
  context_catalog context_heaviest_tool : CheckId
  reliability_success reliability_consistent : CheckId
  reliability_latency reliability_output_schema : CheckId
  reliability_contention reliability_payload : CheckId
  reliability_none_exercised reliability_skipped : CheckId
  coverage_exercised catalog_description : CheckId
  catalog_params_described catalog_params_typed : CheckId
  catalog_read_only_declared catalog_destructive_declared : CheckId
  catalog_output_schema catalog_empty : CheckId
  protocol_negotiation protocol_unknown_method : CheckId
  protocol_ping protocol_unknown_tool : CheckId
  protocol_pagination protocol_surfaces : CheckId
  error_honesty_invalid_arguments error_honesty_untestable : CheckId

-- `CheckId::ALL`
unfoldable pub all_checks : List CheckId
all_checks =
    context_catalog ∷ context_heaviest_tool ∷ reliability_success ∷ reliability_consistent
    ∷ reliability_latency ∷ reliability_output_schema ∷ reliability_contention ∷ reliability_payload
    ∷ reliability_none_exercised ∷ reliability_skipped ∷ coverage_exercised ∷ catalog_description
    ∷ catalog_params_described ∷ catalog_params_typed ∷ catalog_read_only_declared
    ∷ catalog_destructive_declared ∷ catalog_output_schema ∷ catalog_empty ∷ protocol_negotiation
    ∷ protocol_unknown_method ∷ protocol_ping ∷ protocol_unknown_tool ∷ protocol_pagination
    ∷ protocol_surfaces ∷ error_honesty_invalid_arguments ∷ error_honesty_untestable ∷ []

unfoldable pub as_str : CheckId → String
as_str context_catalog = "context.catalog"
as_str context_heaviest_tool = "context.heaviest-tool"
as_str reliability_success = "reliability.success"
as_str reliability_consistent = "reliability.consistent"
as_str reliability_latency = "reliability.latency"
as_str reliability_output_schema = "reliability.output-schema"
as_str reliability_contention = "reliability.contention"
as_str reliability_payload = "reliability.payload"
as_str reliability_none_exercised = "reliability.none-exercised"
as_str reliability_skipped = "reliability.skipped"
as_str coverage_exercised = "coverage.exercised"
as_str catalog_description = "catalog.description"
as_str catalog_params_described = "catalog.params-described"
as_str catalog_params_typed = "catalog.params-typed"
as_str catalog_read_only_declared = "catalog.read-only-declared"
as_str catalog_destructive_declared = "catalog.destructive-declared"
as_str catalog_output_schema = "catalog.output-schema"
as_str catalog_empty = "catalog.empty"
as_str protocol_negotiation = "protocol.negotiation"
as_str protocol_unknown_method = "protocol.unknown-method"
as_str protocol_ping = "protocol.ping"
as_str protocol_unknown_tool = "protocol.unknown-tool"
as_str protocol_pagination = "protocol.pagination"
as_str protocol_surfaces = "protocol.surfaces"
as_str error_honesty_invalid_arguments = "error-honesty.invalid-arguments"
as_str error_honesty_untestable = "error-honesty.untestable"

unfoldable pub from_label : String → Option CheckId
unfolding all_checks as_str
from_label label = find (λ x. str_eq (as_str x) label) all_checks

-- Every label reads back as the value that wrote it.
pub from_label-as_str : (x : CheckId) → from_label (as_str x) ≡ some x
unfolding from_label
from_label-as_str context_catalog = refl
from_label-as_str _ = refl

labels_sound :
    (xs : List CheckId) (label : String) (x : CheckId)
    → find (λ y. str_eq (as_str y) label) xs ≡ some x
    → as_str x ≡ label
labels_sound [] label x h = cc
labels_sound (y ∷ ys) label x h = ground (arith, eq_iff (as_str y) label, labels_sound ys label x)

-- A label that is read is the label of the value: no other text names it.
pub as_str-from_label :
    (label : String) (x : CheckId) → from_label label ≡ some x → as_str x ≡ label
as_str-from_label label x h = labels_sound all_checks label x (unfold from_label in h)

pub CheckId-discrete : Discrete CheckId
CheckId-discrete = hlevel
