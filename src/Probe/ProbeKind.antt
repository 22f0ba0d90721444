-- ===== src/Probe/ProbeKind.antt =====
-- `ProbeKind` of src/manifest.rs, with `from_report_label` of src/probe.rs.
use mcp_eval.Prelude.{◌≡◌, ◌↔◌, refl, String, Option, some, List, [], ◌∷◌, All}
use mcp_eval.Json.{lookup, all_named, lookup_sound}

pub data ProbeKind : Type 0 where
  contention error_honesty : ProbeKind
  state_recovery discovery_cost : ProbeKind
  token_cost schema_guessability : ProbeKind
  degradation_over_n instruction_fidelity : ProbeKind
  latency_budget pagination : ProbeKind
  payload_bounds surface_listing : ProbeKind
  output_schema cancellation : ProbeKind
  protocol_negotiation sampling : ProbeKind
  elicitation resource_subscription : ProbeKind
  completion workflow : ProbeKind

unfoldable pub as_str : ProbeKind → String
as_str contention = "contention"
as_str error_honesty = "error-honesty"
as_str state_recovery = "state-recovery"
as_str discovery_cost = "discovery-cost"
as_str token_cost = "token-cost"
as_str schema_guessability = "schema-guessability"
as_str degradation_over_n = "degradation-over-n"
as_str instruction_fidelity = "instruction-fidelity"
as_str latency_budget = "latency-budget"
as_str pagination = "pagination"
as_str payload_bounds = "payload-bounds"
as_str surface_listing = "surface-listing"
as_str output_schema = "output-schema"
as_str cancellation = "cancellation"
as_str protocol_negotiation = "protocol-negotiation"
as_str sampling = "sampling"
as_str elicitation = "elicitation"
as_str resource_subscription = "resource-subscription"
as_str completion = "completion"
as_str workflow = "workflow"

-- The arms of the match on a label, in order.
unfoldable pub labels : List (String × ProbeKind)
labels =
    ("workflow", workflow)
    ∷ ("contention", contention)
    ∷ ("error-honesty", error_honesty)
    ∷ ("state-recovery", state_recovery)
    ∷ ("discovery-cost", discovery_cost)
    ∷ ("token-cost", token_cost)
    ∷ ("schema-guessability", schema_guessability)
    ∷ ("degradation-over-n", degradation_over_n)
    ∷ ("instruction-fidelity", instruction_fidelity)
    ∷ ("latency-budget", latency_budget)
    ∷ ("pagination", pagination)
    ∷ ("payload-bounds", payload_bounds)
    ∷ ("surface-listing", surface_listing)
    ∷ ("output-schema", output_schema)
    ∷ ("cancellation", cancellation)
    ∷ ("protocol-negotiation", protocol_negotiation)
    ∷ ("sampling", sampling)
    ∷ ("elicitation", elicitation)
    ∷ ("resource-subscription", resource_subscription)
    ∷ ("completion", completion)
    ∷ []

unfoldable pub from_report_label : String → Option ProbeKind
unfolding labels
from_report_label label = lookup label labels

from_report_label-as_str : (x : ProbeKind) → from_report_label (as_str x) ≡ some x
unfolding from_report_label as_str
from_report_label-as_str contention = refl
from_report_label-as_str _ = refl

labels_sound : All (λ e. as_str e.1 ≡ e.0) labels
unfolding labels as_str
labels_sound = all_named as_str labels refl

-- A label of a report is read as a kind exactly when it is the label that the kind is written with.
pub kind_label_iff :
    (label : String) (x : ProbeKind) → (from_report_label label ≡ some x) ↔ (as_str x ≡ label)
unfolding from_report_label
kind_label_iff label x =
    (lookup_sound as_str label labels x labels_sound, λ h. rw (← h) (from_report_label-as_str x))
