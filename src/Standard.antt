-- ===== src/Standard.antt =====
-- The data of src/standard.rs that the score is computed from: how a tool is classed, what its
-- catalog entry declares, how its calls ended.
use mcp_eval.Prelude.{
  ℕ, ◌+◌, String, Bool, true, false, not, ◌&&◌, ◌||◌, Option, some, none, List, [], ◌∷◌, is_some,
  any, count_if, length, if◌then◌else◌, and_then, is_empty, bytes, str_eq,
}
use mcp_eval.Prelude.Int.{ℤ, pos, negsuc}
use mcp_eval.Json.{Value, get, as_object, as_str}
use mcp_eval.Score.CheckId.{CheckId}
use mcp_eval.Score.CheckReason.{CheckReason}

-- `ToolDefinition` of src/mcp_client.rs.
pub record ToolDefinition : Type 0 where
  pub name : String
  pub input_schema : Value
  pub entry_bytes : ℕ
  pub description_chars : ℕ
  pub output_schema : Option Value
  pub read_only_hint : Option Bool
  pub destructive_hint : Option Bool

pub data ToolClass : Type 0 where
  writer read_only unannotated : ToolClass

abbrev pub is_just : Bool → Option Bool → Bool
is_just b none = false
is_just true (some c) = c
is_just false (some c) = not c

unfoldable pub class_of : ToolDefinition → ToolClass
class_of tool =
    if is_just false tool.read_only_hint || is_just true tool.destructive_hint
    then writer
    else if is_just true tool.read_only_hint
    then read_only
    else unannotated

abbrev pub is_writer : ToolClass → Bool
is_writer writer = true
is_writer _ = false

pub data Exercise : Type 0 where
  not_exercised : CheckReason → Exercise
  exercised : (consistent : Bool) (median_latency_ms : ℕ) (output_schema : Option Bool) → Exercise

pub record CatalogFacts : Type 0 where
  pub description_chars : ℕ
  pub properties : ℕ
  pub described_properties : ℕ
  pub typed_properties : ℕ
  pub read_only_declared : Bool
  pub destructive_declared : Bool
  pub output_schema : Bool

abbrev typed_keys : List String
typed_keys = "type" ∷ "enum" ∷ "const" ∷ "$ref" ∷ "anyOf" ∷ "oneOf" ∷ []

abbrev is_described : Option String → Bool
is_described none = false
is_described (some text) = not (is_empty (bytes text))

-- The `count` closure over the properties.
count_properties : (Value → Bool) → Option (List (String × Value)) → ℕ
count_properties keep none = 0
count_properties keep (some ps) = count_if (λ p. keep p.1) ps

unfoldable pub facts_of : ToolDefinition → CatalogFacts
unfolding count_properties
facts_of tool =
    let properties = and_then (get "properties" tool.input_schema) as_object in
    record {
      description_chars = tool.description_chars;
      properties = count_properties (λ _. true) properties;
      described_properties =
          count_properties (λ p. is_described (and_then (get "description" p) as_str)) properties;
      typed_properties =
          count_properties (λ p. any (λ key. is_some (get key p)) typed_keys) properties;
      read_only_declared = is_some tool.read_only_hint;
      destructive_declared = is_some tool.destructive_hint;
      output_schema = is_some tool.output_schema;
    }

pub data Honesty : Type 0 where
  honest : Honesty
  dishonest : CheckReason → Honesty

pub record CallCounts : Type 0 where
  pub successful : ℕ
  pub tool_errors : ℕ
  pub rpc_errors : ℕ
  pub rejected : ℕ
  pub transport_errors : ℕ

unfoldable pub total : CallCounts → ℕ
total c = c.successful + c.tool_errors + c.rpc_errors + c.rejected + c.transport_errors

pub data Outcome : Type 0 where
  success tool_error rpc_error refused : Outcome

-- `ToolResponse` of src/mcp_client.rs.
pub data ToolResponse : Type 0 where
  answer : Value → ToolResponse
  failure : (code : ℤ) (payload : Value) → ToolResponse

-- -32602
abbrev pub is_invalid_params : ℤ → Bool
is_invalid_params (pos n) = false
is_invalid_params (negsuc n) = mcp_eval.Prelude.◌==◌ n 32601

abbrev pub is_text : String → Option String → Bool
is_text s none = false
is_text s (some t) = str_eq t s

unfoldable pub outcome_of : ToolResponse → Outcome
outcome_of (answer v) = success
outcome_of (failure code payload) =
    if is_invalid_params code
    then refused
    else if is_text "tool-error" (and_then (get "code" payload) as_str)
    then tool_error
    else rpc_error

unfoldable pub observe : CallCounts → Outcome → CallCounts
observe c success = record c { successful = c.successful + 1 }
observe c tool_error = record c { tool_errors = c.tool_errors + 1 }
observe c rpc_error = record c { rpc_errors = c.rpc_errors + 1 }
observe c refused = record c { rejected = c.rejected + 1 }

pub record ToolObservation : Type 0 where
  pub name : String
  pub tokens : ℕ
  pub class : ToolClass
  pub exercise : Option Exercise
  pub catalog : CatalogFacts
  pub honesty : Option Honesty
  pub calls : CallCounts

pub record Observations : Type 0 where
  pub tools : List ToolObservation
  pub attested_read_only : Bool
  pub contention : Option Bool
  pub payload : Option Bool
  pub protocol : List (CheckId × Option CheckReason)
