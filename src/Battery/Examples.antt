-- ===== src/Battery/Examples.antt =====
-- A server that answers every call, with a tool that reads and one that writes.
use mcp_eval.Prelude.{ℕ, String, Bool, true, false, Option, none, some, [], ◌∷◌, All, ok}
use mcp_eval.Json.{Value, null}
use mcp_eval.Standard.{ToolDefinition, answer}
use mcp_eval.Catalog.{ToolCatalog}
use mcp_eval.Arguments.WholeNumbers.{whole_numbers}
use mcp_eval.Battery.Server.{Server}
use mcp_eval.Battery.Calls.{Exercised, exercise_tool, no_arguments}
use mcp_eval.Battery.Observe.{StandardOptions, observe_catalog}
use mcp_eval.Battery.Tally.{recorded, IsCounted}
use mcp_eval.Battery.Counts.{exercise_tool-IsCounted}
use mcp_eval.Battery.Logged.{logged, IsAllowedEvent, observe_catalog_allowed}

abbrev willing : Server ℕ ℕ
willing = record {
  open_client = λ w. (some 0, w);
  initialize = λ c w. (true, w);
  call_tool = λ c name arguments w. (some (answer null, 5), w);
  raw_request = λ c method params w. (ok null, w);
  capabilities = λ c w. none;
  run_case = λ c case catalog w. (none, w);
  exhausted = λ w. false;
}

abbrev tool : String → Bool → ToolDefinition
tool name reads = record {
  name = name;
  input_schema = no_arguments;
  entry_bytes = 0;
  description_chars = 0;
  output_schema = none;
  read_only_hint = some reads;
  destructive_hint = none;
}

abbrev catalog : ToolCatalog
catalog = record { tools = tool "read" true ∷ tool "write" false ∷ []; encoded_bytes = 0 }

abbrev options : StandardOptions
options = record { confirm_read_only = false; skip_tools = []; arguments = none }

abbrev no_pointer : Value → String → Option Value
no_pointer root text = none

abbrev admits_all : Value → Value → Bool
admits_all schema value = true

abbrev no_length : Value → ℕ
no_length value = 0

observe_catalog_allowed_example :
    All
      (IsAllowedEvent options catalog)
      (observe_catalog whole_numbers no_pointer admits_all no_length
        (logged willing)
        options
        catalog
        (record { world = (7, []); client = none })).1.world.1
observe_catalog_allowed_example =
    observe_catalog_allowed whole_numbers no_pointer admits_all no_length willing options catalog 7
      none

abbrev read_calls : Exercised (recorded willing) admits_all
read_calls =
    exercise_tool (recorded willing) admits_all (tool "read" true) no_arguments
      (record { world = (7, []); client = some 0 })

exercise_tool-IsCounted_example :
    IsCounted "read" read_calls.0.0 read_calls.0.1 read_calls.1.world.1
exercise_tool-IsCounted_example =
    exercise_tool-IsCounted willing admits_all (tool "read" true) no_arguments 7 (some 0)
