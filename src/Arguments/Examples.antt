-- ===== src/Arguments/Examples.antt =====
-- Arguments that are built, and arguments that are supplied.
use mcp_eval.Prelude.{
  ℕ, ◌≤◌, ◌≡◌, ◌↔◌, refl, String, Bool, true, Option, none, some, [], ◌∷◌, All, ok,
}
use mcp_eval.Json.{Value, object, array, string, to_fields, to_items}
use mcp_eval.Standard.{ToolDefinition}
use mcp_eval.Catalog.{ToolCatalog}
use mcp_eval.Arguments.Spend.{charge}
use mcp_eval.Arguments.Synthesis.{
  synthesize, synthesize_value, value_of_kind, literal_of, branch_of, kind_of, object_value,
  string_value, formatted, unformatted_value, plain_text, invalid_arguments, zero_required,
}
use mcp_eval.Arguments.WholeNumbers.{whole_numbers}
use mcp_eval.Arguments.Supplied.{ToolArguments, validate}
use mcp_eval.Arguments.Bounds.{node_count}
use mcp_eval.Arguments.Size.{synthesize_bounded}
use mcp_eval.Arguments.Validated.{IsAllowed, validate-IsAllowed}

abbrev no_pointer : Value → String → Option Value
no_pointer root text = none

abbrev admits_all : Value → Value → Bool
admits_all schema value = true

-- A required text
abbrev path_schema : Value
path_schema = object (
    to_fields (
      (
        "properties",
        object (to_fields (("path", object (to_fields (("type", string "string") ∷ []))) ∷ [])),
      )
      ∷ ("required", array (to_items (string "path" ∷ [])))
      ∷ []))

abbrev path_arguments : Value
path_arguments = object (to_fields (("path", string "mcpeval") ∷ []))

path_test : synthesize whole_numbers no_pointer admits_all path_schema ≡ some path_arguments
unfolding synthesize synthesize_value value_of_kind literal_of branch_of kind_of object_value
    string_value formatted unformatted_value plain_text charge
path_test = refl

invalid_test : invalid_arguments path_schema ≡ some (object (to_fields []))
unfolding invalid_arguments zero_required
invalid_test = refl

synthesize_bounded_example :
    (admits_all path_schema path_arguments ≡ true) × (node_count path_arguments ≤ 4096)
unfolding node_count
synthesize_bounded_example =
    synthesize_bounded whole_numbers to_value_single no_pointer admits_all path_schema
      path_arguments path_test
  where
    to_value_single : (x : ℕ) → node_count (Value.number (mcp_eval.Json.unsigned x)) ≡ 1
    to_value_single x = refl

abbrev read_tool : ToolDefinition
read_tool = record {
  name = "read";
  input_schema = path_schema;
  entry_bytes = 0;
  description_chars = 0;
  output_schema = none;
  read_only_hint = some true;
  destructive_hint = none;
}

abbrev one_tool : ToolCatalog
one_tool = record { tools = read_tool ∷ []; encoded_bytes = 0 }

abbrev supplied : ToolArguments
supplied = record { by_tool = ("read", path_arguments) ∷ []; sha256 = "" }

validate-IsAllowed_example :
    (validate admits_all supplied one_tool true ≡ ok tt)
    ↔ All (IsAllowed admits_all one_tool.tools true) supplied.by_tool
validate-IsAllowed_example = validate-IsAllowed admits_all supplied one_tool true
