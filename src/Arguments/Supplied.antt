-- ===== src/Arguments/Supplied.antt =====
-- src/tool_arguments.rs: the arguments that a caller supplies, and when the catalog allows them.
-- `load`, which reads the file, is not modelled.
use mcp_eval.Prelude.{
  ℕ, String, Bool, Option, List, [], ◌∷◌, find, bytes, str_eq, Result, ok, err, ensure, context,
  traverse, ◌>>=◌, ◌>>◌,
}
use mcp_eval.Json.{Value, object, to_fields, collect_by, lookup, is_object, as_object}
use mcp_eval.Privacy.{valid_tool}
use mcp_eval.Standard.{ToolDefinition, ToolClass, writer, read_only, unannotated, class_of}
use mcp_eval.Catalog.{ToolCatalog}
use mcp_eval.Contract.Constraints.{canonical, hex_text}

pub data BadArguments : Type 0 where
  document_not_object invalid_tool_name : BadArguments
  arguments_not_object : String → BadArguments
  tool_not_listed tool_is_writer tool_unattested schema_violated : String → BadArguments

pub record ToolArguments : Type 0 where
  pub by_tool : List (String × Value)
  pub sha256 : String

unfoldable pub checked_entry : String × Value → Result BadArguments (String × Value)
checked_entry (tool, arguments) = do
  ensure (valid_tool tool) invalid_tool_name
  ensure (is_object arguments) (arguments_not_object tool)
  ok (tool, arguments)

unfoldable pub supplied_for : ToolArguments → String → Option Value
supplied_for arguments tool = lookup tool arguments.by_tool

-- By the class of the tool
abbrev pub class_allowed : Bool → String → ToolClass → Result BadArguments (Unit {0})
class_allowed confirm_read_only name writer = err (tool_is_writer name)
class_allowed confirm_read_only name unannotated = ensure confirm_read_only (tool_unattested name)
class_allowed confirm_read_only name read_only = ok tt

-- `sha256` is the hash, `print` how serde_json writes a value; `pointer` is not used by `canonical`.
module _ (pointer : Value → String → Option Value) (print : Value → String)
    (sha256 : List ℕ → List ℕ) where
  unfoldable pub from_value : Value → Result BadArguments ToolArguments
  unfolding checked_entry canonical hex_text
  from_value document = do
    entries ← context document_not_object (as_object document)
    checked ← traverse checked_entry entries
    let by_tool : List (String × Value) = collect_by (λ e. e.0) checked
    ok (record {
      by_tool = by_tool;
      sha256 =
          hex_text (sha256 (bytes (canonical pointer print sha256 (object (to_fields by_tool)))));
    })

-- `conforms` is `schema::conforms`.
module _ (conforms : Value → Value → Bool) where
  -- One round of the loop
  unfoldable pub check_named :
      List ToolDefinition → Bool → String × Value → Result BadArguments (Unit {0})
  unfolding class_of
  check_named tools confirm_read_only (name, arguments) = do
    tool ← context (tool_not_listed name) (find (λ tool. str_eq tool.name name) tools)
    class_allowed confirm_read_only name (class_of tool)
    ensure (conforms tool.input_schema arguments) (schema_violated name)

  abbrev pub check_all :
      List ToolDefinition → Bool → List (String × Value) → Result BadArguments (Unit {0})
  check_all tools confirm_read_only [] = ok tt
  check_all tools confirm_read_only (e ∷ rest) =
      let later = check_all tools confirm_read_only rest in
      do check_named tools confirm_read_only e; later

  unfoldable pub validate : ToolArguments → ToolCatalog → Bool → Result BadArguments (Unit {0})
  unfolding check_named
  validate arguments catalog confirm_read_only =
      check_all catalog.tools confirm_read_only arguments.by_tool
