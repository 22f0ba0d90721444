-- ===== src/Contract/Wire.antt =====
-- `CatalogContract::to_json` and `CatalogContract::from_json` of src/catalog_contract.rs.
use mcp_eval.Prelude.{
  ℕ, String, Bool, not, ◌||◌, Option, none, some, [], ◌∷◌, all, map, ◌==◌, byte_length, bytes,
  is_ascii_hexdigit, Result, ok, ensure, context, traverse, ◌>>=◌, ◌>>◌, and_then,
}
use mcp_eval.Json.{
  Value, null, or_null, string, array, object, to_items, to_fields, collect_by, get, as_str,
  as_array, as_object,
}
use mcp_eval.Privacy.{valid_tool}
use mcp_eval.Catalog.{filter_some}
use mcp_eval.Contract.Changes.{ToolContract, CatalogContract, class_label, class_from_label}

-- The messages of `from_json`.
pub data BadContract : Type 0 where
  digest_not_string digest_not_hex : BadContract
  missing_tools no_valid_name no_known_class : BadContract
  missing_required missing_parameters : BadContract

-- `DIGEST_HEX`
abbrev pub digest_hex : ℕ
digest_hex = 16

abbrev pub parameter_entry : String × String → String × Value
parameter_entry (name, constraint) = (name, string constraint)

-- An object lists its fields by key.
unfoldable pub tool_json : ToolContract → Value
unfolding class_label
tool_json tool = object (
    to_fields (
      ("class", string (class_label tool.class))
      ∷ ("name", string tool.name)
      ∷ ("output_schema", or_null string tool.output_schema)
      ∷ ("parameters", object (to_fields (map parameter_entry tool.parameters)))
      ∷ ("required", array (to_items (map string tool.required)))
      ∷ []))

unfoldable pub contract_json : CatalogContract → Value
unfolding tool_json
contract_json contract =
    object (to_fields (("tools", array (to_items (map tool_json contract.tools))) ∷ []))

abbrev pub is_digest : String → Bool
is_digest text =
    not (not (byte_length text == digest_hex) || not (all is_ascii_hexdigit (bytes text)))

-- The closure `hex`
unfoldable pub hex : Value → Result BadContract String
hex value = do
  text ← context digest_not_string (as_str value)
  ensure (is_digest text) digest_not_hex
  ok text

unfoldable pub read_parameter : String × Value → Result BadContract (String × String)
unfolding hex
read_parameter (name, constraint) = do
  key ← hex (string name)
  digest ← hex constraint
  ok (key, digest)

abbrev pub read_output : Option Value → Result BadContract (Option String)
read_output none = ok none
read_output (some null) = ok none
read_output (some value) = do digest ← hex value; ok (some digest)

unfoldable pub read_tool : Value → Result BadContract ToolContract
unfolding hex read_parameter class_from_label
read_tool tool = do
  name ← context no_valid_name (filter_some valid_tool (and_then (get "name" tool) as_str))
  class ← context no_known_class (and_then (and_then (get "class" tool) as_str) class_from_label)
  listed ← context missing_required (and_then (get "required" tool) as_array)
  required ← traverse hex listed
  fields ← context missing_parameters (and_then (get "parameters" tool) as_object)
  parameters ← traverse read_parameter fields
  output_schema ← read_output (get "output_schema" tool)
  ok (record {
    name = name;
    class = class;
    required = collect_by (λ name. name) required;
    parameters = collect_by (λ e. e.0) parameters;
    output_schema = output_schema;
  })

unfoldable pub contract_from_json : Value → Result BadContract CatalogContract
unfolding read_tool
contract_from_json value = do
  listed ← context missing_tools (and_then (get "tools" value) as_array)
  tools ← traverse read_tool listed
  ok (record { tools = tools })
