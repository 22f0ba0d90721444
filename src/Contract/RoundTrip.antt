-- ===== src/Contract/RoundTrip.antt =====
-- That `from_json` of src/catalog_contract.rs reads what `to_json` wrote.
use mcp_eval.Prelude.{
  ◌≡◌, refl, ap, sym, subst, String, Option, none, some, List, [], ◌∷◌, map, All, ok, traverse,
  traverse-map,
}
use mcp_eval.Json
use mcp_eval.Json.{
  Value, null, or_null, string, array, object, to_items, to_fields, elements-to_items,
  entries-to_fields, collect_by, insert_by, get, as_str, as_array, as_object, less, All-collect_by,
}
use mcp_eval.Standard.{ToolClass, writer, read_only, unannotated}
use mcp_eval.Contract.Changes.{ToolContract, CatalogContract, class_label, class_from_label}
use mcp_eval.Contract.Wire.{
  parameter_entry, tool_json, contract_json, hex, read_parameter, read_output, read_tool,
  contract_from_json,
}
use mcp_eval.Contract.Redacted.{IsDigest, IsOutput, IsRedacted}
use mcp_eval.Contract.Order.{IsOrdered, collect_ordered}

class_from_label-class_label : (c : ToolClass) → class_from_label (class_label c) ≡ some c
unfolding class_from_label class_label
class_from_label-class_label read_only = refl
class_from_label-class_label writer = refl
class_from_label-class_label unannotated = refl

hex-string : (text : String) → IsDigest text → hex (string text) ≡ ok text
unfolding hex
hex-string text h = rw h refl

read_parameter-entry :
    (e : String × String) → IsDigest e.0 × IsDigest e.1 → read_parameter (parameter_entry e) ≡ ok e
unfolding read_parameter
read_parameter-entry (name, constraint) (n, c) =
    rw (hex-string name n, hex-string constraint c) refl

All-weaken {ℓ} :
    {A : Type ℓ} (P Q : A → Type 0) (xs : List A) → ((x : A) → P x → Q x) → All P xs → All Q xs
All-weaken P Q [] f h = tt
All-weaken P Q (x ∷ xs) f (h, hs) = (f x h, All-weaken P Q xs f hs)

-- The sets and maps of a tool list what they hold in order.
pub record IsListed (tool : ToolContract) : Type 0 where
  pub required : IsOrdered tool.required
  pub parameters : IsOrdered (map (λ e. e.0) tool.parameters)

pub map_same : (xs : List String) → map (λ x. x) xs ≡ xs
map_same [] = refl
map_same (x ∷ xs) = ap (λ ys. x ∷ ys) (map_same xs)

read_output-or_null :
    (o : Option String) → IsOutput o → read_output (some (or_null string o)) ≡ ok o
read_output-or_null none h = refl
read_output-or_null (some text) h = rw (hex-string text h) refl

read_required :
    (texts : List String)
    → All IsDigest texts
    → traverse hex (Json.elements (to_items (map string texts))) ≡ ok texts
read_required texts h = rw (elements-to_items (map string texts)) (
    traverse-map hex string texts
      (All-weaken IsDigest (λ t. hex (string t) ≡ ok t) texts hex-string h))

read_parameters :
    (es : List (String × String))
    → All (λ e. IsDigest e.0 × IsDigest e.1) es
    → traverse read_parameter (Json.entries (to_fields (map parameter_entry es))) ≡ ok es
read_parameters es h = rw (entries-to_fields (map parameter_entry es)) (
    traverse-map read_parameter parameter_entry es (
      All-weaken (λ e. IsDigest e.0 × IsDigest e.1) (λ e. read_parameter (parameter_entry e) ≡ ok e)
        es read_parameter-entry h))

read_tool-tool_json :
    (tool : ToolContract) → IsRedacted tool × IsListed tool → read_tool (tool_json tool) ≡ ok tool
unfolding read_tool tool_json
read_tool-tool_json tool (r, l) =
    rw
      (
        r.name,
        class_from_label-class_label tool.class,
        read_required tool.required r.required,
        read_parameters tool.parameters r.parameters,
        read_output-or_null tool.output_schema r.output,
        collect_ordered (λ name. name) tool.required
            (subst IsOrdered (sym (map_same tool.required)) l.required),
        collect_ordered (λ (e : String × String). e.0) tool.parameters l.parameters,
      )
      refl

-- A contract that holds labels and digests only, in order, is read back from its JSON as it was.
pub contract_from_json-contract_json :
    (contract : CatalogContract)
    → All (λ tool. IsRedacted tool × IsListed tool) contract.tools
    → contract_from_json (contract_json contract) ≡ ok contract
unfolding contract_from_json contract_json
contract_from_json-contract_json contract h =
    rw
      (
        elements-to_items (map tool_json contract.tools),
        traverse-map read_tool tool_json contract.tools (
            All-weaken (λ tool. IsRedacted tool × IsListed tool)
              (λ tool. read_tool (tool_json tool) ≡ ok tool) contract.tools read_tool-tool_json h),
      )
      refl
