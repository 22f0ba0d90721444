-- ===== src/Contract/Examples.antt =====
-- A catalog that gains a parameter, and its contract.
use mcp_eval.Prelude.{
  ℕ, zero, suc, ◌≡◌, ◌&&◌, ◌⊎◌, refl, inl, String, true, false, Option, none, some, List, [], ◌∷◌,
  All, any, find, is_some, is_none, length, ok,
}
use mcp_eval.Json.{Value, lookup, null, object, string, to_fields}
use mcp_eval.Privacy.{valid_tool}
use mcp_eval.Standard.{read_only}
use mcp_eval.Catalog.{ToolCatalog}
use mcp_eval.Contract.Changes.{ToolContract, CatalogContract, severity}
use mcp_eval.Contract.Compare.{
  compare, baseline_changes, added_tools, sort_changes, insert_change, tool_changes, push,
  newly_required, newly_optional, removed, added, changed, class_changes, output_changes,
  tool_named,
}
use mcp_eval.Contract.Kept.{tells_of_constraint}
use mcp_eval.Contract.Compatible.{is_breaking, IsAsSafe, AcceptsNames, compare-AcceptsNames}
use mcp_eval.Contract.Constraints.{catalog_contract, constraints}
use mcp_eval.Contract.Wire.{contract_json, contract_from_json}
use mcp_eval.Contract.Redacted.{IsRedacted, contract_from_json-IsRedacted}
use mcp_eval.Contract.Derived.{contract_from_json-catalog_contract}

abbrev reads : List (String × String) → ToolContract
reads parameters = record {
  name = "read";
  class = read_only;
  required = "a" ∷ [];
  parameters = parameters;
  output_schema = none;
}

abbrev before : CatalogContract
before = record { tools = reads (("a", "c") ∷ []) ∷ [] }

abbrev after : CatalogContract
after = record { tools = reads (("a", "c") ∷ ("b", "d") ∷ []) ∷ [] }

compatible_test : any is_breaking (compare before after) ≡ false
unfolding compare baseline_changes added_tools sort_changes insert_change tool_changes push
    newly_required newly_optional removed added changed class_changes output_changes severity
compatible_test = refl

compare-AcceptsNames_example :
    (tool : ToolContract) × (find (tool_named "read") after.tools ≡ some tool)
    × IsAsSafe read_only tool.class
    × ((is_some {A = String} none && is_none tool.output_schema) ≡ false)
    × AcceptsNames tool ("a" ∷ [])
    × (All (λ n. lookup n tool.parameters ≡ lookup n (("a", "c") ∷ [])) ("a" ∷ [])
        ⊎ (any (tells_of_constraint "read") (compare before after) ≡ true))
compare-AcceptsNames_example =
    compare-AcceptsNames before after (reads (("a", "c") ∷ [])) ("a" ∷ []) compatible_test
      (inl refl) (record { has_required = (refl, tt); declared = (refl, tt) })

abbrev no_pointer : Value → String → Option Value
no_pointer root text = none

abbrev shown : Value → String
shown value = "v"

abbrev copies : ℕ → ℕ → List ℕ
copies zero x = []
copies (suc n) x = x ∷ copies n x

-- 32 bytes that say only how long the message is.
abbrev hash : List ℕ → List ℕ
hash message = copies 32 (length message)

abbrev catalog : ToolCatalog
catalog = record {
  tools =
      record {
        name = "read";
        input_schema = object (to_fields []);
        entry_bytes = 0;
        description_chars = 0;
        output_schema = some (object (to_fields []));
        read_only_hint = some true;
        destructive_hint = none;
      }
      ∷ [];
  encoded_bytes = 0;
}

valid_test : valid_tool "read" ≡ true
unfolding valid_tool
valid_test = refl

contract_from_json-catalog_contract_example :
    contract_from_json (contract_json (catalog_contract no_pointer shown hash catalog))
    ≡ ok (catalog_contract no_pointer shown hash catalog)
contract_from_json-catalog_contract_example =
    contract_from_json-catalog_contract no_pointer shown hash (λ message. refl) catalog
      (valid_test, tt)

contract_from_json-IsRedacted_example :
    All IsRedacted (catalog_contract no_pointer shown hash catalog).tools
contract_from_json-IsRedacted_example =
    contract_from_json-IsRedacted (contract_json (catalog_contract no_pointer shown hash catalog))
      (catalog_contract no_pointer shown hash catalog) contract_from_json-catalog_contract_example

abbrev constant : String → Value
constant text =
    object (to_fields (("const", object (to_fields (("title", string text) ∷ []))) ∷ []))

-- A keyword of prose is also dropped from a literal, where it is no keyword.
literal_test :
    constraints no_pointer 8 null false (constant "a")
    ≡ constraints no_pointer 8 null false (constant "b")
unfolding constraints
literal_test = refl
