-- ===== src/Catalog/Examples.antt =====
-- A server that lists two pages, and one that never stops.
use mcp_eval.Prelude.{ℕ, ◌≤◌, ◌≡◌, refl, String, none, some, List, [], ◌∷◌, length, Result, ok, err}
use mcp_eval.Json.{Value, object, array, string, to_fields, to_items, get}
use mcp_eval.Privacy.{valid_tool}
use mcp_eval.Standard.{ToolDefinition}
use mcp_eval.Catalog.{
  Failure, page_limit, ToolCatalog, page_catalog, discover_catalog, pages, parse_page,
  tool_definition, annotation_hint, add_listed, add_tool, max_tool_pages,
}
use mcp_eval.Catalog.Pages.{logged, page_catalog_ends}

abbrev listing : String → List (String × Value) → Value
listing name rest = object (
    to_fields (
      (
        "result",
        object (
            to_fields (
              (
                "tools",
                array (
                    to_items (
                      object (
                        to_fields
                          (("inputSchema", object (to_fields [])) ∷ ("name", string name) ∷ []))
                      ∷ [])),
              )
              ∷ rest)),
      )
      ∷ []))

-- The first page names a second, which lists another tool.
abbrev two_pages : Value → ℕ → Result Failure Value × ℕ
two_pages params n = elim (get "cursor" params) [
  | none ↦ (ok (listing "read" (("nextCursor", string "2") ∷ [])), n)
  | some cursor ↦ (ok (listing "write" []), n)
]

abbrev endless : Value → ℕ → Result Failure Value × ℕ
endless params n = (ok (listing "read" (("nextCursor", string "again") ∷ [])), n)

abbrev no_length : Value → ℕ
no_length value = 0

abbrev tool : String → ToolDefinition
tool name = record {
  name = name;
  input_schema = object (to_fields []);
  entry_bytes = 0;
  description_chars = 0;
  output_schema = none;
  read_only_hint = none;
  destructive_hint = none;
}

abbrev both_tools : ToolCatalog
both_tools = record { tools = tool "read" ∷ tool "write" ∷ []; encoded_bytes = 0 }

endless_test : (page_catalog no_length endless 7).0 ≡ err page_limit
unfolding page_catalog discover_catalog pages parse_page tool_definition annotation_hint add_listed
    add_tool max_tool_pages valid_tool
endless_test = refl

page_catalog_ends_example :
    length (page_catalog no_length (logged no_length endless) (7, [])).1.1 ≤ max_tool_pages
page_catalog_ends_example = page_catalog_ends no_length endless 7
