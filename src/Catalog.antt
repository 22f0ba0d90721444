-- ===== src/Catalog.antt =====
-- The tool catalog of src/mcp_client.rs: one entry of `tools/list`, one page of it, and the loop over
-- the pages of a server.
mod Added
mod Pages
mod Examples
use Prim.Native.String
use mcp_eval.Prelude.{
  ℕ, zero, suc, ◌+◌, String, Bool, true, false, not, Option, none, some, List, [], ◌∷◌, ◌++◌, any,
  and_then, is_some, map, if◌then◌else◌, Result, ok, err, ensure, context, traverse, ◌>>=◌, ◌>>◌,
  str_eq, bytes, is_empty,
}
use mcp_eval.Json
use mcp_eval.Json.{Value, object, string, get, as_bool, as_str, as_array, is_object, to_fields}
use mcp_eval.Privacy.{valid_tool}
use mcp_eval.Standard.{ToolDefinition}

-- Why a page, or the catalog, could not be had. `exhausted` is the evaluation budget's error, and
-- `request_failed` stands for every other error of a request.
pub data Failure : Type 0 where
  exhausted request_failed : Failure
  missing_name invalid_name missing_schema schema_not_object : Failure
  page_error missing_tools page_limit : Failure

abbrev pub is_exhausted : Failure → Bool
is_exhausted exhausted = true
is_exhausted _ = false

unfoldable pub annotation_hint : Value → String → Option Bool
annotation_hint entry hint = and_then (and_then (get "annotations" entry) (get hint)) as_bool

-- `text.chars().count()`
abbrev pub chars : String → ℕ
chars String.[] = 0
chars (String.◌∷◌ c s) = suc (chars s)

abbrev chars_of : Option String → ℕ
chars_of none = 0
chars_of (some text) = chars text

-- `Option::filter`
abbrev pub filter_some {ℓ} : {A : Type ℓ} → (A → Bool) → Option A → Option A
filter_some p none = none
filter_some p (some a) = if p a then some a else none

pub record ToolCatalog : Type 0 where
  pub tools : List ToolDefinition
  pub encoded_bytes : ℕ

-- The entries and tools of the pages so far.
pub record Listed : Type 0 where
  pub entries : List Value
  pub tools : List ToolDefinition

pub record Discovery : Type 0 where
  pub catalog : ToolCatalog
  pub incomplete : Option Failure

-- `MAX_TOOL_PAGES`
unfoldable pub max_tool_pages : ℕ
max_tool_pages = 20

-- A tool whose name has not been listed before is added, with its entry.
unfoldable pub add_tool : Value → ToolDefinition → Listed → Listed
add_tool entry tool l =
    if any (λ seen. str_eq seen.name tool.name) l.tools
    then l
    else record { entries = l.entries ++ entry ∷ []; tools = l.tools ++ tool ∷ [] }

unfoldable pub add_listed : List (Value × ToolDefinition) → Listed → Listed
unfolding add_tool
add_listed [] l = l
add_listed ((entry, tool) ∷ rest) l = add_listed rest (add_tool entry tool l)

-- The parameters of the request for a page.
abbrev pub params_of : Option String → Value
params_of none = object (to_fields [])
params_of (some cursor) = object (to_fields (("cursor", string cursor) ∷ []))

-- What ends the loop: the tools, the cursor to go on from, and the error of a later page.
abbrev pub Ended : Type 0
Ended = Listed × Option String × Option Failure

abbrev pub late_error : Failure → Listed → Option String → Result Failure Ended
late_error e l cursor = if is_exhausted e then err e else ok (l, cursor, some e)

-- `encoded` is the length of a value as serde_json writes it.
module _ (encoded : Value → ℕ) where
  unfoldable pub tool_definition : Value → Result Failure ToolDefinition
  unfolding annotation_hint
  tool_definition tool = do
    name ← context missing_name (and_then (get "name" tool) as_str)
    ensure (valid_tool name) invalid_name
    input_schema ← context missing_schema (get "inputSchema" tool)
    ensure (is_object input_schema) schema_not_object
    ok (record {
      name = name;
      input_schema = input_schema;
      entry_bytes = encoded tool;
      description_chars = chars_of (and_then (get "description" tool) as_str);
      output_schema = filter_some is_object (get "outputSchema" tool);
      read_only_hint = annotation_hint tool "readOnlyHint";
      destructive_hint = annotation_hint tool "destructiveHint";
    })

  abbrev pub with_entry : Value → Result Failure (Value × ToolDefinition)
  with_entry entry = do tool ← tool_definition entry; ok (entry, tool)

  unfoldable pub parse_page : Value → Result Failure (List (Value × ToolDefinition) × Option String)
  unfolding tool_definition
  parse_page response = do
    result ← context page_error (get "result" response)
    entries ← context missing_tools (and_then (get "tools" result) as_array)
    listed ← traverse with_entry entries
    let next : Option String =
        filter_some (λ cursor. not (is_empty (bytes cursor)))
          (and_then (get "nextCursor" result) as_str)
    ok (listed, next)

  -- `request` sends `tools/list` to a server in the state `W`.
  module _ {W : Type 0} (request : Value → W → Result Failure Value × W) where
    -- The rest of a round of the loop, after the reply was parsed; `go_on` are the further rounds.
    abbrev pub after_page :
        (Listed → String → Result Failure Ended × W)
        → Bool
        → Listed
        → Option String
        → W
        → Result Failure (List (Value × ToolDefinition) × Option String)
        → Result Failure Ended × W
    after_page go_on first l cursor w (err e) = (if first then err e else late_error e l cursor, w)
    after_page go_on first l cursor w (ok (listed, none)) =
        (ok (add_listed listed l, none, none), w)
    after_page go_on first l cursor w (ok (listed, some next)) = go_on (add_listed listed l) next

    -- The loop over the pages that may still be asked for; `first` is whether none was.
    unfoldable pub pages : ℕ → Bool → Listed → Option String → W → Result Failure Ended × W
    unfolding parse_page add_listed
    pages zero first l cursor w = (ok (l, cursor, none), w)
    pages (suc n) first l cursor w =
        let (reply, w') = request (params_of cursor) w in
        after_page (λ l' next. pages n false l' (some next) w') first l cursor w'
          (reply >>= parse_page)

    abbrev pub incomplete_of : Option String → Option Failure → Option Failure
    incomplete_of cursor (some e) = some e
    incomplete_of none none = none
    incomplete_of (some cursor) none = some page_limit

    -- `encoded_bytes`: the entries as one array.
    abbrev pub array_bytes : List Value → ℕ
    array_bytes entries = encoded (Value.array (Json.to_items entries))

    abbrev pub discovery_of : Result Failure Ended → Result Failure Discovery
    discovery_of ended = do
      (l, cursor, late) ← ended
      ok (record {
        catalog = record { tools = l.tools; encoded_bytes = array_bytes l.entries };
        incomplete = incomplete_of cursor late;
      })

    unfoldable pub discover_catalog : W → Result Failure Discovery × W
    unfolding pages
    discover_catalog w =
        let (ended, w') = pages max_tool_pages true (record { entries = []; tools = [] }) none w in
        (discovery_of ended, w')

    abbrev pub whole : Discovery → Result Failure ToolCatalog
    whole d = elim d.incomplete [ none ↦ ok d.catalog | some e ↦ err e ]

    unfoldable pub page_catalog : W → Result Failure ToolCatalog × W
    unfolding discover_catalog
    page_catalog w = let (found, w') = discover_catalog w in (found >>= whole, w')
