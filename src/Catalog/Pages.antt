-- ===== src/Catalog/Pages.antt =====
-- What the loop of src/mcp_client.rs over the pages of `tools/list` returns, for any server.
use mcp_eval.Prelude.{
  ◌⊎◌, Member, ℕ, zero, suc, ◌+◌, ◌≤◌, ◌≡◌, arith, Bool, true, false, Option, none, some, List, [],
  ◌∷◌, All, length, Result, ok, err, ◌>>=◌, String,
}
use mcp_eval.Json.{Value}
use mcp_eval.Standard.{ToolDefinition}
use mcp_eval.Catalog.Added.{IsCatalog, Covers}
use mcp_eval.Catalog.{
  Failure, Listed, Ended, add_listed, parse_page, after_page, pages, discover_catalog, page_catalog,
  params_of, max_tool_pages,
}

module _ (encoded : Value → ℕ) where
  module _ {W : Type 0} (request : Value → W → Result Failure Value × W) where
    -- The server with a record of the requests and the replies, the latest first.
    abbrev pub logged :
        Value
        → W × List (Value × Result Failure Value)
        → Result Failure Value × (W × List (Value × Result Failure Value))
    logged params (w, log) =
        let (reply, w') = request params w in (reply, (w', (params, reply) ∷ log))

    abbrev pub Log : Type 0
    Log = List (Value × Result Failure Value)

    -- The latest reply is a page that names no further page.
    abbrev pub IsLast : Log → Type 0
    IsLast [] = ⊥
    IsLast ((params, reply) ∷ log) =
        (listed : List (Value × ToolDefinition)) × ((reply >>= parse_page encoded)
          ≡ ok (listed, none))

    -- Each reply is a page, and the tools it lists are there.
    abbrev pub IsWhole : List ToolDefinition → Log → Type 0
    IsWhole tools [] = Unit
    IsWhole tools ((params, reply) ∷ log) =
        ((listed : List (Value × ToolDefinition)) × (next : Option String) × ((reply
              >>= parse_page encoded)
            ≡ ok (listed, next))
          × Covers tools listed)
        × IsWhole tools log

    -- A page of the log lists the tool.
    abbrev pub IsListedIn : Log → ToolDefinition → Type 0
    IsListedIn [] tool = ⊥
    IsListedIn ((params, reply) ∷ log) tool =
        ((listed : List (Value × ToolDefinition)) × (next : Option String) × ((reply
              >>= parse_page encoded)
            ≡ ok (listed, next))
          × ((entry : Value) × Member (entry, tool) listed))
        ⊎ IsListedIn log tool

    -- The tools are those that the pages list, and no others.
    abbrev pub IsExact : List ToolDefinition → Log → Type 0
    IsExact tools log = IsWhole tools log × All (IsListedIn log) tools

    abbrev Ends : Option String → Option Failure → List ToolDefinition → Log → Type 0
    Ends (some cursor) late tools log = Unit
    Ends none (some e) tools log = Unit
    Ends none none tools log = IsLast log × IsExact tools log

    abbrev IsGood : Result Failure Ended × (W × Log) → Type 0
    IsGood (err e, s) = Unit
    IsGood (ok (l, cursor, late), (w, log)) = IsCatalog l.tools × Ends cursor late l.tools log

    abbrev Started : ℕ → Option String → Type 0
    Started zero none = ⊥
    Started _ _ = Unit

    abbrev IsWithin : ℕ → Result Failure Ended × (W × Log) → Type 0
    IsWithin k (r, (w, log)) = length log ≤ k

    after_page-IsWithin :
        (go_on : Listed → String → Result Failure Ended × (W × Log)) (first : Bool) (l : Listed)
        (cursor : Option String) (s : W × Log) (k : ℕ)
        (r : Result Failure (List (Value × ToolDefinition) × Option String))
        → length s.1 ≤ k
        → ((l' : Listed) (next : String) → IsWithin k (go_on l' next))
        → IsWithin k (after_page encoded logged go_on first l cursor s r)
    after_page-IsWithin go_on first l cursor (w, log) k (err e) h more = h
    after_page-IsWithin go_on first l cursor (w, log) k (ok (listed, none)) h more = h
    after_page-IsWithin go_on first l cursor s k (ok (listed, some next)) h more =
        more (add_listed listed l) next

    pages-IsWithin :
        (n : ℕ) (first : Bool) (l : Listed) (cursor : Option String) (w : W) (log : Log) (k : ℕ)
        → length log + n ≤ k
        → IsWithin k (pages encoded logged n first l cursor (w, log))
    unfolding pages
    pages-IsWithin zero first l cursor w log k h = omega (arith, h)
    pages-IsWithin (suc n) first l cursor w log k h =
        let (reply, w') = request (params_of cursor) w in
        let log' : Log = (params_of cursor, reply) ∷ log in
        after_page-IsWithin (λ l' next. pages encoded logged n false l' (some next) (w', log'))
          first l cursor (w', log') k (reply >>= parse_page encoded) (omega (arith, h))
          (λ l' next. pages-IsWithin n false l' (some next) w' log' k (omega (arith, h)))

    -- Whatever the server replies, also when each page names a further one, the catalog is asked for
    -- in at most 20 requests.
    pub page_catalog_ends :
        (w : W) → length (page_catalog encoded logged (w, [])).1.1 ≤ max_tool_pages
    unfolding page_catalog discover_catalog
    page_catalog_ends w =
        pages-IsWithin max_tool_pages true (record { entries = []; tools = [] }) none w []
          max_tool_pages (omega arith)
