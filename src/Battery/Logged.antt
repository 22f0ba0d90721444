-- ===== src/Battery/Logged.antt =====
-- The calls, requests and cases of the battery of src/standard.rs, recorded.
use mcp_eval.Prelude.{
  none, some, ◌≢◌, ◌||◌, if◌then◌else◌, ℕ, ◌≡◌, refl, ◌⊎◌, inl, inr, String, Bool, true, false,
  Option, List, [], ◌∷◌, All, Member, members-All, str_eq,
}
use mcp_eval.Json.{Value}
use mcp_eval.Catalog.{ToolCatalog}
use mcp_eval.Contract.Compare.{contains}
use mcp_eval.Standard.{writer, read_only, unannotated, is_just, ToolDefinition, class_of}
use mcp_eval.Arguments.Synthesis.{NumberOps}
use mcp_eval.Battery.Server.{
  StandardCase, contention, payload_bounds, pagination, surface_listing, protocol_negotiation,
  Server,
}
use mcp_eval.Battery.Protocol.{unknown_tool_call}
use mcp_eval.Battery.Observe.{StandardOptions, is_callable, observe_catalog}
use mcp_eval.Battery.Keeps.{Kept}
use mcp_eval.Battery.Safe.{observe_catalog-keeps, Granted}

pub data Event : Type 0 where
  called : (tool : String) → Event
  asked : (method : String) (params : Value) → Event
  ran : StandardCase → Event

-- The server with a record of what was done to it, the latest first.
abbrev pub logged : {C W : Type 0} → Server C W → Server C (W × List Event)
logged server = record {
  open_client = λ s. let (r, w) = server.open_client s.0 in (r, (w, s.1));
  initialize = λ c s. let (r, w) = server.initialize c s.0 in (r, (w, s.1));
  call_tool = λ c name arguments s.
      let (r, w) = server.call_tool c name arguments s.0 in (r, (w, called name ∷ s.1));
  raw_request = λ c method params s.
      let (r, w) = server.raw_request c method params s.0 in (r, (w, asked method params ∷ s.1));
  capabilities = λ c s. server.capabilities c s.0;
  run_case = λ c case catalog s.
      let (r, w) = server.run_case c case catalog s.0 in (r, (w, ran case ∷ s.1));
  exhausted = λ s. server.exhausted s.0;
}

-- What the tool declares allows calls: it is not declared a writer by either hint, and it is declared
-- read-only, or the caller attested it.
pub record IsReadOnly (confirm : Bool) (tool : ToolDefinition) : Type 0 where
  pub not_writer : tool.read_only_hint ≢ some false
  pub not_destructive : tool.destructive_hint ≢ some true
  pub declared : (tool.read_only_hint ≡ some true) ⊎ (confirm ≡ true)

-- A tool of this name is listed, may be called by its declarations, and is not skipped.
pub record MayCall (options : StandardOptions) (catalog : ToolCatalog) (name : String)
    : Type 0 where
  pub tool : ToolDefinition
  pub listed : Member tool catalog.tools
  pub named : tool.name ≡ name
  pub declared : IsReadOnly options.confirm_read_only tool
  pub kept : contains name options.skip_tools ≡ false

abbrev pub IsAllowedCase : StandardOptions → ToolCatalog → StandardCase → Type 0
IsAllowedCase options catalog (contention id tool arguments) = MayCall options catalog tool
IsAllowedCase options catalog (payload_bounds id tool arguments field size_bytes) =
    MayCall options catalog tool
IsAllowedCase options catalog (pagination id max_pages) = Unit
IsAllowedCase options catalog (surface_listing id max_pages) = Unit
IsAllowedCase options catalog (protocol_negotiation id bogus_version) = Unit

-- A raw request calls no tool but the one that is meant to be unknown.
abbrev pub IsAllowedEvent : StandardOptions → ToolCatalog → Event → Type 0
IsAllowedEvent options catalog (called tool) = MayCall options catalog tool
IsAllowedEvent options catalog (asked method params) =
    (str_eq method "tools/call" ≡ false) ⊎ (params ≡ unknown_tool_call)
IsAllowedEvent options catalog (ran case) = IsAllowedCase options catalog case

module _ {C W : Type 0} (server : Server C W) (options : StandardOptions)
    (catalog : ToolCatalog) where
  abbrev allowed_log : Kept (logged server)
  allowed_log = record {
    Holds = λ s. All (IsAllowedEvent options catalog) s.1;
    Called = λ name. MayCall options catalog name;
    Asked = λ method params. (str_eq method "tools/call" ≡ false) ⊎ (params ≡ unknown_tool_call);
    Ran = λ case. IsAllowedCase options catalog case;
    open_keeps = λ w h. h;
    initialize_keeps = λ c w h. h;
    call_keeps = λ c name arguments w a h. (a, h);
    raw_keeps = λ c method params w a h. (a, h);
    case_keeps = λ c case catalog' w a h. (a, h);
  }

is_callable-IsReadOnly :
    (confirm : Bool) (tool : ToolDefinition)
    → is_callable confirm (class_of tool) ≡ true
    → IsReadOnly confirm tool
unfolding class_of
is_callable-IsReadOnly confirm tool h =
    let (r, d, c) = hints confirm tool.read_only_hint tool.destructive_hint h in
    record { not_writer = r; not_destructive = d; declared = c }
  where
    hints :
        (confirm : Bool) (r d : Option Bool)
        → is_callable confirm (
            if is_just false r || is_just true d
            then writer
            else if is_just true r
            then read_only
            else unannotated)
          ≡ true
        → (r ≢ some false) × (d ≢ some true) × ((r ≡ some true) ⊎ (confirm ≡ true))
    hints confirm (some true) none h = (λ e. cc, λ e. cc, inl refl)
    hints confirm (some true) (some true) h = cc
    hints confirm (some true) (some false) h = (λ e. cc, λ e. cc, inl refl)
    hints confirm (some false) d h = cc
    hints confirm none none h = (λ e. cc, λ e. cc, inr h)
    hints confirm none (some true) h = cc
    hints confirm none (some false) h = (λ e. cc, λ e. cc, inr h)

module _ (ops : NumberOps) (pointer : Value → String → Option Value)
    (conforms : Value → Value → Bool) (encoded : Value → ℕ) {C W : Type 0}
    (server : Server C W) where
  granted :
      (options : StandardOptions) (catalog : ToolCatalog) (tool : ToolDefinition)
      → Member tool catalog.tools
      → Granted ops pointer conforms encoded
          (logged server)
          (allowed_log server options catalog)
          options
          tool
  granted options catalog tool m callable kept =
      let may : MayCall options catalog tool.name = record {
        tool = tool;
        listed = m;
        named = refl;
        declared = is_callable-IsReadOnly options.confirm_read_only tool callable;
        kept = kept;
      } in
      (may, record { contention = λ arguments. may; payload = λ arguments field. may })

  -- Whatever the server answers, the battery calls tools, and runs cases on tools, only if the
  -- catalog lists them, no hint declares them writers, a hint declares them read-only or the caller
  -- attested it, and the options do not skip them. Its raw requests call no tool but "mcpeval-unknown-tool".
  pub observe_catalog_allowed :
      (options : StandardOptions) (catalog : ToolCatalog) (w : W) (client : Option C)
      → All
          (IsAllowedEvent options catalog)
          (observe_catalog ops pointer conforms encoded
            (logged server)
            options
            catalog
            (record { world = (w, []); client = client })).1.world.1
  observe_catalog_allowed options catalog w client =
      observe_catalog-keeps ops pointer conforms encoded (logged server)
        (allowed_log server options catalog) options catalog
        (record { world = (w, []); client = client })
        (record {
          method = inl refl;
          ping = inl refl;
          tool = inr refl;
          pagination = tt;
          surfaces = tt;
          negotiation = tt;
        })
        (members-All
          (Granted ops pointer conforms encoded (logged server) (allowed_log server options catalog)
            options)
          catalog.tools (granted options catalog))
        tt
