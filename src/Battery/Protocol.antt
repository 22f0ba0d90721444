-- ===== src/Battery/Protocol.antt =====
-- The protocol checks of src/standard.rs: raw requests and the server-level protocol cases.
use mcp_eval.Prelude.{
  ℕ, String, Bool, true, false, not, ◌&&◌, ◌||◌, Option, none, some, List, [], ◌∷◌, ◌++◌, and_then,
  is_some, if◌then◌else◌, Result, ok, err,
}
use mcp_eval.Prelude
use mcp_eval.Prelude.Int.{ℤ, pos, negsuc}
use mcp_eval.Json.{Value, object, string, to_fields, get, as_i64, as_bool, is_object}
use mcp_eval.Catalog.{ToolCatalog, Failure}
use mcp_eval.Score.CheckId.{CheckId}
use mcp_eval.Score.CheckReason.{CheckReason}
use mcp_eval.Probe.FailureReason.{
  FailureReason, is_transport, negotiation_echoed_unknown, negotiation_inconsistent_support,
}
use mcp_eval.Probe.Report.{CaseReport}
use mcp_eval.Battery.Server.{
  StandardCase, pagination, surface_listing, protocol_negotiation, Server, Session, reconnect,
  ensure_client,
}
use mcp_eval.Battery.Calls.{no_arguments}

-- -32601
abbrev pub is_unknown_method : ℤ → Bool
is_unknown_method (pos n) = false
is_unknown_method (negsuc n) = Prelude.◌==◌ n 32600

abbrev pub is_unknown_code : Option ℤ → Bool
is_unknown_code none = false
is_unknown_code (some code) = is_unknown_method code

abbrev pub is_true : Option Bool → Bool
is_true none = false
is_true (some b) = b

-- `b.then_some(reason)`
abbrev pub when : Bool → CheckReason → Option CheckReason
when b reason = if b then some reason else none

abbrev pub unknown_method_answer : Value → Option CheckReason
unknown_method_answer response =
    when (not (is_unknown_code (and_then (and_then (get "error" response) (get "code")) as_i64)))
      CheckReason.protocol_unknown_method_answered

abbrev pub has_object : Option Value → Bool
has_object none = false
has_object (some v) = is_object v

abbrev pub ping_answer : Value → Option CheckReason
ping_answer response =
    when (not (has_object (get "result" response))) CheckReason.protocol_ping_failed

abbrev pub unknown_tool_answer : Value → Option CheckReason
unknown_tool_answer response =
    when
      (not (
        is_some (get "error" response)
        || is_true (and_then (and_then (get "result" response) (get "isError")) as_bool)))
      CheckReason.protocol_unknown_tool_accepted

abbrev pub unknown_tool_call : Value
unknown_tool_call =
    object (to_fields (("arguments", no_arguments) ∷ ("name", string "mcpeval-unknown-tool") ∷ []))

unfoldable pub negotiation_reason : FailureReason → CheckReason
negotiation_reason negotiation_echoed_unknown = CheckReason.protocol_negotiation_echoed_unknown
negotiation_reason negotiation_inconsistent_support =
    CheckReason.protocol_negotiation_inconsistent_support
negotiation_reason _ = CheckReason.protocol_negotiation_invalid_version

abbrev pub CheckResult : Type 0
CheckResult = CheckId × Option CheckReason

-- A request that did not complete
abbrev pub or_failed : (Value → Option CheckReason) → Option Value → Option CheckReason
or_failed answered none = some CheckReason.protocol_call_failed
or_failed answered (some response) = answered response

abbrev pub pagination_case : StandardCase
pagination_case = pagination "standard-pagination" 20

abbrev pub surfaces_case : StandardCase
surfaces_case = surface_listing "standard-surfaces" 20

abbrev pub negotiation_case : StandardCase
negotiation_case = protocol_negotiation "standard-negotiation" "2000-01-01"

abbrev pub declares : Option Value → Bool
declares none = false
declares (some capabilities) =
    is_some (get "resources" capabilities) || is_some (get "prompts" capabilities)

abbrev pub case_reason : (FailureReason → CheckReason) → Option FailureReason → Option CheckReason
case_reason mapped none = none
case_reason mapped (some reason) =
    if is_transport reason then some CheckReason.protocol_call_failed else some (mapped reason)

module _ {C W : Type 0} (server : Server C W) where
  abbrev pub raw_reply : C → Result Failure Value × W → Option Value × Session C W
  raw_reply c (ok response, w) = (some response, record { world = w; client = some c })
  raw_reply c (err e, w) = (none, reconnect server w)

  abbrev pub raw_on : String → Value → W → Option C → Option Value × Session C W
  raw_on method params w none = (none, record { world = w; client = none })
  raw_on method params w (some c) = raw_reply c (server.raw_request c method params w)

  unfoldable pub raw : String → Value → Session C W → Option Value × Session C W
  unfolding ensure_client reconnect
  raw method params s =
      let s' : Session C W = ensure_client server s in raw_on method params s'.world s'.client

  abbrev pub reason_reply :
      (FailureReason → CheckReason) → C → Option CaseReport × W → Option CheckReason × Session C W
  reason_reply mapped c (some report, w) =
      (case_reason mapped report.reason, record { world = w; client = some c })
  reason_reply mapped c (none, w) = (some CheckReason.protocol_call_failed, reconnect server w)

  abbrev pub reason_on :
      (FailureReason → CheckReason)
      → StandardCase
      → ToolCatalog
      → W
      → Option C
      → Option CheckReason × Session C W
  reason_on mapped case catalog w none =
      (some CheckReason.protocol_call_failed, record { world = w; client = none })
  reason_on mapped case catalog w (some c) =
      reason_reply mapped c (server.run_case c case catalog w)

  unfoldable pub reason_of :
      (FailureReason → CheckReason)
      → StandardCase
      → ToolCatalog
      → Session C W
      → Option CheckReason × Session C W
  unfolding ensure_client reconnect
  reason_of mapped case catalog s =
      let s' : Session C W = ensure_client server s in
      reason_on mapped case catalog s'.world s'.client

  abbrev pub declares_surfaces : W → Option C → Bool
  declares_surfaces w none = false
  declares_surfaces w (some c) = declares (server.capabilities c w)

  -- The surface listing, where the server declares a surface.
  abbrev pub surface_checks : Bool → ToolCatalog → Session C W → List CheckResult × Session C W
  surface_checks false catalog s = ([], s)
  surface_checks true catalog s =
      let (reason, s') =
        reason_of (λ _. CheckReason.protocol_surface_invalid) surfaces_case catalog s in
      ((CheckId.protocol_surfaces, reason) ∷ [], s')

  unfoldable pub protocol_checks : ToolCatalog → Session C W → List CheckResult × Session C W
  unfolding raw reason_of negotiation_reason
  protocol_checks catalog s0 =
      let (method, s1) = raw "mcpeval/unknown" no_arguments s0 in
      let (ping, s2) = raw "ping" no_arguments s1 in
      let (tool, s3) = raw "tools/call" unknown_tool_call s2 in
      let (paged, s4) =
        reason_of (λ _. CheckReason.protocol_pagination_invalid) pagination_case catalog s3 in
      let (surfaces, s5) = surface_checks (declares_surfaces s4.world s4.client) catalog s4 in
      let (negotiated, s6) = reason_of negotiation_reason negotiation_case catalog s5 in
      (
        (CheckId.protocol_unknown_method, or_failed unknown_method_answer method)
            ∷ (CheckId.protocol_ping, or_failed ping_answer ping)
            ∷ (CheckId.protocol_unknown_tool, or_failed unknown_tool_answer tool)
            ∷ (CheckId.protocol_pagination, paged)
            ∷ (surfaces ++ ((CheckId.protocol_negotiation, negotiated) ∷ [])),
        s6,
      )
