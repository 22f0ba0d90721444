-- ===== src/Battery/Server.antt =====
-- The server as src/standard.rs uses it, the client that may be lost, and the server-level cases.
use mcp_eval.Prelude.{ℕ, String, Bool, false, Option, none, some, if◌then◌else◌, Result}
use mcp_eval.Json.{Value}
use mcp_eval.Catalog.{ToolCatalog, Failure}
use mcp_eval.Standard.{ToolResponse}
use mcp_eval.Probe.Report.{CaseReport, case_passed}

-- The probe cases that the battery builds, all of them read-only.
pub data StandardCase : Type 0 where
  contention : (id tool : String) (arguments : Value) → StandardCase
  payload_bounds :
      (id tool : String) (arguments : Value) (field : String) (size_bytes : ℕ) → StandardCase
  pagination : (id : String) (max_pages : ℕ) → StandardCase
  surface_listing : (id : String) (max_pages : ℕ) → StandardCase
  protocol_negotiation : (id bogus_version : String) → StandardCase

-- `C` is a client of the server, `W` all that its operations read and change: the server, the
-- connections and the clock. `none` is an error.
pub record Server (C W : Type 0) : Type 0 where
  -- `target.connect(None)`
  pub open_client : W → Option C × W
  pub initialize : C → W → Bool × W
  -- `call_tool_observing`, with the milliseconds it took
  pub call_tool : C → String → Value → W → Option (ToolResponse × ℕ) × W
  pub raw_request : C → String → Value → W → Result Failure Value × W
  pub capabilities : C → W → Option Value
  -- `probe::run_unjournaled`
  pub run_case : C → StandardCase → ToolCatalog → W → Option CaseReport × W
  -- `target.budget.check()` fails.
  pub exhausted : W → Bool

-- The connection in use, which is `none` after a failed reconnection.
pub record Session (C W : Type 0) : Type 0 where
  pub world : W
  pub client : Option C

module _ {C W : Type 0} (server : Server C W) where
  abbrev pub initialized : C → Bool × W → Option C × W
  initialized c (fine, w) = (if fine then some c else none, w)

  abbrev pub opened : Option C × W → Option C × W
  opened (none, w) = (none, w)
  opened (some c, w) = initialized c (server.initialize c w)

  unfoldable pub connect : W → Option C × W
  connect w = opened (server.open_client w)

  abbrev pub session_of : Option C × W → Session C W
  session_of (c, w) = record { world = w; client = c }

  -- `*client = connect(target).ok()`
  unfoldable pub reconnect : W → Session C W
  unfolding connect
  reconnect w = session_of (connect w)

  abbrev connected : W → Option C → Session C W
  connected w none = reconnect w
  connected w (some c) = record { world = w; client = some c }

  -- A connection where there is none.
  unfoldable pub ensure_client : Session C W → Session C W
  unfolding reconnect
  ensure_client s = connected s.world s.client

  abbrev pub case_result : C → Option CaseReport × W → Bool × Session C W
  case_result c (some report, w) = (case_passed report, record { world = w; client = some c })
  case_result c (none, w) = (false, reconnect w)

  abbrev pub case_on : StandardCase → ToolCatalog → W → Option C → Bool × Session C W
  case_on case catalog w none = (false, record { world = w; client = none })
  case_on case catalog w (some c) = case_result c (server.run_case c case catalog w)

  unfoldable pub server_case : StandardCase → ToolCatalog → Session C W → Bool × Session C W
  unfolding ensure_client reconnect
  server_case case catalog s =
      let s' : Session C W = ensure_client s in case_on case catalog s'.world s'.client
