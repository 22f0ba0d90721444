-- ===== src/Battery/Keeps.antt =====
-- What the battery of src/standard.rs keeps: whatever of the world the server's operations keep when
-- the battery uses them.
use mcp_eval.Prelude.{
  ℕ, zero, suc, String, Bool, true, false, Option, none, some, Result, ok, err, Bool-cases, inl,
  inr,
}
use mcp_eval.Json.{Value}
use mcp_eval.Catalog.{ToolCatalog, Failure}
use mcp_eval.Score.CheckReason.{CheckReason}
use mcp_eval.Standard.{ToolDefinition, ToolResponse, outcome_of, Honesty}
use mcp_eval.Arguments.Synthesis.{invalid_arguments}
use mcp_eval.Probe.FailureReason.{FailureReason}
use mcp_eval.Probe.Report.{CaseReport}
use mcp_eval.Battery.Server.{
  StandardCase, Server, Session, opened, connect, reconnect, ensure_client, case_result, case_on,
  server_case,
}
use mcp_eval.Battery.Calls.{
  Gathered, no_arguments, pong, refusal, call_invalid, honesty_with, probe_honesty, is_refused,
  gather, after_response, round_on, rounds, exercise_tool, Exercised, honesty_of, repeats,
  nothing_gathered,
}
use mcp_eval.Battery.Protocol.{
  unknown_tool_call, negotiation_reason, pagination_case, surfaces_case, negotiation_case,
  raw_reply, raw_on, raw, reason_reply, reason_on, reason_of, surface_checks, protocol_checks,
}

-- What is kept, and when a call, a request or a case keeps it. Opening a client always does.
pub record Kept {C W : Type 0} (server : Server C W) : Type 1 where
  pub Holds : W → Type 0
  pub Called : String → Type 0
  pub Asked : String → Value → Type 0
  pub Ran : StandardCase → Type 0
  pub open_keeps : (w : W) → Holds w → Holds (server.open_client w).1
  pub initialize_keeps : (c : C) (w : W) → Holds w → Holds (server.initialize c w).1
  pub call_keeps :
      (c : C) (name : String) (arguments : Value) (w : W)
      → Called name
      → Holds w
      → Holds (server.call_tool c name arguments w).1
  pub raw_keeps :
      (c : C) (method : String) (params : Value) (w : W)
      → Asked method params
      → Holds w
      → Holds (server.raw_request c method params w).1
  pub case_keeps :
      (c : C) (case : StandardCase) (catalog : ToolCatalog) (w : W)
      → Ran case
      → Holds w
      → Holds (server.run_case c case catalog w).1

module _ {C W : Type 0} (server : Server C W) (k : Kept server) where
  opened-keeps : (r : Option C × W) → Kept.Holds k r.1 → Kept.Holds k (opened server r).1
  opened-keeps (none, w) h = h
  opened-keeps (some c, w) h = Kept.initialize_keeps k c w h

  reconnect-keeps : (w : W) → Kept.Holds k w → Kept.Holds k (reconnect server w).world
  unfolding reconnect connect
  reconnect-keeps w h = opened-keeps (server.open_client w) (Kept.open_keeps k w h)

  ensure_client-keeps :
      (s : Session C W) → Kept.Holds k s.world → Kept.Holds k (ensure_client server s).world
  unfolding ensure_client
  ensure_client-keeps s h = by_client s.client
    where
      by_client :
          (c : Option C)
          → Kept.Holds k (ensure_client server (record { world = s.world; client = c })).world
      by_client none = reconnect-keeps s.world h
      by_client (some c) = h

  case_result-keeps :
      (c : C) (r : Option CaseReport × W)
      → Kept.Holds k r.1
      → Kept.Holds k (case_result server c r).1.world
  case_result-keeps c (none, w) h = reconnect-keeps w h
  case_result-keeps c (some report, w) h = h

  case_on-keeps :
      (case : StandardCase) (catalog : ToolCatalog) (w : W) (c : Option C)
      → Kept.Ran k case
      → Kept.Holds k w
      → Kept.Holds k (case_on server case catalog w c).1.world
  case_on-keeps case catalog w none r h = h
  case_on-keeps case catalog w (some c) r h =
      case_result-keeps c (server.run_case c case catalog w)
        (Kept.case_keeps k c case catalog w r h)

  pub server_case-keeps :
      (case : StandardCase) (catalog : ToolCatalog) (s : Session C W)
      → Kept.Ran k case
      → Kept.Holds k s.world
      → Kept.Holds k (server_case server case catalog s).1.world
  unfolding server_case
  server_case-keeps case catalog s r h =
      case_on-keeps case catalog (ensure_client server s).world (ensure_client server s).client r
        (ensure_client-keeps s h)

  pong-keeps :
      (c : C) (found : Honesty) (r : Result Failure Value × W)
      → Kept.Holds k r.1
      → Kept.Holds k (pong server c found r).1.world
  pong-keeps c found (ok reply, w) h = h
  pong-keeps c found (err e, w) h = reconnect-keeps w h

  refusal-keeps :
      (c : C) (r : Option (ToolResponse × ℕ) × W)
      → Kept.Asked k "ping" no_arguments
      → Kept.Holds k r.1
      → Kept.Holds k (refusal server c r).1.world
  refusal-keeps c (none, w) p h = reconnect-keeps w h
  refusal-keeps c (some (response, ms), w) p h =
      pong-keeps c (honesty_of response) (server.raw_request c "ping" no_arguments w)
        (Kept.raw_keeps k c "ping" no_arguments w p h)

  call_invalid-keeps :
      (name : String) (arguments : Value) (w : W) (c : Option C)
      → Kept.Asked k "ping" no_arguments
      → Kept.Called k name
      → Kept.Holds k w
      → Kept.Holds k (call_invalid server name arguments w c).1.world
  call_invalid-keeps name arguments w none p a h = h
  call_invalid-keeps name arguments w (some c) p a h =
      refusal-keeps c (server.call_tool c name arguments w) p
        (Kept.call_keeps k c name arguments w a h)

  pub probe_honesty-keeps :
      (tool : ToolDefinition) (s : Session C W)
      → Kept.Asked k "ping" no_arguments
      → Kept.Called k tool.name
      → Kept.Holds k s.world
      → Kept.Holds k (probe_honesty server tool s).1.world
  unfolding probe_honesty
  probe_honesty-keeps tool s p a h = with_arguments (invalid_arguments tool.input_schema)
    where
      with_arguments : (o : Option Value) → Kept.Holds k (honesty_with server tool.name s o).1.world
      with_arguments none = h
      with_arguments (some arguments) =
          call_invalid-keeps tool.name arguments (ensure_client server s).world
            (ensure_client server s).client p a (ensure_client-keeps s h)

  module _ (conforms : Value → Value → Bool) where
    after_response-keeps :
        (go_on : Gathered → Session C W → Exercised server conforms) (tool : ToolDefinition) (c : C)
        (g : Gathered) (r : Option (ToolResponse × ℕ) × W)
        → ((g : Gathered) (s : Session C W)
            → Kept.Holds k s.world
            → Kept.Holds k (go_on g s).1.world)
        → Kept.Holds k r.1
        → Kept.Holds k (after_response server conforms go_on tool c g r).1.world
    after_response-keeps go_on tool c g (none, w) later h = reconnect-keeps w h
    after_response-keeps go_on tool c g (some (response, ms), w) later h =
        elim (Bool-cases (is_refused server conforms (outcome_of response))) [
          | inl e ↦ rw e h
          | inr e ↦ rw e (
              later (gather server conforms tool response ms g)
                (record { world = w; client = some c }) h)
        ]

    rounds-keeps :
        (n : ℕ) (tool : ToolDefinition) (arguments : Value) (g : Gathered) (s : Session C W)
        → Kept.Called k tool.name
        → Kept.Holds k s.world
        → Kept.Holds k (rounds server conforms n tool arguments g s).1.world
    unfolding rounds
    rounds-keeps zero tool arguments g s a h = h
    rounds-keeps (suc n) tool arguments g s a h =
        round (λ g' s'. rounds server conforms n tool arguments g' s')
          (λ g' s' h'. rounds-keeps n tool arguments g' s' a h') s.client
      where
        round :
            (go_on : Gathered → Session C W → Exercised server conforms)
            → ((g : Gathered) (s : Session C W)
                → Kept.Holds k s.world
                → Kept.Holds k (go_on g s).1.world)
            → (c : Option C)
            → Kept.Holds k (round_on server conforms go_on tool arguments g s.world c).1.world
        round go_on later none = h
        round go_on later (some c) =
            after_response-keeps go_on tool c g (server.call_tool c tool.name arguments s.world)
              later (Kept.call_keeps k c tool.name arguments s.world a h)

    pub exercise_tool-keeps :
        (tool : ToolDefinition) (arguments : Value) (s : Session C W)
        → Kept.Called k tool.name
        → Kept.Holds k s.world
        → Kept.Holds k (exercise_tool server conforms tool arguments s).1.world
    unfolding exercise_tool
    exercise_tool-keeps tool arguments s a h =
        rounds-keeps repeats tool arguments nothing_gathered (ensure_client server s) a
          (ensure_client-keeps s h)

  raw-keeps :
      (method : String) (params : Value) (s : Session C W)
      → Kept.Asked k method params
      → Kept.Holds k s.world
      → Kept.Holds k (raw server method params s).1.world
  unfolding raw
  raw-keeps method params s a h = on (ensure_client server s).client
    where
      replied :
          (c : C) (r : Result Failure Value × W)
          → Kept.Holds k r.1
          → Kept.Holds k (raw_reply server c r).1.world
      replied c (ok v, w) h = h
      replied c (err e, w) h = reconnect-keeps w h

      on :
          (c : Option C)
          → Kept.Holds k (raw_on server method params (ensure_client server s).world c).1.world
      on none = ensure_client-keeps s h
      on (some c) = replied c (server.raw_request c method params (ensure_client server s).world) (
          Kept.raw_keeps k c method params (ensure_client server s).world a
            (ensure_client-keeps s h))

  reason_of-keeps :
      (mapped : FailureReason → CheckReason) (case : StandardCase) (catalog : ToolCatalog)
      (s : Session C W)
      → Kept.Ran k case
      → Kept.Holds k s.world
      → Kept.Holds k (reason_of server mapped case catalog s).1.world
  unfolding reason_of
  reason_of-keeps mapped case catalog s r h = on (ensure_client server s).client
    where
      replied :
          (c : C) (r : Option CaseReport × W)
          → Kept.Holds k r.1
          → Kept.Holds k (reason_reply server mapped c r).1.world
      replied c (some report, w) h = h
      replied c (none, w) h = reconnect-keeps w h

      on :
          (c : Option C)
          → Kept.Holds k
              (reason_on server mapped case catalog (ensure_client server s).world c).1.world
      on none = ensure_client-keeps s h
      on (some c) = replied c (server.run_case c case catalog (ensure_client server s).world) (
          Kept.case_keeps k c case catalog (ensure_client server s).world r
            (ensure_client-keeps s h))

  -- The protocol checks ask for an unknown method, `ping` and an unknown tool, and run the cases
  -- that name no tool.
  pub record ProtocolAllowed : Type 0 where
    pub method : Kept.Asked k "mcpeval/unknown" no_arguments
    pub ping : Kept.Asked k "ping" no_arguments
    pub tool : Kept.Asked k "tools/call" unknown_tool_call
    pub pagination : Kept.Ran k pagination_case
    pub surfaces : Kept.Ran k surfaces_case
    pub negotiation : Kept.Ran k negotiation_case

  surface_checks-keeps :
      (b : Bool) (catalog : ToolCatalog) (s : Session C W)
      → Kept.Ran k surfaces_case
      → Kept.Holds k s.world
      → Kept.Holds k (surface_checks server b catalog s).1.world
  surface_checks-keeps false catalog s r h = h
  surface_checks-keeps true catalog s r h = reason_of-keeps _ surfaces_case catalog s r h

  pub protocol_checks-keeps :
      (catalog : ToolCatalog) (s : Session C W)
      → ProtocolAllowed
      → Kept.Holds k s.world
      → Kept.Holds k (protocol_checks server catalog s).1.world
  unfolding protocol_checks
  protocol_checks-keeps catalog s p h =
      reason_of-keeps negotiation_reason negotiation_case catalog _ p.negotiation (
        surface_checks-keeps _ catalog _ p.surfaces (
          reason_of-keeps _ pagination_case catalog _ p.pagination (
            raw-keeps "tools/call" unknown_tool_call _ p.tool (
              raw-keeps "ping" no_arguments _ p.ping
                (raw-keeps "mcpeval/unknown" no_arguments s p.method h)))))
