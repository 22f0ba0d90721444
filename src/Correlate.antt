-- ===== src/Correlate.antt =====
-- src/correlate.rs: the requests that wait for their replies, and the call records that are made of
-- the pairs. The server's label, the session, the event identity and the time stamp of a record are
-- left out; they do not change while a capture runs.
mod Replies
mod Examples
use mcp_eval.Prelude.{
  ℕ, suc, ◌+◌, ◌-◌, min, ◌^◌, String, Bool, true, false, not, ◌&&◌, ◌||◌, Option, none, some, List,
  [], ◌∷◌, filter, any, map_some, and_then, unwrap_or, is_some, str_eq, append, if◌then◌else◌,
  prepend,
}
use mcp_eval.Json.{
  Value, null, bool, number, string, array, object, get, lookup, as_str, as_bool, as_array,
  is_object,
}
use mcp_eval.Privacy.{valid_tool}
use mcp_eval.Catalog.{filter_some}
use mcp_eval.Shape.{EnumIndex, Recognizers, learn, shape}

pub record Pending : Type 0 where
  pub method : String
  pub tool : Option String
  pub args : Option Value
  pub sent_ms : ℕ
  pub shim_self_us : ℕ

-- `pending` maps a scope with an id to the request.
pub record Correlator : Type 0 where
  pub seq : ℕ
  pub enums : EnumIndex
  pub declared_tools : List String
  pub pending : List (String × Pending)

-- What the error of a record is described from: the reply with its `error`, or the result of a tool.
pub data ErrorSource : Type 0 where
  envelope tool_result : Value → ErrorSource

pub record CallRecord : Type 0 where
  pub seq : ℕ
  pub method : String
  pub tool : Option String
  pub args : Option Value
  pub latency_ms : Option ℕ
  pub outcome : String
  pub error : Option ErrorSource
  pub shim_self_us : ℕ

-- `HashMap::remove` and `HashMap::insert`
abbrev pub without : String → List (String × Pending) → List (String × Pending)
without k map = filter (λ e. not (str_eq e.0 k)) map

abbrev pub add_pending : String → Pending → List (String × Pending) → List (String × Pending)
add_pending k p map = (k, p) ∷ without k map

-- `none` is the error: a result that is no object, or an `isError` that is no Boolean.
abbrev pub error_flag : Option Value → Option Bool
error_flag none = some false
error_flag (some (bool b)) = some b
error_flag (some _) = none

unfoldable pub tool_result_is_error : Value → Option Bool
tool_result_is_error result = if is_object result then error_flag (get "isError" result) else none

abbrev pub flag_is : Option Bool → Bool
flag_is none = false
flag_is (some b) = b

-- `tool_error`: `none` is its error, `some none` that there is no result.
unfoldable pub tool_error : String → Option Value → Option (Option Bool)
unfolding tool_result_is_error
tool_error method none = some none
tool_error method (some result) =
    if str_eq method "tools/call"
    then map_some some (tool_result_is_error result)
    else some (some (flag_is (and_then (get "isError" result) as_bool)))

abbrev pub is_tool_error : Option (Option Bool) → Bool
is_tool_error none = false
is_tool_error (some flag) = flag_is flag

abbrev pub outcome_label : Bool → Option (Option Bool) → String
outcome_label true flag = "error"
outcome_label false none = "unknown"
outcome_label false (some flag) = "ok"

abbrev pub error_source : Value → Option Value → Option Value → ErrorSource
error_source v (some error) result = envelope v
error_source v none (some result) = tool_result result
error_source v none none = envelope v

module _ (r : Recognizers) where
  abbrev pub key_of_id : Option Value → Option String
  key_of_id (some (string s)) = some (append "s:" s)
  key_of_id (some (number n)) = some (append "n:" (r.print_number n))
  key_of_id _ = none

  unfoldable pub id_key : Value → Option String
  id_key v = key_of_id (get "id" v)

  abbrev pub scoped : String → String → String
  scoped scope id = append scope (append ":" id)

  abbrev pub safe_tool : String → String
  safe_tool name = if valid_tool name then name else "unlisted"

  abbrev pub is_declared : Correlator → String → Bool
  is_declared c name = any (λ t. str_eq t name) c.declared_tools

  -- The request that is kept: `elapsed_us` is what keeping it took, and a sum stops at the largest u64.
  unfoldable pub pending_of : Value → String → ℕ → ℕ → ℕ → Correlator → Pending
  unfolding shape valid_tool
  pending_of v method now_ms base_us elapsed_us c =
      let requested : Option String = and_then (and_then (get "params" v) (get "name")) as_str in
      record {
        method = method;
        tool = map_some safe_tool requested;
        args =
            map_some (shape r c.enums (unwrap_or "" (filter_some (is_declared c) requested)))
              (and_then (get "params" v) (get "arguments"));
        sent_ms = now_ms;
        shim_self_us = min (base_us + elapsed_us) (2 ^ 64 - 1);
      }

  abbrev pub outbound :
      Value → ℕ → ℕ → ℕ → String → Option String → Option String → Correlator → Correlator
  outbound v now_ms base_us elapsed_us scope none id c = c
  outbound v now_ms base_us elapsed_us scope (some method) none c = c
  outbound v now_ms base_us elapsed_us scope (some method) (some id) c = record c {
    pending =
        add_pending (scoped scope id) (pending_of v method now_ms base_us elapsed_us c) c.pending;
  }

  unfoldable pub on_outbound : Value → ℕ → ℕ → ℕ → String → Correlator → Correlator
  unfolding pending_of id_key
  on_outbound v now_ms base_us elapsed_us scope c =
      outbound v now_ms base_us elapsed_us scope (and_then (get "method" v) as_str) (id_key v) c

  abbrev pub learn_named : Option String → Option Value → Correlator → Correlator
  learn_named (some name) (some schema) c =
      if valid_tool name
      then record c { declared_tools = name ∷ c.declared_tools; enums = learn name schema c.enums }
      else c
  learn_named _ _ c = c

  abbrev pub learn_each : List Value → Correlator → Correlator
  learn_each [] c = c
  learn_each (tool ∷ rest) c =
      learn_each rest (learn_named (and_then (get "name" tool) as_str) (get "inputSchema" tool) c)

  unfoldable pub learn_tools : Value → Correlator → Correlator
  unfolding learn valid_tool
  learn_tools result c = learn_each (unwrap_or [] (and_then (get "tools" result) as_array)) c

  -- The tools of a reply to `tools/list`
  abbrev pub learn_reply : Option Value → Pending → Correlator → Correlator
  learn_reply none p c = c
  learn_reply (some result) p c = if str_eq p.method "tools/list" then learn_tools result c else c

  -- The record of a reply
  unfoldable pub record_of : Value → ℕ → Pending → ℕ → CallRecord
  unfolding tool_error
  record_of v now_ms p seq =
      let flag : Option (Option Bool) = tool_error p.method (get "result" v) in
      let is_error : Bool = is_some (get "error" v) || is_tool_error flag in
      record {
        seq = seq;
        method = p.method;
        tool = p.tool;
        args = p.args;
        latency_ms = some (now_ms - p.sent_ms);
        outcome = outcome_label is_error flag;
        error = if is_error then some (error_source v (get "error" v) (get "result" v)) else none;
        shim_self_us = p.shim_self_us;
      }

  abbrev pub is_response : Value → Bool
  is_response v = is_some (get "result" v) || is_some (get "error" v)

  abbrev pub replied :
      Value → ℕ → String → Option Pending → Correlator → Option CallRecord × Correlator
  replied v now_ms k none c = (none, c)
  replied v now_ms k (some p) c =
      let c' : Correlator = learn_reply (get "result" v) p c in
      (
        some (record_of v now_ms p (suc c'.seq)),
        record c' { seq = suc c'.seq; pending = without k c'.pending },
      )

  abbrev pub notified : Option String → Correlator → Option CallRecord × Correlator
  notified none c = (none, c)
  notified (some method) c = (
    some (record {
      seq = suc c.seq;
      method = method;
      tool = none;
      args = none;
      latency_ms = none;
      outcome = "notification";
      error = none;
      shim_self_us = 0;
    }),
    record c { seq = suc c.seq },
  )

  abbrev pub inbound :
      Value → ℕ → String → Option String → Correlator → Option CallRecord × Correlator
  inbound v now_ms scope none c = notified (and_then (get "method" v) as_str) c
  inbound v now_ms scope (some id) c =
      if is_response v
      then replied v now_ms (scoped scope id) (lookup (scoped scope id) c.pending) c
      else (none, c)

  unfoldable pub on_inbound : Value → ℕ → String → Correlator → Option CallRecord × Correlator
  unfolding id_key learn_tools record_of
  on_inbound v now_ms scope c = inbound v now_ms scope (id_key v) c

  unfoldable pub on_unparsed : String → Correlator → CallRecord × Correlator
  on_unparsed direction c = (
    record {
      seq = suc c.seq;
      method = append "unparsed/" direction;
      tool = none;
      args = none;
      latency_ms = none;
      outcome = "unparsed";
      error = none;
      shim_self_us = 0;
    },
    record c { seq = suc c.seq },
  )
