-- ===== src/Battery/Calls.antt =====
-- The calls of one tool: `probe_honesty` and `exercise_tool` of src/standard.rs.
use mcp_eval.Prelude.{
  ℕ, zero, suc, ◌+◌, ◌/◌, String, Bool, true, false, ◌&&◌, ◌||◌, Option, none, some, List, [], ◌∷◌,
  ◌++◌, and_then, unwrap_or, is_empty, bytes, str_eq, leb, if◌then◌else◌, Result, ok, err,
}
use mcp_eval.Json.{Value, object, to_fields, get, as_str}
use mcp_eval.Catalog.{Failure}
use mcp_eval.Score.CheckReason.{
  honesty_empty_error, honesty_wrong_code, honesty_accepted_invalid, honesty_call_failed,
  coverage_call_failed, coverage_rejected_arguments,
}
use mcp_eval.Standard.{
  ToolDefinition, ToolResponse, answer, failure, is_invalid_params, is_text, Outcome, success,
  tool_error, rpc_error, refused, outcome_of, CallCounts, observe, Exercise, not_exercised,
  exercised, Honesty, honest, dishonest,
}
use mcp_eval.Arguments.Synthesis.{invalid_arguments}
use mcp_eval.Battery.Server.{Server, Session, reconnect, ensure_client}

-- `UNTEXTED_TOOL_ERROR`
abbrev pub untexted_tool_error : String
untexted_tool_error = "tool error"

abbrev pub honesty_of_message : String → Honesty
honesty_of_message message =
    if is_empty (bytes message) || str_eq message untexted_tool_error
    then dishonest honesty_empty_error
    else honest

unfoldable pub honesty_of : ToolResponse → Honesty
honesty_of (answer v) = dishonest honesty_accepted_invalid
honesty_of (failure code payload) =
    if is_invalid_params code
    then honest
    else if is_text "tool-error" (and_then (get "code" payload) as_str)
    then honesty_of_message (unwrap_or "" (and_then (get "message" payload) as_str))
    else dishonest honesty_wrong_code

-- `REPEATS`
abbrev pub repeats : ℕ
repeats = 3

abbrev pub no_calls : CallCounts
no_calls = record {
  successful = 0;
  tool_errors = 0;
  rpc_errors = 0;
  rejected = 0;
  transport_errors = 0;
}

-- What the rounds of `exercise_tool` have gathered.
pub record Gathered : Type 0 where
  pub calls : CallCounts
  pub outcomes : List Outcome
  pub latencies : List ℕ
  pub output_schema : Option Bool

abbrev pub nothing_gathered : Gathered
nothing_gathered = record { calls = no_calls; outcomes = []; latencies = []; output_schema = none }

-- The derived `==` of `Outcome`
abbrev pub same_outcome : Outcome → Outcome → Bool
same_outcome success success = true
same_outcome tool_error tool_error = true
same_outcome rpc_error rpc_error = true
same_outcome refused refused = true
same_outcome _ _ = false

-- `windows(2).all(|pair| pair[0] == pair[1])`
unfoldable pub is_constant : List Outcome → Bool
is_constant [] = true
is_constant (a ∷ []) = true
is_constant (a ∷ b ∷ rest) = same_outcome a b && is_constant (b ∷ rest)

abbrev pub insert_number : ℕ → List ℕ → List ℕ
insert_number x [] = x ∷ []
insert_number x (y ∷ ys) = let more = insert_number x ys in if leb x y then x ∷ y ∷ ys else y ∷ more

abbrev pub sort_numbers : List ℕ → List ℕ
sort_numbers [] = []
sort_numbers (x ∷ xs) = insert_number x (sort_numbers xs)

abbrev pub number_at : ℕ → List ℕ → ℕ
number_at n [] = 0
number_at zero (x ∷ xs) = x
number_at (suc n) (x ∷ xs) = number_at n xs

-- `latencies[REPEATS / 2]` of the sorted latencies
unfoldable pub median : List ℕ → ℕ
median latencies = number_at (repeats / 2) (sort_numbers latencies)

abbrev pub no_arguments : Value
no_arguments = object (to_fields [])

module _ {C W : Type 0} (server : Server C W) where
  abbrev pub pong : C → Honesty → Result Failure Value × W → Option Honesty × Session C W
  pong c found (ok reply, w) = (some found, record { world = w; client = some c })
  pong c found (err e, w) = (some (dishonest honesty_call_failed), reconnect server w)

  -- After the call: `ping`, which must be answered.
  abbrev pub refusal : C → Option (ToolResponse × ℕ) × W → Option Honesty × Session C W
  refusal c (some (response, ms), w) =
      pong c (honesty_of response) (server.raw_request c "ping" no_arguments w)
  refusal c (none, w) = (some (dishonest honesty_call_failed), reconnect server w)

  abbrev pub call_invalid : String → Value → W → Option C → Option Honesty × Session C W
  call_invalid name arguments w none =
      (some (dishonest honesty_call_failed), record { world = w; client = none })
  call_invalid name arguments w (some c) = refusal c (server.call_tool c name arguments w)

  abbrev pub honesty_with : String → Session C W → Option Value → Option Honesty × Session C W
  honesty_with name s none = (none, s)
  honesty_with name s (some arguments) =
      let s' : Session C W = ensure_client server s in
      call_invalid name arguments s'.world s'.client

  unfoldable pub probe_honesty : ToolDefinition → Session C W → Option Honesty × Session C W
  unfolding honesty_of reconnect ensure_client invalid_arguments
  probe_honesty tool s = honesty_with tool.name s (invalid_arguments tool.input_schema)

  -- `conforms` is whether the schema compiles and admits the value.
  module _ (conforms : Value → Value → Bool) where
    abbrev pub is_valid_output : Value → Option Value → Bool
    is_valid_output schema none = false
    is_valid_output schema (some structured) = conforms schema structured

    abbrev pub output_after : Option Value → Option Bool → ToolResponse → Option Bool
    output_after (some schema) so_far (answer result) =
        some (unwrap_or true so_far && is_valid_output schema (get "structuredContent" result))
    output_after _ so_far response = so_far

    abbrev pub gather : ToolDefinition → ToolResponse → ℕ → Gathered → Gathered
    gather tool response ms g = record {
      calls = observe g.calls (outcome_of response);
      outcomes = g.outcomes ++ outcome_of response ∷ [];
      latencies = g.latencies ++ ms ∷ [];
      output_schema = output_after tool.output_schema g.output_schema response;
    }

    abbrev pub is_refused : Outcome → Bool
    is_refused refused = true
    is_refused _ = false

    abbrev pub Exercised : Type 0
    Exercised = (Exercise × CallCounts) × Session C W

    -- The rest of a round, after the call; `go_on` are the further rounds.
    abbrev pub after_response :
        (Gathered → Session C W → Exercised)
        → ToolDefinition
        → C
        → Gathered
        → Option (ToolResponse × ℕ) × W
        → Exercised
    after_response go_on tool c g (none, w) = (
      (
        not_exercised coverage_call_failed,
        record g.calls { transport_errors = g.calls.transport_errors + 1 },
      ),
      reconnect server w,
    )
    after_response go_on tool c g (some (response, ms), w) =
        if is_refused (outcome_of response)
        then (
          (not_exercised coverage_rejected_arguments, observe g.calls refused),
          record { world = w; client = some c },
        )
        else go_on (gather tool response ms g) (record { world = w; client = some c })

    abbrev pub round_on :
        (Gathered → Session C W → Exercised)
        → ToolDefinition
        → Value
        → Gathered
        → W
        → Option C
        → Exercised
    round_on go_on tool arguments g w none =
        ((not_exercised coverage_call_failed, g.calls), record { world = w; client = none })
    round_on go_on tool arguments g w (some c) =
        after_response go_on tool c g (server.call_tool c tool.name arguments w)

    -- The loop over the calls that are left.
    unfoldable pub rounds : ℕ → ToolDefinition → Value → Gathered → Session C W → Exercised
    unfolding is_constant median observe outcome_of reconnect
    rounds zero tool arguments g s =
        ((exercised (is_constant g.outcomes) (median g.latencies) g.output_schema, g.calls), s)
    rounds (suc n) tool arguments g s =
        round_on (λ g' s'. rounds n tool arguments g' s') tool arguments g s.world s.client

    unfoldable pub exercise_tool : ToolDefinition → Value → Session C W → Exercised
    unfolding rounds ensure_client
    exercise_tool tool arguments s =
        rounds repeats tool arguments nothing_gathered (ensure_client server s)
