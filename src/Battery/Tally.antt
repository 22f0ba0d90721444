-- ===== src/Battery/Tally.antt =====
-- The calls that src/standard.rs makes of a tool, recorded, and what its counts say of them.
use mcp_eval.Prelude.{
  ℕ, ◌+◌, ◌≤◌, ◌≡◌, ◌≢◌, refl, arith, String, Bool, true, false, Option, none, some, List, ◌∷◌, All,
  count_if, length,
}
use mcp_eval.Standard.{
  ToolResponse, Outcome, success, tool_error, rpc_error, refused, outcome_of, CallCounts, observe,
  Exercise, not_exercised, exercised,
}
use mcp_eval.Battery.Server.{Server}

-- A call of a tool by name, with what came of it: `none` is an error.
abbrev pub Call : Type 0
Call = String × Option ToolResponse

abbrev pub response_of : Option (ToolResponse × ℕ) → Option ToolResponse
response_of none = none
response_of (some (response, ms)) = some response

-- The server with a record of the calls, the latest first.
abbrev pub recorded : {C W : Type 0} → Server C W → Server C (W × List Call)
recorded server = record {
  open_client = λ s. let (r, w) = server.open_client s.0 in (r, (w, s.1));
  initialize = λ c s. let (r, w) = server.initialize c s.0 in (r, (w, s.1));
  call_tool = λ c name arguments s.
      let (r, w) = server.call_tool c name arguments s.0 in (r, (w, (name, response_of r) ∷ s.1));
  raw_request =
      λ c method params s. let (r, w) = server.raw_request c method params s.0 in (r, (w, s.1));
  capabilities = λ c s. server.capabilities c s.0;
  run_case = λ c case catalog s. let (r, w) = server.run_case c case catalog s.0 in (r, (w, s.1));
  exhausted = λ s. server.exhausted s.0;
}

abbrev is_same : Outcome → Outcome → Bool
is_same success success = true
is_same tool_error tool_error = true
is_same rpc_error rpc_error = true
is_same refused refused = true
is_same _ _ = false

-- The call was answered with this outcome.
abbrev pub came_to : Outcome → Call → Bool
came_to o (name, none) = false
came_to o (name, some response) = is_same o (outcome_of response)

abbrev pub is_lost : Call → Bool
is_lost (name, none) = true
is_lost (name, some response) = false

-- The calls are all of one tool, and the counts are the numbers of calls by what came of them.
pub record IsTally (name : String) (c : CallCounts) (calls : List Call) : Type 0 where
  pub named : All (λ e. e.0 ≡ name) calls
  pub successful : c.successful ≡ count_if (came_to success) calls
  pub tool_errors : c.tool_errors ≡ count_if (came_to tool_error) calls
  pub rpc_errors : c.rpc_errors ≡ count_if (came_to rpc_error) calls
  pub rejected : c.rejected ≡ count_if (came_to refused) calls
  pub transport_errors : c.transport_errors ≡ count_if is_lost calls

abbrev pub IsAnswered : Call → Type 0
IsAnswered (name, none) = ⊥
IsAnswered (name, some response) = outcome_of response ≢ refused

abbrev pub IsMade : Exercise → List Call → Type 0
IsMade (not_exercised reason) calls = length calls ≤ 3
IsMade (exercised consistent median output) calls = (length calls ≡ 3) × All IsAnswered calls

abbrev pub IsCounted : String → Exercise → CallCounts → List Call → Type 0
IsCounted name e c calls = IsTally name c calls × IsMade e calls

-- The calls of `3 - n` rounds
pub record Running (n : ℕ) (calls : List Call) : Type 0 where
  pub made : length calls + n ≡ 3
  pub answered : All IsAnswered calls

pub observe-IsTally :
    (name : String) (response : ToolResponse) (o : Outcome) (c : CallCounts) (calls : List Call)
    → outcome_of response ≡ o
    → IsTally name c calls
    → IsTally name (observe c o) ((name, some response) ∷ calls)
unfolding observe
observe-IsTally name response success c calls e t = record {
  named = (refl, t.named);
  successful = rw e (omega (arith, t.successful));
  tool_errors = rw e t.tool_errors;
  rpc_errors = rw e t.rpc_errors;
  rejected = rw e t.rejected;
  transport_errors = t.transport_errors;
}
observe-IsTally name response tool_error c calls e t = record {
  named = (refl, t.named);
  successful = rw e t.successful;
  tool_errors = rw e (omega (arith, t.tool_errors));
  rpc_errors = rw e t.rpc_errors;
  rejected = rw e t.rejected;
  transport_errors = t.transport_errors;
}
observe-IsTally name response rpc_error c calls e t = record {
  named = (refl, t.named);
  successful = rw e t.successful;
  tool_errors = rw e t.tool_errors;
  rpc_errors = rw e (omega (arith, t.rpc_errors));
  rejected = rw e t.rejected;
  transport_errors = t.transport_errors;
}
observe-IsTally name response refused c calls e t = record {
  named = (refl, t.named);
  successful = rw e t.successful;
  tool_errors = rw e t.tool_errors;
  rpc_errors = rw e t.rpc_errors;
  rejected = rw e (omega (arith, t.rejected));
  transport_errors = t.transport_errors;
}

pub lost-IsTally :
    (name : String) (c : CallCounts) (calls : List Call)
    → IsTally name c calls
    → IsTally name (record c { transport_errors = c.transport_errors + 1 }) ((name, none) ∷ calls)
lost-IsTally name c calls t = record {
  named = (refl, t.named);
  successful = t.successful;
  tool_errors = t.tool_errors;
  rpc_errors = t.rpc_errors;
  rejected = t.rejected;
  transport_errors = omega (arith, t.transport_errors);
}
