-- ===== src/Battery/Observe.antt =====
-- `observe` of src/standard.rs: one round for each listed tool, then the server-level cases and the
-- protocol checks.
use mcp_eval.Prelude.{
  ℕ, ◌+◌, ◌/◌, String, Bool, true, false, not, ◌&&◌, Option, none, some, List, [], ◌∷◌, ◌++◌, ◌==◌,
  any, find, map_some, and_then, str_eq, if◌then◌else◌, Result, ok, err,
}
use mcp_eval.Json.{Value, get, as_object, as_str}
use mcp_eval.Catalog.{ToolCatalog, Failure, page_catalog}
use mcp_eval.Score.CheckReason.{coverage_unannotated, coverage_skipped, coverage_unsynthesizable}
use mcp_eval.Standard.{
  ToolDefinition, ToolClass, writer, read_only, unannotated, class_of, Exercise, not_exercised,
  Honesty, dishonest, CallCounts, ToolObservation, Observations, facts_of,
}
use mcp_eval.Arguments.Synthesis.{NumberOps, synthesize, invalid_arguments, or_else}
use mcp_eval.Arguments.Supplied.{ToolArguments, BadArguments, supplied_for, validate}
use mcp_eval.Contract.Compare.{contains}
use mcp_eval.Contract.Changes.{CatalogContract}
use mcp_eval.Contract.Constraints.{catalog_contract}
use mcp_eval.Battery.Server.{
  StandardCase, contention, payload_bounds, Server, Session, connect, server_case,
}
use mcp_eval.Battery.Calls.{no_calls, repeats, probe_honesty, exercise_tool}
use mcp_eval.Battery.Protocol.{protocol_checks}

pub record StandardOptions : Type 0 where
  pub confirm_read_only : Bool
  pub skip_tools : List String
  pub arguments : Option ToolArguments

-- Why the battery observed nothing.
pub data Stopped : Type 0 where
  not_connected exhausted_budget : Stopped
  not_listed : Failure → Stopped
  unknown_skip : String → Stopped
  bad_arguments : BadArguments → Stopped

-- `estimate_tokens`, four characters to a token
unfoldable pub estimate_tokens : ℕ → ℕ
estimate_tokens encoded_bytes = (encoded_bytes + 3) / 4

abbrev pub is_callable : Bool → ToolClass → Bool
is_callable confirm writer = false
is_callable confirm unannotated = confirm
is_callable confirm read_only = true

abbrev pub is_skipped_exercise : Option Exercise → Bool
is_skipped_exercise (some (not_exercised coverage_skipped)) = true
is_skipped_exercise _ = false

-- The first declared string property, by name
abbrev pub is_string_schema : Value → Bool
is_string_schema schema = elim (and_then (get "type" schema) as_str) [
  | none ↦ false
  | some kind ↦ str_eq kind "string"
]

unfoldable pub string_property : ToolDefinition → Option String
string_property tool =
    map_some (λ p. p.0)
      (and_then (and_then (get "properties" tool.input_schema) as_object)
        (find (λ p. is_string_schema p.1)))

abbrev pub Succeeded : Type 0
Succeeded = List (ToolDefinition × Value)

abbrev pub contention_case : ToolDefinition → Value → StandardCase
contention_case tool arguments = contention "standard-contention" tool.name arguments

abbrev pub payload_case : ToolDefinition → Value → String → StandardCase
payload_case tool arguments field =
    payload_bounds "standard-payload" tool.name arguments field 1000000

-- The first tool that succeeded and has a string property
unfoldable pub payload_target : Succeeded → Option StandardCase
unfolding string_property
payload_target [] = none
payload_target ((tool, arguments) ∷ rest) =
    or_else (map_some (payload_case tool arguments) (string_property tool)) (payload_target rest)

abbrev pub contention_target : Succeeded → Option StandardCase
contention_target [] = none
contention_target ((tool, arguments) ∷ rest) = some (contention_case tool arguments)

-- The results of the rounds so far.
pub record Rounds : Type 0 where
  pub tools : List ToolObservation
  pub succeeded : Succeeded

module _ (ops : NumberOps) (pointer : Value → String → Option Value)
    (conforms : Value → Value → Bool) (encoded : Value → ℕ) {C W : Type 0}
    (server : Server C W) where
  abbrev pub Round : Type 0
  Round = (Option Exercise × CallCounts × Succeeded) × Session C W

  abbrev pub exercised_with : ToolDefinition → Value → Session C W → Round
  exercised_with tool arguments s =
      let ((exercise, calls), s') = exercise_tool server conforms tool arguments s in
      (
        (some exercise, calls, if calls.successful == repeats then (tool, arguments) ∷ [] else []),
        s',
      )

  -- `arguments` are those to call the tool with, where there are any.
  abbrev pub exercise_of :
      Bool → ToolDefinition → Bool → ToolClass → Option Value → Session C W → Round
  exercise_of confirm tool skipped writer arguments s = ((none, no_calls, []), s)
  exercise_of false tool skipped unannotated arguments s =
      ((some (not_exercised coverage_unannotated), no_calls, []), s)
  exercise_of true tool true unannotated (some arguments) s =
      ((some (not_exercised coverage_skipped), no_calls, []), s)
  exercise_of true tool false unannotated (some arguments) s = exercised_with tool arguments s
  exercise_of confirm tool true read_only (some arguments) s =
      ((some (not_exercised coverage_skipped), no_calls, []), s)
  exercise_of confirm tool false read_only (some arguments) s = exercised_with tool arguments s
  exercise_of _ tool skipped _ none s =
      ((some (not_exercised coverage_unsynthesizable), no_calls, []), s)

  abbrev pub honesty_in_round :
      ToolDefinition → Bool → Bool → Session C W → Option Honesty × Session C W
  honesty_in_round tool true callable s =
      (map_some (λ _. dishonest coverage_skipped) (invalid_arguments tool.input_schema), s)
  honesty_in_round tool false true s = probe_honesty server tool s
  honesty_in_round tool false false s = (none, s)

  abbrev pub arguments_for : StandardOptions → ToolDefinition → Option Value
  arguments_for options tool =
      or_else (and_then options.arguments (λ a. supplied_for a tool.name))
        (synthesize ops pointer conforms tool.input_schema)

  abbrev pub observation :
      ToolDefinition → Option Honesty → Option Exercise → CallCounts → ToolObservation
  observation tool honesty exercise calls = record {
    name = tool.name;
    tokens = estimate_tokens tool.entry_bytes;
    class = class_of tool;
    exercise = exercise;
    catalog = facts_of tool;
    honesty = honesty;
    calls = calls;
  }

  abbrev pub is_skipped : StandardOptions → ToolDefinition → Bool
  is_skipped options tool =
      is_callable options.confirm_read_only (class_of tool) && contains tool.name options.skip_tools

  -- The round of one tool
  unfoldable pub observe_tool :
      StandardOptions → ToolDefinition → Session C W → (ToolObservation × Succeeded) × Session C W
  unfolding synthesize supplied_for probe_honesty exercise_tool class_of facts_of estimate_tokens
      invalid_arguments
  observe_tool options tool s0 =
      let skipped : Bool = is_skipped options tool in
      let (honesty, s1) =
        honesty_in_round tool skipped (is_callable options.confirm_read_only (class_of tool)) s0 in
      let ((exercise, calls, succeeded), s2) =
        exercise_of options.confirm_read_only tool skipped (class_of tool)
          (arguments_for options tool) s1 in
      ((observation tool honesty exercise calls, succeeded), s2)

  abbrev pub add_round : Rounds → ToolObservation × Succeeded → Rounds
  add_round r (tool, succeeded) = record {
    tools = r.tools ++ tool ∷ [];
    succeeded = r.succeeded ++ succeeded;
  }

  -- The rounds; the evaluation budget may end them.
  unfoldable pub observe_tools :
      StandardOptions
      → List ToolDefinition
      → Rounds
      → Session C W
      → Result Stopped Rounds × Session C W
  unfolding observe_tool
  observe_tools options [] r s = (ok r, s)
  observe_tools options (tool ∷ rest) r s =
      let (seen, s') = observe_tool options tool s in
      let more : Result Stopped Rounds × Session C W =
        observe_tools options rest (add_round r seen) s' in
      if server.exhausted s.world then (err exhausted_budget, s) else more

  abbrev pub any_skipped : List ToolObservation → Bool
  any_skipped tools = any (λ tool. is_skipped_exercise tool.exercise) tools

  abbrev pub run_if_any :
      ToolCatalog → Option StandardCase → Session C W → Option Bool × Session C W
  run_if_any catalog none s = (none, s)
  run_if_any catalog (some case) s =
      let (passed, s') = server_case server case catalog s in (some passed, s')

  -- After the rounds: the server-level cases, unless a tool was skipped, and the protocol.
  unfoldable pub observe_server :
      StandardOptions → ToolCatalog → Rounds → Session C W → Observations × Session C W
  unfolding server_case protocol_checks payload_target
  observe_server options catalog r s0 =
      let succeeded : Succeeded = if any_skipped r.tools then [] else r.succeeded in
      let (contended, s1) = run_if_any catalog (contention_target succeeded) s0 in
      let (payload, s2) = run_if_any catalog (payload_target succeeded) s1 in
      let (protocol, s3) = protocol_checks server catalog s2 in
      (
        record {
          tools = r.tools;
          attested_read_only = options.confirm_read_only;
          contention = contended;
          payload = payload;
          protocol = protocol;
        },
        s3,
      )

  abbrev pub observe_after :
      StandardOptions
      → ToolCatalog
      → Result Stopped Rounds × Session C W
      → Result Stopped Observations × Session C W
  observe_after options catalog (err e, s) = (err e, s)
  observe_after options catalog (ok r, s) =
      let (seen, s') = observe_server options catalog r s in (ok seen, s')

  -- Everything after the options were found to fit the catalog.
  unfoldable pub observe_catalog :
      StandardOptions → ToolCatalog → Session C W → Result Stopped Observations × Session C W
  unfolding observe_tools observe_server
  observe_catalog options catalog s =
      observe_after options catalog
        (observe_tools options catalog.tools (record { tools = []; succeeded = [] }) s)

  abbrev pub is_listed : List ToolDefinition → String → Bool
  is_listed tools name = any (λ tool. str_eq tool.name name) tools

  abbrev pub arguments_fit : StandardOptions → ToolCatalog → Option ToolArguments → Option Stopped
  arguments_fit options catalog none = none
  arguments_fit options catalog (some arguments) =
      elim (validate conforms arguments catalog options.confirm_read_only) [
        | ok u ↦ none
        | err e ↦ some (bad_arguments e)
      ]

  -- What is wrong with the options, for a catalog.
  unfoldable pub misfit : StandardOptions → ToolCatalog → Option Stopped
  unfolding validate
  misfit options catalog =
      or_else
        (map_some unknown_skip
          (find (λ name. not (is_listed catalog.tools name)) options.skip_tools))
        (arguments_fit options catalog options.arguments)

  -- `print` is how serde_json writes a value, `sha256` the hash.
  module _ (print : Value → String) (sha256 : List ℕ → List ℕ) where
    abbrev pub Observed : Type 0
    Observed = Result Stopped (Observations × CatalogContract) × Session C W

    -- With the contract of the catalog that was listed.
    abbrev pub with_contract : ToolCatalog → Result Stopped Observations × Session C W → Observed
    with_contract catalog (err why, s) = (err why, s)
    with_contract catalog (ok seen, s) =
        (ok (seen, catalog_contract pointer print sha256 catalog), s)

    abbrev pub observe_fitting :
        StandardOptions → ToolCatalog → Session C W → Option Stopped → Observed
    observe_fitting options catalog s (some why) = (err why, s)
    observe_fitting options catalog s none =
        with_contract catalog (observe_catalog options catalog s)

    abbrev pub observe_listed : StandardOptions → C → Result Failure ToolCatalog × W → Observed
    observe_listed options c (err e, w) =
        (err (not_listed e), record { world = w; client = some c })
    observe_listed options c (ok catalog, w) =
        observe_fitting options catalog (record { world = w; client = some c })
          (misfit options catalog)

    abbrev pub observe_connected : StandardOptions → Option C × W → Observed
    observe_connected options (none, w) = (err not_connected, record { world = w; client = none })
    observe_connected options (some c, w) =
        observe_listed options c (page_catalog encoded (server.raw_request c "tools/list") w)

    unfoldable pub observe : StandardOptions → W → Observed
    unfolding page_catalog misfit observe_catalog connect catalog_contract
    observe options w = observe_connected options (connect server w)
