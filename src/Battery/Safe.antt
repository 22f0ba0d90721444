-- ===== src/Battery/Safe.antt =====
-- Which calls the battery of src/standard.rs makes of a server.
use mcp_eval.Prelude.{
  ℕ, ◌≡◌, refl, String, Bool, true, false, ◌&&◌, Option, none, some, map_some, List, [], ◌∷◌, All,
  All-append, Result, ok, err, if◌then◌else◌, ◌==◌,
}
use mcp_eval.Json.{Value}
use mcp_eval.Catalog.{ToolCatalog}
use mcp_eval.Contract.Compare.{contains}
use mcp_eval.Standard.{ToolDefinition, ToolClass, writer, read_only, unannotated, class_of}
use mcp_eval.Arguments.Synthesis.{NumberOps, or_else}
use mcp_eval.Battery.Server.{StandardCase, Server, Session}
use mcp_eval.Battery.Calls.{exercise_tool, repeats, no_arguments}
use mcp_eval.Battery.Observe.{
  StandardOptions, Succeeded, Rounds, Round, Stopped, exhausted_budget, is_callable,
  contention_case, payload_case, contention_target, payload_target, string_property, exercised_with,
  exercise_of, honesty_in_round, arguments_for, observe_tool, observe_tools, add_round, any_skipped,
  run_if_any, observe_server, observe_after, observe_catalog,
}
use mcp_eval.Battery.Keeps.{
  Kept, ProtocolAllowed, server_case-keeps, probe_honesty-keeps, exercise_tool-keeps,
  protocol_checks-keeps,
}

module _ (ops : NumberOps) (pointer : Value → String → Option Value)
    (conforms : Value → Value → Bool) (encoded : Value → ℕ) {C W : Type 0} (server : Server C W)
    (k : Kept server) where
  -- The cases on a tool, with any arguments
  pub record RunsOn (tool : ToolDefinition) : Type 0 where
    pub contention : (arguments : Value) → Kept.Ran k (contention_case tool arguments)
    pub payload :
        (arguments : Value) (field : String) → Kept.Ran k (payload_case tool arguments field)

  abbrev pub Grants : ToolDefinition → Type 0
  Grants tool = Kept.Called k tool.name × RunsOn tool

  abbrev Runnable : Succeeded → Type 0
  Runnable = All (λ t. RunsOn t.0)

  exercised_with-keeps :
      (tool : ToolDefinition) (arguments : Value) (s : Session C W)
      → Kept.Called k tool.name
      → RunsOn tool
      → Kept.Holds k s.world
      → Kept.Holds k (exercised_with ops pointer conforms encoded server tool arguments s).1.world
        × Runnable (exercised_with ops pointer conforms encoded server tool arguments s).0.2
  exercised_with-keeps tool arguments s a r h = (
    exercise_tool-keeps server k conforms tool arguments s a h,
    listed ((exercise_tool server conforms tool arguments s).0.1.successful == repeats),
  )
    where
      listed : (b : Bool) → Runnable (if b then (tool, arguments) ∷ [] else [])
      listed true = (r, tt)
      listed false = tt

  abbrev RoundKeeps : Round ops pointer conforms encoded server → Type 0
  RoundKeeps r = Kept.Holds k r.1.world × Runnable r.0.2

  -- A tool is exercised only if it may be called and is not skipped.
  exercise_of-keeps :
      (confirm : Bool) (tool : ToolDefinition) (skipped : Bool) (class : ToolClass)
      (arguments : Option Value) (s : Session C W)
      → (is_callable confirm class ≡ true → skipped ≡ false → Grants tool)
      → Kept.Holds k s.world
      → RoundKeeps
          (exercise_of ops pointer conforms encoded server confirm tool skipped class arguments s)
  exercise_of-keeps confirm tool skipped writer arguments s g h = (h, tt)
  exercise_of-keeps false tool skipped unannotated arguments s g h = (h, tt)
  exercise_of-keeps true tool true unannotated (some arguments) s g h = (h, tt)
  exercise_of-keeps true tool false unannotated (some arguments) s g h =
      let (a, r) = g refl refl in exercised_with-keeps tool arguments s a r h
  exercise_of-keeps true tool skipped unannotated none s g h = (h, tt)
  exercise_of-keeps confirm tool true read_only (some arguments) s g h = (h, tt)
  exercise_of-keeps confirm tool false read_only (some arguments) s g h =
      let (a, r) = g refl refl in exercised_with-keeps tool arguments s a r h
  exercise_of-keeps confirm tool skipped read_only none s g h = (h, tt)

  honesty_in_round-keeps :
      (tool : ToolDefinition) (skipped callable : Bool) (s : Session C W)
      → Kept.Asked k "ping" no_arguments
      → (callable ≡ true → skipped ≡ false → Kept.Called k tool.name)
      → Kept.Holds k s.world
      → Kept.Holds k
          (honesty_in_round ops pointer conforms encoded server tool skipped callable s).1.world
  honesty_in_round-keeps tool true callable s p g h = h
  honesty_in_round-keeps tool false true s p g h =
      probe_honesty-keeps server k tool s p (g refl refl) h
  honesty_in_round-keeps tool false false s p g h = h

  -- What a tool of the catalog grants: calls and cases on it, if it may be called and the options
  -- do not skip it.
  abbrev pub Granted : StandardOptions → ToolDefinition → Type 0
  Granted options tool =
      is_callable options.confirm_read_only (class_of tool) ≡ true
      → contains tool.name options.skip_tools ≡ false
      → Grants tool

  not_skipped : (a b : Bool) → a ≡ true → (a && b) ≡ false → b ≡ false
  not_skipped true b h e = e
  not_skipped false b h e = cc

  observe_tool-keeps :
      (options : StandardOptions) (tool : ToolDefinition) (s : Session C W)
      → Kept.Asked k "ping" no_arguments
      → Granted options tool
      → Kept.Holds k s.world
      → Kept.Holds k (observe_tool ops pointer conforms encoded server options tool s).1.world
        × Runnable (observe_tool ops pointer conforms encoded server options tool s).0.1
  unfolding observe_tool
  observe_tool-keeps options tool s p g h =
      let callable = is_callable options.confirm_read_only (class_of tool) in
      let listed = contains tool.name options.skip_tools in
      let allowed : callable ≡ true → (callable && listed) ≡ false → Grants tool =
        λ c n. g c (not_skipped callable listed c n) in
      exercise_of-keeps options.confirm_read_only tool (callable && listed) (class_of tool)
        (arguments_for ops pointer conforms encoded server options tool) _ allowed
        (honesty_in_round-keeps tool (callable && listed) callable s p (λ c n. (allowed c n).0) h)

  abbrev RoundsKeep : Result Stopped Rounds × Session C W → Type 0
  RoundsKeep (ok r, s) = Kept.Holds k s.world × Runnable r.succeeded
  RoundsKeep (err e, s) = Kept.Holds k s.world

  either_keeps :
      (b : Bool) (x y : Result Stopped Rounds × Session C W)
      → RoundsKeep x
      → RoundsKeep y
      → RoundsKeep (if b then x else y)
  either_keeps true x y p q = p
  either_keeps false x y p q = q

  observe_tools-keeps :
      (options : StandardOptions) (tools : List ToolDefinition) (r : Rounds) (s : Session C W)
      → Kept.Asked k "ping" no_arguments
      → All (Granted options) tools
      → Runnable r.succeeded
      → Kept.Holds k s.world
      → RoundsKeep (observe_tools ops pointer conforms encoded server options tools r s)
  unfolding observe_tools
  observe_tools-keeps options [] r s p g u h = (h, u)
  observe_tools-keeps options (tool ∷ tools) r s p (g, gs) u h =
      let round = observe_tool ops pointer conforms encoded server options tool s in
      let (h', u') = observe_tool-keeps options tool s p g h in
      let next = add_round ops pointer conforms encoded server r round.0 in
      either_keeps (server.exhausted s.world) (err exhausted_budget, s)
        (observe_tools ops pointer conforms encoded server options tools next round.1) h
        (observe_tools-keeps options tools next round.1 p gs
          (All-append (λ (t : ToolDefinition × Value). RunsOn t.0) r.succeeded round.0.1 u u') h')

  abbrev Runs : Option StandardCase → Type 0
  Runs none = Unit
  Runs (some case) = Kept.Ran k case

  run_if_any-keeps :
      (catalog : ToolCatalog) (case : Option StandardCase) (s : Session C W)
      → Runs case
      → Kept.Holds k s.world
      → Kept.Holds k (run_if_any ops pointer conforms encoded server catalog case s).1.world
  run_if_any-keeps catalog none s r h = h
  run_if_any-keeps catalog (some case) s r h = server_case-keeps server k case catalog s r h

  contention_target-Runs : (t : Succeeded) → Runnable t → Runs (contention_target t)
  contention_target-Runs [] u = tt
  contention_target-Runs ((tool, arguments) ∷ rest) (u, us) = u.contention arguments

  payload_target-Runs : (t : Succeeded) → Runnable t → Runs (payload_target t)
  unfolding payload_target
  payload_target-Runs [] u = tt
  payload_target-Runs ((tool, arguments) ∷ rest) (u, us) =
      on (payload_target-Runs rest us) (string_property tool)
    where
      on :
          Runs (payload_target rest)
          → (o : Option String)
          → Runs (or_else (map_some (payload_case tool arguments) o) (payload_target rest))
      on later none = later
      on later (some field) = u.payload arguments field

  unless : (b : Bool) (t : Succeeded) → Runnable t → Runnable (if b then [] else t)
  unless true t u = tt
  unless false t u = u

  observe_server-keeps :
      (options : StandardOptions) (catalog : ToolCatalog) (r : Rounds) (s : Session C W)
      → ProtocolAllowed server k
      → Runnable r.succeeded
      → Kept.Holds k s.world
      → Kept.Holds k
          (observe_server ops pointer conforms encoded server options catalog r s).1.world
  unfolding observe_server
  observe_server-keeps options catalog r s p u h =
      let skipped = any_skipped ops pointer conforms encoded server r.tools in
      let succeeded : Succeeded = if skipped then [] else r.succeeded in
      let us : Runnable succeeded = unless skipped r.succeeded u in
      protocol_checks-keeps server k catalog _ p (
        run_if_any-keeps catalog (payload_target succeeded) _ (payload_target-Runs succeeded us) (
          run_if_any-keeps catalog (contention_target succeeded) s
            (contention_target-Runs succeeded us) h))

  pub observe_catalog-keeps :
      (options : StandardOptions) (catalog : ToolCatalog) (s : Session C W)
      → ProtocolAllowed server k
      → All (Granted options) catalog.tools
      → Kept.Holds k s.world
      → Kept.Holds k (observe_catalog ops pointer conforms encoded server options catalog s).1.world
  unfolding observe_catalog
  observe_catalog-keeps options catalog s p g h =
      after (observe_tools ops pointer conforms encoded server options catalog.tools _ s) (
        observe_tools-keeps options catalog.tools (record { tools = []; succeeded = [] }) s p.ping g
          tt h)
    where
      after :
          (r : Result Stopped Rounds × Session C W)
          → RoundsKeep r
          → Kept.Holds k
              (observe_after ops pointer conforms encoded server options catalog r).1.world
      after (ok r, s') (h', u') = observe_server-keeps options catalog r s' p u' h'
      after (err e, s') h' = h'
