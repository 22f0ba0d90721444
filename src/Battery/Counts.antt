-- ===== src/Battery/Counts.antt =====
-- How often src/standard.rs calls a tool, and what its counts say.
use mcp_eval.Prelude.{
  ℕ, zero, suc, ◌+◌, ◌≤◌, ◌≡◌, ◌≢◌, refl, sym, subst, arith, String, Bool, true, false, Option,
  none, some, List, [], ◌∷◌, length, Bool-cases, inl, inr,
}
use mcp_eval.Json.{Value}
use mcp_eval.Standard.{
  ToolDefinition, ToolResponse, Outcome, success, tool_error, rpc_error, refused, outcome_of,
}
use mcp_eval.Battery.Server.{Server, Session, ensure_client, reconnect, connect, opened}
use mcp_eval.Battery.Tally.{
  Call, response_of, recorded, IsTally, IsCounted, Running, observe-IsTally, lost-IsTally,
}
use mcp_eval.Battery.Calls.{
  Gathered, nothing_gathered, is_refused, gather, after_response, round_on, rounds, exercise_tool,
  Exercised, repeats,
}

module _ {C W : Type 0} (server : Server C W) where
  opened_calls :
      (o : Option C) (w : W) (calls : List Call)
      → (opened (recorded server) (o, (w, calls))).1.1 ≡ calls
  opened_calls none w calls = refl
  opened_calls (some c) w calls = refl

  -- Connecting calls no tool.
  reconnect_calls :
      (w : W) (calls : List Call) → (reconnect (recorded server) (w, calls)).world.1 ≡ calls
  unfolding reconnect connect
  reconnect_calls w calls = let (o, w') = server.open_client w in opened_calls o w' calls

  ensure_client_calls :
      (w : W) (o : Option C)
      → (ensure_client (recorded server) (record { world = (w, []); client = o })).world.1 ≡ []
  unfolding ensure_client
  ensure_client_calls w none = reconnect_calls w []
  ensure_client_calls w (some c) = refl

  module _ (conforms : Value → Value → Bool) where
    abbrev IsRun : String → Exercised (recorded server) conforms → Type 0
    IsRun name r = IsCounted name r.0.0 r.0.1 r.1.world.1

    not_refused : (o : Outcome) → is_refused (recorded server) conforms o ≡ false → o ≢ refused
    not_refused success h e = cc
    not_refused tool_error h e = cc
    not_refused rpc_error h e = cc
    not_refused refused h e = cc

    was_refused : (o : Outcome) → is_refused (recorded server) conforms o ≡ true → o ≡ refused
    was_refused success h = cc
    was_refused tool_error h = cc
    was_refused rpc_error h = cc
    was_refused refused h = refl

    -- What the further rounds do with the calls so far
    abbrev Continues :
        (n : ℕ) (name : String)
        → (Gathered → Session C (W × List Call) → Exercised (recorded server) conforms)
        → Type 0
    Continues n name go_on =
        (g : Gathered) (s : Session C (W × List Call))
        → IsTally name g.calls s.world.1
        → Running n s.world.1
        → IsRun name (go_on g s)

    after_response-IsRun :
        (n : ℕ)
        (go_on : Gathered → Session C (W × List Call) → Exercised (recorded server) conforms)
        (tool : ToolDefinition) (c : C) (g : Gathered) (o : Option (ToolResponse × ℕ)) (w : W)
        (calls : List Call)
        → Continues n tool.name go_on
        → IsTally tool.name g.calls calls
        → Running (suc n) calls
        → IsRun tool.name (
            after_response
              (recorded server)
              conforms
              go_on
              tool
              c
              g
              (o, (w, (tool.name, response_of o) ∷ calls)))
    after_response-IsRun n go_on tool c g none w calls later t h =
        let lost = (tool.name, none) ∷ calls in
        subst
          (λ l.
            IsTally tool.name (record g.calls { transport_errors = g.calls.transport_errors + 1 }) l
            × (length l ≤ 3))
          (sym (reconnect_calls w lost))
          (lost-IsTally tool.name g.calls calls t, omega (arith, h.made))
    after_response-IsRun n go_on tool c g (some (response, ms)) w calls later t h =
        elim (Bool-cases (is_refused (recorded server) conforms (outcome_of response))) [
          | inl e ↦ rw e (
            observe-IsTally tool.name response refused g.calls calls
                (was_refused (outcome_of response) e) t,
            omega (arith, h.made),
          )
          | inr e ↦ rw e (
              later (gather (recorded server) conforms tool response ms g)
                (record { world = (w, (tool.name, some response) ∷ calls); client = some c })
                (observe-IsTally tool.name response (outcome_of response) g.calls calls refl t)
                (record {
                  made = omega (arith, h.made);
                  answered = (not_refused (outcome_of response) e, h.answered);
                }))
        ]

    round-IsRun :
        (n : ℕ)
        (go_on : Gathered → Session C (W × List Call) → Exercised (recorded server) conforms)
        (tool : ToolDefinition) (arguments : Value) (g : Gathered) (s : W × List Call)
        (client : Option C)
        → Continues n tool.name go_on
        → IsTally tool.name g.calls s.1
        → Running (suc n) s.1
        → IsRun tool.name (round_on (recorded server) conforms go_on tool arguments g s client)
    round-IsRun n go_on tool arguments g s none later t h = (t, omega (arith, h.made))
    round-IsRun n go_on tool arguments g (w, calls) (some c) later t h =
        let (o, w') = server.call_tool c tool.name arguments w in
        after_response-IsRun n go_on tool c g o w' calls later t h

    rounds-IsRun :
        (n : ℕ) (tool : ToolDefinition) (arguments : Value)
        → Continues n tool.name (rounds (recorded server) conforms n tool arguments)
    unfolding rounds
    rounds-IsRun zero tool arguments g s t h = (t, (omega (arith, h.made), h.answered))
    rounds-IsRun (suc n) tool arguments g s t h =
        round-IsRun n (λ g' s'. rounds (recorded server) conforms n tool arguments g' s') tool
          arguments g s.world s.client (rounds-IsRun n tool arguments) t h

    -- However the server answers, `call_tool` is used for the given tool only, and the five counts are
    -- the numbers of the calls that succeeded, that ended in a tool's error, that ended in a protocol
    -- error, that were refused, and that got no answer. A tool that counts as exercised was called
    -- exactly three times, and each call was answered and not refused. A tool that does not count was
    -- called at most three times.
    pub exercise_tool-IsCounted :
        (tool : ToolDefinition) (arguments : Value) (w : W) (client : Option C)
        → IsCounted tool.name
            (exercise_tool
              (recorded server)
              conforms
              tool
              arguments
              (record { world = (w, []); client = client })).0.0
            (exercise_tool
              (recorded server)
              conforms
              tool
              arguments
              (record { world = (w, []); client = client })).0.1
            (exercise_tool
              (recorded server)
              conforms
              tool
              arguments
              (record { world = (w, []); client = client })).1.world.1
    unfolding exercise_tool
    exercise_tool-IsCounted tool arguments w client =
        let s = ensure_client (recorded server) (record { world = (w, []); client = client }) in
        let none_yet = sym (ensure_client_calls w client) in
        rounds-IsRun repeats tool arguments nothing_gathered s
          (subst (λ l. IsTally tool.name nothing_gathered.calls l) none_yet
            (record {
              named = tt;
              successful = refl;
              tool_errors = refl;
              rpc_errors = refl;
              rejected = refl;
              transport_errors = refl;
            }))
          (subst (Running 3) none_yet (record { made = refl; answered = tt }))
