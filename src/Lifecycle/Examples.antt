-- ===== src/Lifecycle/Examples.antt =====
-- Concrete runs of the lifecycle.
use mcp_eval.Prelude.{
  ℕ, List, length, ◌≤◌, String, ◌≡◌, ◌≢◌, refl, ◌↔◌, ◌⊎◌, true, false, Option, some, none, [], ◌∷◌,
  arith, eq_iff, ok, map,
}
use mcp_eval.Prelude.Int.{pos, to_ℕ}
use mcp_eval.Lifecycle.State.{
  State, Status, opened, fix_claimed, verifying, closed, parse, transition,
}
use mcp_eval.Lifecycle.Streak.{
  Run, after, three_greens, closed-iff-three_greens, after_failure, transition-verdict,
}
use mcp_eval.Lifecycle.Store.{Finding, Db, attach, project, project_result}
use mcp_eval.Lifecycle.Record.{
  Request, invalid_request, record_run, record_in, recorded, write_evidence, same_probe,
}
use mcp_eval.Lifecycle.Replay.{next_of, record_run_idempotent}
use mcp_eval.Lifecycle.Mirror.{IsMirror, record_run-IsMirror, record_run-fresh}
use mcp_eval.Lifecycle.Written.{IsWritten, record_run-IsWritten}
use mcp_eval.Lifecycle.Closing.{IsReady, again, closes_after_three_greens}
use mcp_eval.Lifecycle.Soundness.{IsSoundDb, record_run-IsSoundDb}
use mcp_eval.Lifecycle.Identity.{
  preimage, framed, value_bytes, preimage-injective, finding_ids_apart, finding_id,
  false_success_id, id_of, error_message, success_message,
}

abbrev green : Run
green = record { same_probe = true; passed = true }

closed-iff-three_greens_example :
    ((after (green ∷ green ∷ green ∷ [])).0 ≡ closed)
    ↔ (three_greens (green ∷ green ∷ green ∷ []) ≡ true)
closed-iff-three_greens_example = closed-iff-three_greens (green ∷ green ∷ green ∷ [])

transition-verdict_test :
    (transition closed true 3 false ≡ (after_failure closed, 0))
    × (((transition closed true 3 true).0 ≡ verifying)
        ⊎ ((transition closed true 3 true).0 ≡ closed))
    × (1 ≤ (transition closed true 3 true).1)
transition-verdict_test = transition-verdict closed true 3

-- The cases of the test in lifecycle.rs.
transition_test :
    (transition opened false 0 false ≡ (fix_claimed, 0))
    × (transition fix_claimed true 0 true ≡ (verifying, 1))
    × (transition verifying true 1 true ≡ (verifying, 2))
    × (transition verifying true 2 true ≡ (closed, 3))
    × (transition closed true 3 false ≡ (opened, 0))
    × (transition closed false 3 true ≡ (verifying, 1))
unfolding transition
transition_test = (refl, refl, refl, refl, refl, refl)

-- A parser that accepts every text, for which each ID is its own canonical form.
abbrev any_uuid : String → Option String
any_uuid s = some s

abbrev definition : String
definition = "0123456789abcdef0123456789abcdef0123456789abcdef0123456789abcdef"

abbrev request : Request
request = record {
  finding_id = "finding-1";
  probe_id = "reads";
  definition_id = definition;
  run_id = "r1";
  passed = true;
  now = "t1";
}

abbrev row : Finding
row = record {
  finding_id = "finding-1";
  server = "demo";
  tool = some "read";
  err_code = none;
  err_template_id = none;
  probe_id = none;
  definition_id = none;
  state = "open";
  consecutive_passes = pos 0;
  updated_at = "t0";
}

abbrev db : Db
db = record {
  evidence = record { findings = row ∷ []; history = []; user_version = 1; legacy_imported = true };
  index = record { findings = some (row ∷ []); history = some []; has_run_id = true };
}

valid_requests :
    (invalid_request any_uuid request ≡ false)
    × (invalid_request any_uuid (again request "r2" "t2") ≡ false)
    × (invalid_request any_uuid (again request "r3" "t3") ≡ false)
unfolding invalid_request
valid_requests = (refl, refl, refl)

mirror : IsMirror db
mirror = record { findings_shown = refl; history_shown = refl; current_schema = refl }

ready : IsReady "finding-1" db row opened
unfolding parse
ready = record { attached = (refl, refl); mirror = mirror; found = refl; parsed = refl }

closes_after_three_greens_example :
    (st : Status) × ((record_run any_uuid
        (again request "r3" "t3")
        (record_run any_uuid (again request "r2" "t2") (record_run any_uuid request db).1).1).0
      ≡ ok st)
    × (st.state ≡ closed)
closes_after_three_greens_example =
    closes_after_three_greens any_uuid request "r2" "r3" "t2" "t3" db row opened ready refl
      valid_requests.0 valid_requests.1 valid_requests.2 refl refl refl
      (λ e. ground (arith, eq_iff "r1" "r2")) (λ e. ground (arith, eq_iff "r1" "r3"))
      (λ e. ground (arith, eq_iff "r2" "r3"))

abbrev first_status : Status
first_status = record { state = verifying; probe_id = some "reads"; consecutive_passes = 1 }

first_run : (record_run any_uuid request db).0 ≡ ok first_status
unfolding record_run invalid_request attach record_in recorded write_evidence same_probe transition
    project_result parse
first_run = refl

record_run_idempotent_example :
    record_run any_uuid (record request { now = "t9" }) (record_run any_uuid request db).1
    ≡ (ok first_status, (record_run any_uuid request db).1)
record_run_idempotent_example =
    record_run_idempotent any_uuid request "t9" db first_status first_run

record_run-IsMirror_example : IsMirror (record_run any_uuid request db).1
record_run-IsMirror_example =
    record_run-IsMirror any_uuid request db first_status mirror refl first_run

record_run-fresh_test : record_run any_uuid request db ≡ (
  ok (record {
    state = (next_of request row opened).0;
    probe_id = some "reads";
    consecutive_passes = (next_of request row opened).1;
  }),
  project (write_evidence request db (next_of request row opened)),
)
unfolding parse
record_run-fresh_test =
    record_run-fresh any_uuid request db row opened valid_requests.0 (refl, refl) mirror refl refl
      refl

record_run-IsWritten_example :
    (next : State × ℕ) × (next
      ≡ transition opened (same_probe request row) (to_ℕ row.consecutive_passes) true)
    × ((record_run any_uuid request db).0
        ≡ ok (record { state = next.0; probe_id = some "reads"; consecutive_passes = next.1 }))
    × IsWritten request row next.0 next.1 db (record_run any_uuid request db).1
unfolding parse
record_run-IsWritten_example =
    record_run-IsWritten any_uuid request db row opened valid_requests.0 (refl, refl) mirror refl
      refl refl

sound : IsSoundDb db
unfolding parse
sound = record {
  rows = (
    (
      opened,
      refl,
      record {
        within = omega arith;
        closed_at = λ e. cc;
        verifying_at = λ e. cc;
        opened_at = λ e. refl;
        claimed_at = λ e. refl;
      },
    ),
    tt,
  );
  legacy = λ e. cc;
}

record_run-IsSoundDb_example : IsSoundDb (record_run any_uuid request db).1
record_run-IsSoundDb_example = record_run-IsSoundDb any_uuid request db sound

preimage-injective_example :
    map value_bytes (some "demo" ∷ none ∷ []) ≡ map value_bytes (some "demo" ∷ some "" ∷ [])
unfolding preimage framed
preimage-injective_example =
    preimage-injective [] (some "demo" ∷ none ∷ []) (some "demo" ∷ some "" ∷ []) refl (omega arith)
      (omega arith) refl

-- A hash of one byte: the length of the message.
abbrev length_hash : List ℕ → List ℕ
length_hash message = length message ∷ []

finding_ids_apart_example :
    (finding_id length_hash "demo" none none none
      ≡ id_of length_hash (error_message "demo" none none none))
    × (false_success_id length_hash "demo" none ≡ id_of length_hash (success_message "demo" none))
    × (error_message "demo" none none none ≢ success_message "demo" none)
finding_ids_apart_example =
    finding_ids_apart length_hash "demo" none none none "demo" none (omega arith)
