-- ===== src/Lifecycle/Record.antt =====
-- `prepare` and `record` of src/lifecycle.rs. A transaction that fails is rolled back.
use mcp_eval.Prelude.{
  ℕ, String, Bool, true, false, not, ◌&&◌, ◌||◌, Option, some, none, List, [], ◌∷◌, ◌++◌, str_eq,
  byte_length, bytes, is_ascii_hexdigit, all, find, map_some, unwrap_or, ◌==◌, if◌then◌else◌,
  Result, ok, err, context, ensure, ◌>>=◌, ◌>>◌,
}
use mcp_eval.Prelude.Int.{pos, to_ℕ}
use mcp_eval.Privacy.{valid_identifier}
use mcp_eval.Lifecycle.State.{
  State, Status, Error, invalid_identity, unavailable, conflict, tool_mismatch, invalid_probe,
  missing_column, as_str, parse, transition,
}
use mcp_eval.Lifecycle.Store.{
  Finding, HistoryRow, Db, is_finding, is_run, opt_eq, next_id, update_finding, attach,
  project_result,
}

-- The arguments of `record`; the time is the text that is stored.
pub record Request : Type 0 where
  pub finding_id : String
  pub probe_id : String
  pub definition_id : String
  pub run_id : String
  pub passed : Bool
  pub now : String

abbrev bool_eq : Bool → Bool → Bool
bool_eq true b = b
bool_eq false b = not b

-- The four columns of the prior row against the request's.
unfoldable pub same_evidence : Request → HistoryRow → String → Bool
same_evidence req prior definition =
    str_eq prior.finding_id req.finding_id
    && str_eq prior.probe_id req.probe_id
    && str_eq definition req.definition_id
    && bool_eq prior.passed req.passed

-- The branch for a run ID that is on record.
unfoldable pub replayed : Request → Db → Finding → State → HistoryRow → Result Error (Status × Db)
replayed req db row state prior = do
  definition ← context missing_column prior.definition_id
  if same_evidence req prior definition
      then ok (
        record {
          state = state;
          probe_id = row.probe_id;
          consecutive_passes = to_ℕ row.consecutive_passes;
        },
        db,
      )
      else err conflict

unfoldable pub same_probe : Request → Finding → Bool
same_probe req row = opt_eq row.probe_id req.probe_id && opt_eq row.definition_id req.definition_id

abbrev pub assign : Request → State × ℕ → Finding → Finding
assign req (state, consecutive) row = record row {
  probe_id = some req.probe_id;
  definition_id = some req.definition_id;
  state = as_str state;
  consecutive_passes = pos consecutive;
  updated_at = req.now;
}

abbrev pub history_row : Request → List HistoryRow → HistoryRow
history_row req rows = record {
  id = next_id rows;
  finding_id = req.finding_id;
  probe_id = req.probe_id;
  passed = req.passed;
  definition_id = some req.definition_id;
  run_id = some req.run_id;
  ts = req.now;
}

-- The `UPDATE` and the `INSERT` of a new run.
unfoldable pub write_evidence : Request → Db → State × ℕ → Db
write_evidence req db next = record db {
  evidence = record db.evidence {
    findings = update_finding req.finding_id (assign req next) db.evidence.findings;
    history = db.evidence.history ++ history_row req db.evidence.history ∷ [];
  };
}

unfoldable pub recorded : Request → Db → Finding → State → Result Error (Status × Db)
recorded req db row state =
    let next = transition state (same_probe req row) (to_ℕ row.consecutive_passes) req.passed in
    do
      written ← project_result (write_evidence req db next) req.finding_id req.run_id
      ok (
        record { state = next.0; probe_id = some req.probe_id; consecutive_passes = next.1 },
        written,
      )

abbrev pub dispatch :
    Request → Db → Finding → State → Option HistoryRow → Result Error (Status × Db)
dispatch req db row state none = recorded req db row state
dispatch req db row state (some prior) = replayed req db row state prior

-- The body of the transaction.
unfoldable pub record_in : Request → Db → Result Error (Status × Db)
record_in req db = do
  row ← context unavailable (find (is_finding req.finding_id) db.evidence.findings)
  state ← parse row.state
  dispatch req db row state (find (is_run req.run_id) db.evidence.history)

abbrev pub commit : Db → Result Error (Status × Db) → Result Error Status × Db
commit attached (ok (status, db)) = (ok status, db)
commit attached (err e) = (err e, attached)

abbrev pub after_attach :
    (Db → Result Error Status × Db) → Db → Result Error Db → Result Error Status × Db
after_attach body db (ok attached) = body attached
after_attach body db (err e) = (err e, db)

-- `uuid::Uuid::parse_str(…)` followed by `to_string`.
module _ (parse_uuid : String → Option String) where
  unfoldable pub invalid_request : Request → Bool
  invalid_request req =
      not (byte_length req.definition_id == 64)
      || not (all is_ascii_hexdigit (bytes req.definition_id))
      || unwrap_or true (map_some (λ id. not (str_eq id req.run_id)) (parse_uuid req.run_id))

  unfoldable pub record_run : Request → Db → Result Error Status × Db
  record_run req db =
      if invalid_request req
      then (err invalid_identity, db)
      else after_attach (λ attached. commit attached (record_in req attached)) db (attach db)

-- The rows of `findings` joined to the lifecycle rows are given by `current`, which says whether
-- index.db has a finding of that ID.
unfoldable pub prepare : (String → Bool) → String → String → String → Db → Result Error String × Db
prepare current finding probe tool db = elim (attach db) [
  | err e ↦ (err e, db)
  | ok attached ↦ (
    do
      row ←
          context unavailable
            (find (is_finding finding) (if current finding then attached.evidence.findings else []))
      ensure (opt_eq row.tool tool) tool_mismatch
      ensure (valid_identifier probe) invalid_probe
      ok row.server,
    attached,
  )
]
