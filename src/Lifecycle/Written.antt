-- ===== src/Lifecycle/Written.antt =====
-- What `record` of src/lifecycle.rs writes for a run that is not on record.
use mcp_eval.Prelude.{
  ℕ, String, ◌≡◌, ◌≢◌, refl, arith, false, Option, some, none, List, [], ◌∷◌, ◌++◌, find, eq_iff,
  ok,
}
use mcp_eval.Prelude.Int.{pos, to_ℕ}
use mcp_eval.Lifecycle.State.{State, as_str, parse, transition}
use mcp_eval.Lifecycle.Store.{Finding, HistoryRow, Db, is_finding, is_run, project, update_finding}
use mcp_eval.Lifecycle.Record.{
  Request, same_probe, assign, write_evidence, record_run, invalid_request,
}
use mcp_eval.Lifecycle.Replay.{IsAttached, next_of}
use mcp_eval.Lifecycle.Tables.{find-update_finding, FreshId, next_id_fresh}
use mcp_eval.Lifecycle.Mirror.{IsMirror, record_run-fresh}

find-update_other :
    (key other : String) (f : Finding → Finding) (rows : List Finding)
    → other ≢ key
    → ((r : Finding) → (f r).finding_id ≡ r.finding_id)
    → find (is_finding other) (update_finding key f rows) ≡ find (is_finding other) rows
unfolding update_finding
find-update_other key other f [] apart keeps = refl
find-update_other key other f (r ∷ rows) apart keeps = ground (
  arith,
  keeps r,
  apart,
  eq_iff r.finding_id key,
  eq_iff r.finding_id other,
  find-update_other key other f rows apart keeps,
)

-- The row of the request's finding with the new state and count, and the request's probe.
abbrev pub IsUpdated : Request → State → ℕ → Finding → Finding → Type 0
IsUpdated req state count old new = new ≡ record old {
  probe_id = some req.probe_id;
  definition_id = some req.definition_id;
  state = as_str state;
  consecutive_passes = pos count;
  updated_at = req.now;
}

-- The row of the run, with an id that no earlier row has.
pub record IsRunRow (req : Request) (earlier : List HistoryRow) (row : HistoryRow) : Type 0 where
  pub id : FreshId row.id earlier
  pub finding_id : row.finding_id ≡ req.finding_id
  pub probe_id : row.probe_id ≡ req.probe_id
  pub passed : row.passed ≡ req.passed
  pub definition_id : row.definition_id ≡ some req.definition_id
  pub run_id : row.run_id ≡ some req.run_id
  pub ts : row.ts ≡ req.now

-- The finding's row is updated and the others are as they were, the history has one row more, and the
-- query tables show both.
pub record IsWritten (req : Request) (row : Finding) (state : State) (count : ℕ) (old new : Db)
    : Type 0 where
  pub updated :
      (found : Finding) × (find (is_finding req.finding_id) new.evidence.findings ≡ some found)
      × IsUpdated req state count row found
  pub others :
      (key : String)
      → key ≢ req.finding_id
      → find (is_finding key) new.evidence.findings ≡ find (is_finding key) old.evidence.findings
  pub history :
      (run : HistoryRow) × (new.evidence.history ≡ old.evidence.history ++ run ∷ [])
      × IsRunRow req old.evidence.history run
  pub shown : IsMirror new

write_evidence-IsWritten :
    (req : Request) (db : Db) (row : Finding) (next : State × ℕ)
    → find (is_finding req.finding_id) db.evidence.findings ≡ some row
    → IsWritten req row next.0 next.1 db (project (write_evidence req db next))
unfolding write_evidence project
write_evidence-IsWritten req db row next found = record {
  updated = (
    assign req next row,
    find-update_finding req.finding_id (assign req next) db.evidence.findings row (λ r. refl) found,
    refl,
  );
  others = λ key apart.
      find-update_other req.finding_id key (assign req next) db.evidence.findings apart (λ r. refl);
  history = (
    _,
    refl,
    record {
      id = next_id_fresh db.evidence.history;
      finding_id = refl;
      probe_id = refl;
      passed = refl;
      definition_id = refl;
      run_id = refl;
      ts = refl;
    },
  );
  shown = record { findings_shown = refl; history_shown = refl; current_schema = refl };
}

module _ (parse_uuid : String → Option String) where
  -- Let the database have the current schema, its legacy rows imported, and query tables that show
  -- the evidence. With a valid request for a finding whose row has a readable state, a run that is not
  -- on record is always recorded. The result is the status that `transition` gives; the finding's row
  -- has that state and count and the request's probe, and the rows of other findings are unchanged; the
  -- history has one row more, which is the run with a new id; and the query tables show all this.
  pub record_run-IsWritten :
      (req : Request) (db : Db) (row : Finding) (state : State)
      → invalid_request parse_uuid req ≡ false
      → IsAttached db
      → IsMirror db
      → find (is_finding req.finding_id) db.evidence.findings ≡ some row
      → parse row.state ≡ ok state
      → find (is_run req.run_id) db.evidence.history ≡ none
      → (next : State × ℕ) × (next
          ≡ transition state (same_probe req row) (to_ℕ row.consecutive_passes) req.passed)
        × ((record_run parse_uuid req db).0
            ≡ ok (record {
              state = next.0;
              probe_id = some req.probe_id;
              consecutive_passes = next.1;
            }))
        × IsWritten req row next.0 next.1 db (record_run parse_uuid req db).1
  record_run-IsWritten req db row state valid ready m found parsed unseen = (
    next_of req row state,
    refl,
    rw (record_run-fresh parse_uuid req db row state valid ready m found parsed unseen) refl,
    rw (record_run-fresh parse_uuid req db row state valid ready m found parsed unseen)
        (write_evidence-IsWritten req db row (next_of req row state) found),
  )
