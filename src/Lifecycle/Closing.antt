-- ===== src/Lifecycle/Closing.antt =====
-- Three green runs in a row close a finding, whatever state they find it in.
use mcp_eval.Prelude.{
  ℕ, String, ◌≡◌, ◌≢◌, refl, Bool, true, false, Option, some, none, List, [], ◌∷◌, ◌++◌, arith,
  eq_refl, eq_iff, find, ok,
}
use mcp_eval.Prelude.Int.{to_ℕ}
use mcp_eval.Lifecycle.State.{State, Status, closed, parse, transition}
use mcp_eval.Lifecycle.Store.{Finding, HistoryRow, Db, is_finding, is_run, project}
use mcp_eval.Lifecycle.Record.{
  Request, same_probe, assign, history_row, write_evidence, record_run, invalid_request,
}
use mcp_eval.Lifecycle.Replay.{IsAttached, next_of}
use mcp_eval.Lifecycle.Mirror.{IsMirror, IsMirror-project, record_run-fresh}
use mcp_eval.Lifecycle.Tables.{parse-as_str, find-update_finding}

-- The store is attached and shown, and has the finding, in a state that can be read.
pub record IsReady (key : String) (db : Db) (row : Finding) (state : State) : Type 0 where
  pub attached : IsAttached db
  pub mirror : IsMirror db
  pub found : find (is_finding key) db.evidence.findings ≡ some row
  pub parsed : parse row.state ≡ ok state

abbrev pub Unseen : String → Db → Type 0
Unseen run db = find (is_run run) db.evidence.history ≡ none

abbrev pub after_run : Request → Db → Finding → State → Db
after_run req db row state = project (write_evidence req db (next_of req row state))

abbrev row_after : Request → Finding → State → Finding
row_after req row state = assign req (next_of req row state) row

find-append_other :
    (key : String) (rows : List HistoryRow) (row : HistoryRow)
    → find (is_run key) rows ≡ none
    → is_run key row ≡ false
    → find (is_run key) (rows ++ row ∷ []) ≡ none
find-append_other key [] row h e = ground arith
find-append_other key (r ∷ rows) row h e = ground (arith, find-append_other key rows row)

pub Unseen-after_run :
    (run : String) (req : Request) (db : Db) (row : Finding) (state : State)
    → req.run_id ≢ run
    → Unseen run db
    → Unseen run (after_run req db row state)
unfolding project write_evidence
Unseen-after_run run req db row state other unseen =
    find-append_other run db.evidence.history (history_row req db.evidence.history) unseen
      (ground (arith, eq_iff req.run_id run))

pub IsReady-after_run :
    (req : Request) (db : Db) (row : Finding) (state : State)
    → IsReady req.finding_id db row state
    → IsReady req.finding_id
        (after_run req db row state)
        (row_after req row state)
        (next_of req row state).0
unfolding project write_evidence
IsReady-after_run req db row state r = record {
  attached = r.attached;
  mirror = IsMirror-project (write_evidence req db (next_of req row state));
  found =
      find-update_finding req.finding_id (assign req (next_of req row state)) db.evidence.findings
        row (λ x. refl) r.found;
  parsed = parse-as_str (next_of req row state).0;
}

abbrev pub again : Request → String → String → Request
again req run now' = record req { run_id = run; now = now' }

-- Three passes in a row, the later two on the probe on record, reach `closed`.
transition_thrice :
    (s s1 s2 : State) (same : Bool) (c : ℕ)
    → (transition s2 true (transition s1 true (transition s same c true).1 true).1 true).0 ≡ closed
unfolding transition
transition_thrice s s1 s2 true c = ground arith
transition_thrice s s1 s2 _ c = ground arith

third_position :
    (req : Request) (run2 run3 now2 now3 : String) (row : Finding) (state : State)
    → req.passed ≡ true
    → (let row1 = row_after req row state in
        let s1 = (next_of req row state).0 in
        let s2 = (next_of (again req run2 now2) row1 s1).0 in
        let row2 = row_after (again req run2 now2) row1 s1 in
        (next_of (again req run3 now3) row2 s2).0)
      ≡ closed
unfolding same_probe
third_position req run2 run3 now2 now3 row state green =
    rw (eq_refl req.probe_id, eq_refl req.definition_id, green)
      (transition_thrice state _ _ (same_probe req row) (to_ℕ row.consecutive_passes))

module _ (parse_uuid : String → Option String) where
  step :
      (req : Request) (db : Db) (row : Finding) (state : State)
      → invalid_request parse_uuid req ≡ false
      → IsReady req.finding_id db row state
      → Unseen req.run_id db
      → record_run parse_uuid req db ≡ (
        ok (record {
          state = (next_of req row state).0;
          probe_id = some req.probe_id;
          consecutive_passes = (next_of req row state).1;
        }),
        after_run req db row state,
      )
  step req db row state valid r unseen =
      record_run-fresh parse_uuid req db row state valid r.attached r.mirror r.found r.parsed unseen

  -- From any store that is attached and mirrored, and any state of a known finding, three valid
  -- passing runs of one probe and definition, under three run IDs that differ from each other and
  -- are not on record, are all recorded, and the third returns the status `closed`.
  pub closes_after_three_greens :
      (req : Request) (run2 run3 now2 now3 : String) (db : Db) (row : Finding) (state : State)
      → IsReady req.finding_id db row state
      → req.passed ≡ true
      → invalid_request parse_uuid req ≡ false
      → invalid_request parse_uuid (again req run2 now2) ≡ false
      → invalid_request parse_uuid (again req run3 now3) ≡ false
      → Unseen req.run_id db
      → Unseen run2 db
      → Unseen run3 db
      → req.run_id ≢ run2
      → req.run_id ≢ run3
      → run2 ≢ run3
      → (st : Status) × ((record_run parse_uuid
            (again req run3 now3)
            (record_run parse_uuid (again req run2 now2) (record_run parse_uuid req db).1).1).0
          ≡ ok st)
        × (st.state ≡ closed)
  closes_after_three_greens req run2 run3 now2 now3 db row state r green v1 v2 v3 u1 u2 u3 ne12 ne13
        ne23 =
      let d1 = after_run req db row state in
      let row1 = row_after req row state in
      let s1 = (next_of req row state).0 in
      let req2 = again req run2 now2 in
      let r1 = IsReady-after_run req db row state r in
      let d2 = after_run req2 d1 row1 s1 in
      let row2 = row_after req2 row1 s1 in
      let s2 = (next_of req2 row1 s1).0 in
      let req3 = again req run3 now3 in
      let r2 = IsReady-after_run req2 d1 row1 s1 r1 in
      let e1 = step req db row state v1 r u1 in
      let e2 = step req2 d1 row1 s1 v2 r1 (Unseen-after_run run2 req db row state ne12 u2) in
      let e3 = step req3 d2 row2 s2 v3 r2 (
        Unseen-after_run run3 req2 d1 row1 s1 ne23
          (Unseen-after_run run3 req db row state ne13 u3)) in
      (
        record {
          state = (next_of req3 row2 s2).0;
          probe_id = some req.probe_id;
          consecutive_passes = (next_of req3 row2 s2).1;
        },
        rw e1 (rw e2 (rw e3)),
        third_position req run2 run3 now2 now3 row state green,
      )
