-- ===== src/Lifecycle/Mirror.antt =====
-- The query tables of index.db after a recorded run: they show the durable evidence.
use mcp_eval.Prelude.{
  ℕ, String, ◌≡◌, refl, ◌∙◌, true, false, Option, some, none, List, [], ◌∷◌, ◌++◌, arith, eq_refl,
  find, ok,
}
use mcp_eval.Lifecycle.State.{State, Status, parse}
use mcp_eval.Lifecycle.Store.{
  Finding, HistoryRow, Db, is_finding, is_run, attach, project_result, project, update_finding,
  upsert_finding, insert_history, overwrite, next_id,
}
use mcp_eval.Lifecycle.Record.{
  Request, assign, history_row, write_evidence, recorded, record_in, record_run, invalid_request,
}
use mcp_eval.Lifecycle.Replay.{
  IsAttached, next_of, record_run-attached, Recorded, replay, fresh, record_in-Recorded,
  replayed-ok, record_run-ok,
}
use mcp_eval.Lifecycle.Tables.{
  find-update_finding, find-append_run, any-of-find, find-is_finding, update-same_key,
  next_id_fresh, any-clashes-fresh,
}

-- The query tables hold the rows of the evidence.
pub record IsMirror (db : Db) : Type 0 where
  pub findings_shown : db.index.findings ≡ some db.evidence.findings
  pub history_shown : db.index.history ≡ some db.evidence.history
  pub current_schema : db.index.has_run_id ≡ true

upsert-mirror :
    (key : String) (f : Finding → Finding) (rows : List Finding) (row : Finding)
    → ((r : Finding) → (f r).finding_id ≡ r.finding_id)
    → overwrite (f row) row ≡ f row
    → find (is_finding key) rows ≡ some row
    → upsert_finding (find (is_finding key) (update_finding key f rows)) rows
      ≡ update_finding key f rows
unfolding upsert_finding
upsert-mirror key f rows row keeps same found =
    let named : (f row).finding_id ≡ key = keeps row ∙ find-is_finding key rows row found in
    rw (find-update_finding key f rows row keeps found) (
      rw named (
        rw (any-of-find key rows row found)
          (update-same_key key (overwrite (f row)) f rows row found same)))

insert-mirror :
    (req : Request) (rows : List HistoryRow)
    → find (is_run req.run_id) rows ≡ none
    → insert_history (find (is_run req.run_id) (rows ++ history_row req rows ∷ [])) rows
      ≡ rows ++ history_row req rows ∷ []
unfolding insert_history
insert-mirror req rows unseen =
    rw (find-append_run req.run_id rows (history_row req rows) unseen (eq_refl req.run_id)) (
      rw (
        any-clashes-fresh (next_id rows) (history_row req rows) req.run_id rows refl refl
          (next_id_fresh rows) unseen))

pub project_result-mirror :
    (req : Request) (a : Db) (next : State × ℕ) (row : Finding)
    → find (is_finding req.finding_id) a.evidence.findings ≡ some row
    → find (is_run req.run_id) a.evidence.history ≡ none
    → IsMirror a
    → project_result (write_evidence req a next) req.finding_id req.run_id
      ≡ ok (project (write_evidence req a next))
unfolding project_result write_evidence project
project_result-mirror req a next row found unseen m =
    rw (m.findings_shown, m.history_shown, m.current_schema)
      (rw
        (upsert-mirror req.finding_id (assign req next) a.evidence.findings row (λ r. refl) refl
          found)
        (rw (insert-mirror req a.evidence.history unseen)))

pub IsMirror-project : (db : Db) → IsMirror (project db)
unfolding project
IsMirror-project db = record { findings_shown = refl; history_shown = refl; current_schema = refl }

recorded-mirror :
    (req : Request) (a b : Db) (row : Finding) (state : State) (st : Status)
    → find (is_finding req.finding_id) a.evidence.findings ≡ some row
    → find (is_run req.run_id) a.evidence.history ≡ none
    → IsMirror a
    → recorded req a row state ≡ ok (st, b)
    → b ≡ project (write_evidence req a (next_of req row state))
unfolding recorded
recorded-mirror req a b row state st found unseen m h =
    cc (project_result-mirror req a (next_of req row state) row found unseen m)

record_in-IsMirror :
    (req : Request) (a b : Db) (st : Status) → IsMirror a → Recorded req a st b → IsMirror b
record_in-IsMirror req a b st m (replay row state prior f p r h) =
    rw ((replayed-ok req a b row state prior st h).0) m
record_in-IsMirror req a b st m (fresh row state f p r h) =
    rw (recorded-mirror req a b row state st f r m h) (IsMirror-project _)

attach-IsMirror :
    (db a : Db) → IsMirror db → db.evidence.legacy_imported ≡ true → attach db ≡ ok a → IsMirror a
unfolding attach
attach-IsMirror db a m imported h = record {
  findings_shown = ground (arith, m.findings_shown);
  history_shown = ground (arith, m.history_shown);
  current_schema = ground (arith, m.current_schema);
}

module _ (parse_uuid : String → Option String) where
  -- If the legacy rows have been imported already, and the query tables show the evidence before a
  -- call that succeeds, they show it after the call, the new run included.
  pub record_run-IsMirror :
      (req : Request) (db : Db) (st : Status)
      → IsMirror db
      → db.evidence.legacy_imported ≡ true
      → (record_run parse_uuid req db).0 ≡ ok st
      → IsMirror (record_run parse_uuid req db).1
  record_run-IsMirror req db st m imported h =
      let (a, valid, attached, done) = record_run-ok parse_uuid req db st h in
      record_in-IsMirror req a _ st (attach-IsMirror db a m imported attached)
        (record_in-Recorded req a _ st done)

  -- With a valid request for a known finding in a readable state, a run that is not on record is
  -- always recorded: the result is the status that `transition` gives and the rows that say so.
  pub record_run-fresh :
      (req : Request) (db : Db) (row : Finding) (state : State)
      → invalid_request parse_uuid req ≡ false
      → IsAttached db
      → IsMirror db
      → find (is_finding req.finding_id) db.evidence.findings ≡ some row
      → parse row.state ≡ ok state
      → find (is_run req.run_id) db.evidence.history ≡ none
      → record_run parse_uuid req db ≡ (
        ok (record {
          state = (next_of req row state).0;
          probe_id = some req.probe_id;
          consecutive_passes = (next_of req row state).1;
        }),
        project (write_evidence req db (next_of req row state)),
      )
  record_run-fresh req db row state valid ready m found parsed unseen =
      rw (record_run-attached parse_uuid req db valid ready) (
        unfold record_in recorded in
        rw found (
          rw parsed (
            rw unseen
              (rw (project_result-mirror req db (next_of req row state) row found unseen m)))))
