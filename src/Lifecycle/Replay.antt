-- ===== src/Lifecycle/Replay.antt =====
-- Recording the same run again: the evidence is written once.
use mcp_eval.Prelude.{
  ℕ, String, ◌≡◌, refl, sym, ap, ◌∙◌, true, false, Option, some, none, List, arith, eq_refl, find,
  Result, ok, err, >>=-ok, ◌>>=◌, context, context-ok, Option-cases, Bool-cases, inl, inr,
}
use mcp_eval.Prelude.Int.{to_ℕ}
use mcp_eval.Lifecycle.State.{State, Status, Error, unavailable, parse, transition}
use mcp_eval.Lifecycle.Store.{
  Finding, HistoryRow, Evidence, Db, is_finding, is_run, attach, project_result,
}
use mcp_eval.Lifecycle.Record.{
  Request, same_evidence, replayed, same_probe, assign, history_row, write_evidence, recorded,
  dispatch, record_in, record_run, invalid_request, commit, after_attach,
}
use mcp_eval.Lifecycle.Tables.{parse-as_str, find-update_finding, find-append_run}

abbrev pub IsAttached : Db → Type 0
IsAttached db = (db.evidence.user_version ≡ 1) × (db.evidence.legacy_imported ≡ true)

pub attach-IsAttached : (db a : Db) → attach db ≡ ok a → IsAttached a
unfolding attach
attach-IsAttached db a h = ground arith

pub attach_self : (a : Db) → IsAttached a → attach a ≡ ok a
unfolding attach
attach_self a h = ground arith

pub evidence-project_result :
    (db b : Db) (finding run : String)
    → project_result db finding run ≡ ok b
    → b.evidence ≡ db.evidence
unfolding project_result
evidence-project_result db b finding run h = ground arith

-- The position of a finding after a new run.
abbrev pub next_of : Request → Finding → State → State × ℕ
next_of req row state =
    transition state (same_probe req row) (to_ℕ row.consecutive_passes) req.passed

pub recorded-ok :
    (req : Request) (a b : Db) (row : Finding) (state : State) (st : Status)
    → recorded req a row state ≡ ok (st, b)
    → (b.evidence ≡ (write_evidence req a (next_of req row state)).evidence)
      × (st ≡ record {
        state = (next_of req row state).0;
        probe_id = some req.probe_id;
        consecutive_passes = (next_of req row state).1;
      })
unfolding recorded
recorded-ok req a b row state st h =
    let (w, e, q) = >>=-ok (project_result written req.finding_id req.run_id) finish h in
    let same : w ≡ b = cc q in
    (
      sym (ap (λ (d : Db). d.evidence) same)
          ∙ evidence-project_result written w req.finding_id req.run_id e,
      cc q,
    )
  where
    written : Db
    written = write_evidence req a (next_of req row state)

    finish : Db → Result Error (Status × Db)
    finish w = ok (
      record {
        state = (next_of req row state).0;
        probe_id = some req.probe_id;
        consecutive_passes = (next_of req row state).1;
      },
      w,
    )

-- What a successful transaction found, on either of its two paths.
pub data Recorded (req : Request) (a : Db) (st : Status) (b : Db) : Type 0 where
  replay :
      (row : Finding) (state : State) (prior : HistoryRow)
      → find (is_finding req.finding_id) a.evidence.findings ≡ some row
      → parse row.state ≡ ok state
      → find (is_run req.run_id) a.evidence.history ≡ some prior
      → replayed req a row state prior ≡ ok (st, b)
      → Recorded req a st b
  fresh :
      (row : Finding) (state : State)
      → find (is_finding req.finding_id) a.evidence.findings ≡ some row
      → parse row.state ≡ ok state
      → find (is_run req.run_id) a.evidence.history ≡ none
      → recorded req a row state ≡ ok (st, b)
      → Recorded req a st b

pub record_in-Recorded :
    (req : Request) (a b : Db) (st : Status) → record_in req a ≡ ok (st, b) → Recorded req a st b
unfolding record_in
record_in-Recorded req a b st h =
    let (row, found, h1) =
      >>=-ok (context unavailable (find (is_finding req.finding_id) a.evidence.findings)) read h in
    let (state, parsed, h2) = >>=-ok (parse row.state) (look row) h1 in
    let here =
      context-ok unavailable (find (is_finding req.finding_id) a.evidence.findings) found in
    elim (Option-cases (find (is_run req.run_id) a.evidence.history)) [
      | inl e ↦ fresh row state here parsed e (rw e at h2)
      | inr (prior, e) ↦ replay row state prior here parsed e (rw e at h2)
    ]
  where
    look : Finding → State → Result Error (Status × Db)
    look row state = dispatch req a row state (find (is_run req.run_id) a.evidence.history)

    read : Finding → Result Error (Status × Db)
    read row = parse row.state >>= look row

-- A replayed run reads the state and changes nothing.
pub replayed-ok :
    (req : Request) (a b : Db) (row : Finding) (state : State) (prior : HistoryRow) (st : Status)
    → replayed req a row state prior ≡ ok (st, b)
    → (b ≡ a)
      × (st ≡ record {
        state = state;
        probe_id = row.probe_id;
        consecutive_passes = to_ℕ row.consecutive_passes;
      })
unfolding replayed
replayed-ok req a b row state prior st h = ground arith

-- The run that was just written is on record, and matches the request that wrote it.
replay-written :
    (req : Request) (now' : String) (b : Db) (row : Finding) (state : State)
    (rows : List HistoryRow)
    → replayed (record req { now = now' }) b row state (history_row req rows)
      ≡ ok (
        record {
          state = state;
          probe_id = row.probe_id;
          consecutive_passes = to_ℕ row.consecutive_passes;
        },
        b,
      )
unfolding replayed same_evidence
replay-written req now' b row state rows =
    ground (arith, eq_refl req.finding_id, eq_refl req.probe_id, eq_refl req.definition_id)

again-fresh :
    (req : Request) (now' : String) (a b : Db) (st : Status) (row : Finding) (state : State)
    → find (is_finding req.finding_id) a.evidence.findings ≡ some row
    → find (is_run req.run_id) a.evidence.history ≡ none
    → (b.evidence ≡ (write_evidence req a (next_of req row state)).evidence)
    → (st ≡ record {
      state = (next_of req row state).0;
      probe_id = some req.probe_id;
      consecutive_passes = (next_of req row state).1;
    })
    → record_in (record req { now = now' }) b ≡ ok (st, b)
unfolding record_in write_evidence
again-fresh req now' a b st row state found unseen e q = rw foundb (
    rw (parse-as_str (next_of req row state).0) (
      rw runb (
        rw q (
          replay-written req now' b (assign req (next_of req row state) row)
            (next_of req row state).0 a.evidence.history))))
  where
    foundb :
        find (is_finding req.finding_id) b.evidence.findings
        ≡ some (assign req (next_of req row state) row)
    foundb = rw e (
        find-update_finding req.finding_id (assign req (next_of req row state)) a.evidence.findings
          row (λ r. refl) found)

    runb : find (is_run req.run_id) b.evidence.history ≡ some (history_row req a.evidence.history)
    runb = rw e (
        find-append_run req.run_id a.evidence.history (history_row req a.evidence.history) unseen
          (eq_refl req.run_id))

pub record_in-again :
    (req : Request) (now' : String) (a b : Db) (st : Status)
    → Recorded req a st b
    → record_in (record req { now = now' }) b ≡ ok (st, b)
record_in-again req now' a b st (replay row state prior f p r h) =
    let same = (replayed-ok req a b row state prior st h).0 in
    rw same (unfold record_in replayed same_evidence in rw f (rw p (rw r (rw same at h))))
record_in-again req now' a b st (fresh row state f p r h) =
    let (e, q) = recorded-ok req a b row state st h in again-fresh req now' a b st row state f r e q

pub record_in-evidence :
    (req : Request) (a b : Db) (st : Status)
    → Recorded req a st b
    → (b.evidence.user_version ≡ a.evidence.user_version)
      × (b.evidence.legacy_imported ≡ a.evidence.legacy_imported)
unfolding write_evidence
record_in-evidence req a b st (replay row state prior f p r h) =
    let (same, q) = replayed-ok req a b row state prior st h in
    (
      ap (λ (d : Db). d.evidence.user_version) same,
      ap (λ (d : Db). d.evidence.legacy_imported) same,
    )
record_in-evidence req a b st (fresh row state f p r h) =
    let (e, q) = recorded-ok req a b row state st h in
    (ap (λ (d : Evidence). d.user_version) e, ap (λ (d : Evidence). d.legacy_imported) e)

commit-ok :
    (a : Db) (r : Result Error (Status × Db)) (st : Status)
    → (commit a r).0 ≡ ok st
    → r ≡ ok (st, (commit a r).1)
commit-ok a (ok (st', b)) st h = ground arith
commit-ok a (err e) st h = cc

after_attach-ok :
    (req : Request) (db : Db) (r : Result Error Db) (st : Status)
    → (after_attach (λ a. commit a (record_in req a)) db r).0 ≡ ok st
    → (a : Db) × (r ≡ ok a)
      × (record_in req a ≡ ok (st, (after_attach (λ a. commit a (record_in req a)) db r).1))
after_attach-ok req db (ok a) st h = (a, refl, commit-ok a (record_in req a) st h)
after_attach-ok req db (err e) st h = cc

module _ (parse_uuid : String → Option String) where
  -- What a successful call did: it attached the evidence and its transaction succeeded.
  pub record_run-ok :
      (req : Request) (db : Db) (st : Status)
      → (record_run parse_uuid req db).0 ≡ ok st
      → (a : Db) × (invalid_request parse_uuid req ≡ false)
        × (attach db ≡ ok a)
        × (record_in req a ≡ ok (st, (record_run parse_uuid req db).1))
  unfolding record_run
  record_run-ok req db st h = elim (Bool-cases (invalid_request parse_uuid req)) [
    | inl e ↦ cc
    | inr e ↦
        let (a, attached, done) = after_attach-ok req db (attach db) st (rw e at h) in
        (a, e, attached, rw e done)
  ]

  pub record_run-attached :
      (req : Request) (b : Db)
      → invalid_request parse_uuid req ≡ false
      → IsAttached b
      → record_run parse_uuid req b ≡ commit b (record_in req b)
  unfolding record_run
  record_run-attached req b valid ready = rw (valid, attach_self b ready)

  -- Recording a verification run a second time, at whatever time, succeeds with the status that the
  -- first call returned, and changes neither the evidence nor the query tables.
  pub record_run_idempotent :
      (req : Request) (now' : String) (db : Db) (st : Status)
      → (record_run parse_uuid req db).0 ≡ ok st
      → record_run parse_uuid (record req { now = now' }) (record_run parse_uuid req db).1
        ≡ (ok st, (record_run parse_uuid req db).1)
  record_run_idempotent req now' db st h =
      let (a, valid, attached, done) = record_run-ok req db st h in
      let b = (record_run parse_uuid req db).1 in
      let r = record_in-Recorded req a b st done in
      let kept = record_in-evidence req a b st r in
      let ready = attach-IsAttached db a attached in
      rw
        (record_run-attached (record req { now = now' }) b (unfold invalid_request in valid)
          (ground (arith, kept, ready)))
        (rw (record_in-again req now' a b st r))
