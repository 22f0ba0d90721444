-- ===== src/Lifecycle/Soundness.antt =====
-- Every row of the lifecycle table keeps a readable state that fits its count.
use mcp_eval.Prelude.{
  String, ◌≡◌, refl, ap, Bool, true, false, Option, none, List, [], ◌∷◌, ◌++◌, arith, any, Result,
  ok, err, All, unwrap_or, Bool-cases, inl, inr, if◌then◌else◌,
}
use mcp_eval.Prelude.Int.{to_ℕ}
use mcp_eval.Lifecycle.State.{State, Status, Error, parse}
use mcp_eval.Lifecycle.Streak.{IsConsistent, transition-IsConsistent}
use mcp_eval.Lifecycle.Store.{
  Finding, Evidence, Db, is_finding, attach, admits_state, update_finding, import_findings,
  insert_finding,
}
use mcp_eval.Lifecycle.Record.{
  Request, assign, write_evidence, record_in, record_run, invalid_request, commit, after_attach,
}
use mcp_eval.Lifecycle.Replay.{
  next_of, Recorded, replay, fresh, record_in-Recorded, replayed-ok, recorded-ok,
}
use mcp_eval.Lifecycle.Tables.{parse-as_str}

abbrev pub IsSound : Finding → Type 0
IsSound row = (s : State) × (parse row.state ≡ ok s) × IsConsistent (s, to_ℕ row.consecutive_passes)

-- A legacy row that the table's `CHECK` admits is sound.
abbrev pub IsImportable : Finding → Type 0
IsImportable row = admits_state row.state ≡ true → IsSound row

-- The rows of the evidence are sound, and so are those that `attach` has still to import and does not
-- skip.
pub record IsSoundDb (db : Db) : Type 0 where
  pub rows : All IsSound db.evidence.findings
  pub legacy :
      db.evidence.legacy_imported ≡ false → All IsImportable (unwrap_or [] db.index.findings)

All-append : (xs ys : List Finding) → All IsSound xs → All IsSound ys → All IsSound (xs ++ ys)
All-append [] ys hx hy = hy
All-append (x ∷ xs) ys hx hy = (hx.0, All-append xs ys hx.1 hy)

insert_finding-IsSound :
    (rows : List Finding) (row : Finding)
    → All IsSound rows
    → IsImportable row
    → All IsSound (insert_finding rows row)
unfolding insert_finding
insert_finding-IsSound rows row h s = elim (Bool-cases (any (is_finding row.finding_id) rows)) [
  | inl e ↦ rw e h
  | inr e ↦ elim (Bool-cases (admits_state row.state)) [
    | inl a ↦ rw (e, a) (All-append rows (record row { definition_id = none } ∷ []) h (s a, tt))
    | inr a ↦ rw (e, a) h
  ]
]

import_findings-IsSound :
    (rows legacy : List Finding)
    → All IsSound rows
    → All IsImportable legacy
    → All IsSound (import_findings rows legacy)
unfolding import_findings
import_findings-IsSound rows [] h k = h
import_findings-IsSound rows (row ∷ more) h k =
    import_findings-IsSound (insert_finding rows row) more (insert_finding-IsSound rows row h k.0)
      k.1

update_finding-IsSound :
    (key : String) (f : Finding → Finding) (rows : List Finding)
    → ((r : Finding) → IsSound (f r))
    → All IsSound rows
    → All IsSound (update_finding key f rows)
unfolding update_finding
update_finding-IsSound key f [] new h = tt
update_finding-IsSound key f (row ∷ rows) new h = elim (Bool-cases (is_finding key row)) [
  | inl e ↦ rw e (new row, h.1)
  | inr e ↦ rw e (h.0, update_finding-IsSound key f rows new h.1)
]

-- The lifecycle rows after `attach`.
pub attach-findings :
    (db a : Db)
    → attach db ≡ ok a
    → (a.evidence.legacy_imported ≡ true)
      × (a.evidence.findings ≡ (
          if db.evidence.legacy_imported
          then db.evidence.findings
          else import_findings db.evidence.findings (unwrap_or [] db.index.findings)))
unfolding attach import_findings
attach-findings db a h = ground arith

IsSound-import :
    (b : Bool) (rows legacy : List Finding)
    → All IsSound rows
    → (b ≡ false → All IsImportable legacy)
    → All IsSound (if b then rows else import_findings rows legacy)
IsSound-import true rows legacy h k = h
IsSound-import false rows legacy h k = import_findings-IsSound rows legacy h (k refl)

attach_sound : (db a : Db) → IsSoundDb db → attach db ≡ ok a → IsSoundDb a
attach_sound db a s h =
    let (imported, rows) = attach-findings db a h in
    record {
      rows = rw rows (
          IsSound-import db.evidence.legacy_imported db.evidence.findings
            (unwrap_or [] db.index.findings) s.rows s.legacy);
      legacy = λ no_import. cc;
    }

record_in_sound :
    (req : Request) (a b : Db) (st : Status)
    → IsSoundDb a
    → a.evidence.legacy_imported ≡ true
    → Recorded req a st b
    → IsSoundDb b
unfolding write_evidence
record_in_sound req a b st s i (replay row state prior f p r h) =
    rw ((replayed-ok req a b row state prior st h).0) s
record_in_sound req a b st s i (fresh row state f p r h) =
    let (e, q) = recorded-ok req a b row state st h in
    record {
      rows = rw e (
          update_finding-IsSound req.finding_id (assign req (next_of req row state))
            a.evidence.findings
            (λ x. (
              (next_of req row state).0,
              parse-as_str _,
              transition-IsConsistent state _ _ req.passed,
            ))
            s.rows);
      legacy = λ no_import. cc (ap (λ (d : Evidence). d.legacy_imported) e);
    }

commit_sound :
    (req : Request) (a : Db) (r : Result Error (Status × Db))
    → IsSoundDb a
    → a.evidence.legacy_imported ≡ true
    → record_in req a ≡ r
    → IsSoundDb (commit a r).1
commit_sound req a (ok (st, b)) s i h =
    record_in_sound req a b st s i (record_in-Recorded req a b st h)
commit_sound req a (err e) s i h = s

after_attach_sound :
    (req : Request) (db : Db) (r : Result Error Db)
    → IsSoundDb db
    → attach db ≡ r
    → IsSoundDb (after_attach (λ a. commit a (record_in req a)) db r).1
after_attach_sound req db (ok a) s h =
    commit_sound req a (record_in req a) (attach_sound db a s h) (attach-findings db a h).0 refl
after_attach_sound req db (err e) s h = s

-- If every lifecycle row is sound, and so is every legacy row that is still to be imported and whose
-- state the table admits, a call of `record`, whether it succeeds or fails, keeps every lifecycle row
-- sound. A row is sound if its state can be read and fits its count of consecutive passes.
pub record_run-IsSoundDb :
    (parse_uuid : String → Option String) (req : Request) (db : Db)
    → IsSoundDb db
    → IsSoundDb (record_run parse_uuid req db).1
unfolding record_run
record_run-IsSoundDb parse_uuid req db s = elim (Bool-cases (invalid_request parse_uuid req)) [
  | inl e ↦ rw e s
  | inr e ↦ rw e (after_attach_sound req db (attach db) s refl)
]
