-- ===== src/Lifecycle/Store.antt =====
-- The tables of src/lifecycle.rs: `SCHEMA`, `attach`, `project` and `project_result`. `evidence` is
-- lifecycle.db, `main` the query tables of index.db.
use mcp_eval.Prelude.{
  ℕ, ◌+◌, max, String, Bool, true, false, not, ◌&&◌, ◌||◌, Option, some, none, List, [], ◌∷◌, ◌++◌,
  str_eq, ltb, if◌then◌else◌, any, find, Result, ok, err, is_some, ◌==◌,
}
use mcp_eval.Prelude.Int.{ℤ}
use mcp_eval.Lifecycle.State.{Error, newer_schema, missing_table}

-- A row of `finding_lifecycle`; the first column is the primary key.
pub record Finding : Type 0 where
  pub finding_id : String
  pub server : String
  pub tool : Option String
  pub err_code : Option String
  pub err_template_id : Option String
  pub probe_id : Option String
  pub definition_id : Option String
  pub state : String
  pub consecutive_passes : ℤ
  pub updated_at : String

-- A row of `probe_history`; `id` is the primary key and `run_id` is unique where it is not NULL.
pub record HistoryRow : Type 0 where
  pub id : ℕ
  pub finding_id : String
  pub probe_id : String
  pub passed : Bool
  pub definition_id : Option String
  pub run_id : Option String
  pub ts : String

pub record Evidence : Type 0 where
  pub findings : List Finding
  pub history : List HistoryRow
  pub user_version : ℕ
  pub legacy_imported : Bool

-- The tables of index.db that lifecycle.rs names, where they exist, and whether `probe_history` has
-- the column `run_id`, which tables written before it lack.
pub record Index : Type 0 where
  pub findings : Option (List Finding)
  pub history : Option (List HistoryRow)
  pub has_run_id : Bool

pub record Db : Type 0 where
  pub evidence : Evidence
  pub index : Index

abbrev pub is_finding : String → Finding → Bool
is_finding key row = str_eq row.finding_id key

abbrev pub opt_eq : Option String → String → Bool
opt_eq none key = false
opt_eq (some s) key = str_eq s key

abbrev pub is_run : String → HistoryRow → Bool
is_run key row = opt_eq row.run_id key

-- The rowid that SQLite gives a new row of an `INTEGER PRIMARY KEY` table.
unfoldable pub next_id : List HistoryRow → ℕ
next_id [] = 1
next_id (row ∷ rows) = max (row.id + 1) (next_id rows)

-- `UPDATE … WHERE finding_id=?1`, of the one row that has the key.
unfoldable pub update_finding : String → (Finding → Finding) → List Finding → List Finding
update_finding key f [] = []
update_finding key f (row ∷ rows) =
    let rest = update_finding key f rows in if is_finding key row then f row ∷ rows else row ∷ rest

-- `CHECK(state IN ('open','fix-claimed','verifying','closed'))`
abbrev pub admits_state : String → Bool
admits_state state =
    str_eq state "open"
    || str_eq state "fix-claimed"
    || str_eq state "verifying"
    || str_eq state "closed"

-- `INSERT OR IGNORE INTO finding_lifecycle`: a row that is refused by the key or the `CHECK` is
-- skipped.
unfoldable pub insert_finding : List Finding → Finding → List Finding
insert_finding rows row =
    if any (is_finding row.finding_id) rows || not (admits_state row.state)
    then rows
    else rows ++ record row { definition_id = none } ∷ []

unfoldable pub import_findings : List Finding → List Finding → List Finding
unfolding insert_finding
import_findings rows [] = rows
import_findings rows (legacy ∷ more) = import_findings (insert_finding rows legacy) more

-- The columns `(finding_id,probe_id,passed,ts)` of the legacy rows, in the order of their ids.
unfoldable pub import_history : List HistoryRow → List HistoryRow → List HistoryRow
unfolding next_id
import_history rows [] = rows
import_history rows (legacy ∷ more) =
    import_history
      (rows ++ record legacy { id = next_id rows; definition_id = none; run_id = none } ∷ []) more

abbrev if_present {ℓ κ} : {A : Type ℓ} {B : Type κ} → Option A → B → (A → B) → B
if_present none d f = d
if_present (some a) d f = f a

unfoldable pub attach : Db → Result Error Db
unfolding import_findings import_history
attach db =
    if ltb 1 db.evidence.user_version
    then err newer_schema
    else (let ready = record db.evidence { user_version = 1 } in
        if ready.legacy_imported
        then ok (record db { evidence = ready })
        else ok (record db {
          evidence = record ready {
            findings = if_present db.index.findings ready.findings (import_findings ready.findings);
            history = if_present db.index.history ready.history (import_history ready.history);
            legacy_imported = true;
          };
        }))

unfoldable pub project : Db → Db
project db = record db {
  index = record {
    findings = some db.evidence.findings;
    history = some db.evidence.history;
    has_run_id = true;
  };
}

-- `ON CONFLICT(finding_id) DO UPDATE SET …`: the five columns that are copied.
abbrev pub overwrite : Finding → Finding → Finding
overwrite new old = record old {
  probe_id = new.probe_id;
  definition_id = new.definition_id;
  state = new.state;
  consecutive_passes = new.consecutive_passes;
  updated_at = new.updated_at;
}

unfoldable pub upsert_finding : Option Finding → List Finding → List Finding
unfolding update_finding
upsert_finding none rows = rows
upsert_finding (some new) rows =
    if any (is_finding new.finding_id) rows
    then update_finding new.finding_id (overwrite new) rows
    else rows ++ new ∷ []

abbrev pub clashes : HistoryRow → HistoryRow → Bool
clashes new old =
    (old.id == new.id) || (elim new.run_id [ none ↦ false | some run ↦ is_run run old ])

-- `INSERT OR IGNORE INTO main.probe_history SELECT …`
unfoldable pub insert_history : Option HistoryRow → List HistoryRow → List HistoryRow
insert_history none rows = rows
insert_history (some new) rows = if any (clashes new) rows then rows else rows ++ new ∷ []

project_tables :
    Db → String → String → Option (List Finding) → Option (List HistoryRow) → Result Error Db
unfolding upsert_finding insert_history
project_tables db finding run none history = err missing_table
project_tables db finding run (some findings) none = err missing_table
project_tables db finding run (some findings) (some history) = ok (record db {
  index = record db.index {
    findings = some (upsert_finding (find (is_finding finding) db.evidence.findings) findings);
    history = some (insert_history (find (is_run run) db.evidence.history) history);
  };
})

unfoldable pub project_result : Db → String → String → Result Error Db
unfolding project project_tables
project_result db finding run =
    if is_some db.index.history && db.index.has_run_id
    then project_tables db finding run db.index.findings db.index.history
    else ok (project db)
