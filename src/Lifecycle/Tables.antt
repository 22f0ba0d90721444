-- ===== src/Lifecycle/Tables.antt =====
-- Lemmas on the tables of the lifecycle store and on the texts of a state.
use mcp_eval.Prelude.{
  ℕ, ◌<◌, ◌≤◌, String, ◌≡◌, refl, true, false, some, none, List, [], ◌∷◌, ◌++◌, arith, str_eq,
  eq_iff, eq_refl, any, find, ok,
}
use mcp_eval.Lifecycle.State.{State, opened, as_str, parse}
use mcp_eval.Lifecycle.Store.{
  Finding, HistoryRow, is_finding, is_run, next_id, update_finding, clashes,
}

-- A stored state reads back as the state that was written.
pub parse-as_str : (s : State) → parse (as_str s) ≡ ok s
unfolding parse as_str
parse-as_str opened = refl
parse-as_str _ = refl

pub str_eq_self : (s : String) → str_eq s s ≡ true
str_eq_self s = eq_refl s

pub find-update_finding :
    (key : String) (f : Finding → Finding) (rows : List Finding) (row : Finding)
    → ((r : Finding) → (f r).finding_id ≡ r.finding_id)
    → find (is_finding key) rows ≡ some row
    → find (is_finding key) (update_finding key f rows) ≡ some (f row)
unfolding update_finding
find-update_finding key f [] row keeps h = cc
find-update_finding key f (r ∷ rows) row keeps h =
    ground (arith, keeps r, find-update_finding key f rows row keeps)

pub find-is_finding :
    (key : String) (rows : List Finding) (row : Finding)
    → find (is_finding key) rows ≡ some row
    → row.finding_id ≡ key
find-is_finding key [] row h = cc
find-is_finding key (r ∷ rows) row h =
    ground (arith, eq_iff r.finding_id key, find-is_finding key rows row)

pub any-of-find :
    (key : String) (rows : List Finding) (row : Finding)
    → find (is_finding key) rows ≡ some row
    → any (is_finding key) rows ≡ true
any-of-find key [] row h = cc
any-of-find key (r ∷ rows) row h = ground (arith, any-of-find key rows row)

pub find-append_run :
    (key : String) (rows : List HistoryRow) (row : HistoryRow)
    → find (is_run key) rows ≡ none
    → is_run key row ≡ true
    → find (is_run key) (rows ++ row ∷ []) ≡ some row
find-append_run key [] row h e = ground arith
find-append_run key (r ∷ rows) row h e = ground (arith, find-append_run key rows row)

-- The upsert of a row that differs from the stored one only in the copied columns stores it.
pub update-same_key :
    (key : String) (f g : Finding → Finding) (rows : List Finding) (row : Finding)
    → find (is_finding key) rows ≡ some row
    → f row ≡ g row
    → update_finding key f rows ≡ update_finding key g rows
unfolding update_finding
update-same_key key f g [] row h e = cc
update-same_key key f g (r ∷ rows) row h e = ground (arith, update-same_key key f g rows row)

abbrev pub FreshId : ℕ → List HistoryRow → Type 0
FreshId n [] = Unit
FreshId n (row ∷ rows) = (row.id < n) × FreshId n rows

FreshId-mono : (m n : ℕ) (rows : List HistoryRow) → m ≤ n → FreshId m rows → FreshId n rows
FreshId-mono m n [] h f = tt
FreshId-mono m n (row ∷ rows) h f = (omega arith, FreshId-mono m n rows h f.1)

-- The id of a new row is above every id in the table.
pub next_id_fresh : (rows : List HistoryRow) → FreshId (next_id rows) rows
unfolding next_id
next_id_fresh [] = tt
next_id_fresh (row ∷ rows) =
    (omega arith, FreshId-mono (next_id rows) _ rows (omega arith) (next_id_fresh rows))

pub any-clashes-fresh :
    (n : ℕ) (new : HistoryRow) (run : String) (rows : List HistoryRow)
    → new.id ≡ n
    → new.run_id ≡ some run
    → FreshId n rows
    → find (is_run run) rows ≡ none
    → any (clashes new) rows ≡ false
any-clashes-fresh n new run [] i e f h = refl
any-clashes-fresh n new run (r ∷ rows) i e f h =
    ground (arith, f.0, any-clashes-fresh n new run rows i e f.1)
