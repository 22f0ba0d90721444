-- ===== src/Diff/Report.antt =====
-- `Diff`, `diff` and the gates of src/diff.rs.
use mcp_eval.Prelude.{
  ℕ, ◌-◌, String, Bool, true, false, Option, none, some, List, count_if, ltb, ensure, ◌>>=◌, ◌>>◌,
  Result, ok, str_eq,
}
use mcp_eval.Diff.Cases.{
  CaseDiff, regressed, fixed, changed, unchanged, diff_cases, diff_tokens, only_in,
}
use mcp_eval.Probe.Report.{ProbeReport}
use mcp_eval.Diff.Movement.{
  ReadinessMovement, movement_of, comparable, DropGate, DropError, not_comparable, drop_scores,
}

pub record Diff : Type 0 where
  pub cases : List CaseDiff
  pub readiness : ReadinessMovement
  pub readiness_gate : Option DropGate
  pub missing : List String
  pub added : List String
  pub total_tokens : Option (ℕ × ℕ)

unfoldable pub diff : ProbeReport → ProbeReport → Diff
unfolding diff_cases only_in diff_tokens
diff baseline current = record {
  cases = diff_cases baseline.cases current.cases;
  readiness = movement_of baseline current;
  readiness_gate = none;
  missing = only_in baseline.cases current.cases;
  added = only_in current.cases baseline.cases;
  total_tokens = diff_tokens baseline.cases none current.cases;
}

abbrev pub is_regressed : CaseDiff → Bool
is_regressed d = elim d.verdict [ regressed ↦ true | _ ↦ false ]

abbrev pub is_fixed : CaseDiff → Bool
is_fixed d = elim d.verdict [ fixed ↦ true | _ ↦ false ]

abbrev pub is_changed : CaseDiff → Bool
is_changed d = elim d.verdict [ changed ↦ true | _ ↦ false ]

abbrev pub is_unchanged : CaseDiff → Bool
is_unchanged d = elim d.verdict [ unchanged ↦ true | _ ↦ false ]

unfoldable pub regressed_count : Diff → ℕ
regressed_count d = count_if is_regressed d.cases

unfoldable pub fixed_count : Diff → ℕ
fixed_count d = count_if is_fixed d.cases

unfoldable pub changed_count : Diff → ℕ
changed_count d = count_if is_changed d.cases

unfoldable pub unchanged_count : Diff → ℕ
unchanged_count d = count_if is_unchanged d.cases

unfoldable pub gated : Diff → Bool
unfolding regressed_count
gated d = ltb 0 (regressed_count d)

-- The gate that is declared and the diff that holds it, or the error that leaves the diff as it was.
unfoldable pub gate_readiness_drop : ℕ → Bool → Diff → Result DropError (DropGate × Diff)
gate_readiness_drop max_drop exclude_latency d = do
  ensure (comparable d.readiness) not_comparable
  scores ← drop_scores exclude_latency d.readiness
  let gate : DropGate = record {
    max_drop = max_drop;
    exclude_latency = exclude_latency;
    drop = scores.0 - scores.1;
  }
  ok (gate, record d { readiness_gate = some gate })

-- `ensure_same_server` on the server labels of two documents: false is its error.
unfoldable pub same_server : Option String → Option String → Bool
same_server (some baseline) (some current) = str_eq baseline current
same_server _ _ = true
