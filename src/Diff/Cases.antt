-- ===== src/Diff/Cases.antt =====
-- `diff` and the counts of `Diff` of src/diff.rs, on the case reports of src/probe/report.rs.
use mcp_eval.Prelude.{
  ℕ, String, Bool, true, false, not, ◌&&◌, Option, none, some, List, [], ◌∷◌, any, filter, find,
  filter_map, if◌then◌else◌, map, map_some, str_eq,
}
use mcp_eval.Probe.Report.{CaseReport}
use mcp_eval.Probe.ProbeKind
use mcp_eval.Probe.ProbeKind.{ProbeKind, token_cost}
use mcp_eval.Probe.FailureReason
use mcp_eval.Probe.FailureReason.{FailureReason, FailureReason-discrete}

pub data Verdict : Type 0 where
  regressed fixed changed unchanged : Verdict

pub record CaseDiff : Type 0 where
  pub id : String
  pub probe : String
  pub verdict : Verdict
  pub baseline_reason : Option String
  pub current_reason : Option String
  pub total_tokens : Option (ℕ × ℕ)
  pub latency_ms : Option (ℕ × ℕ)

-- The derived `==` of `FailureReason`
abbrev pub same_reason : FailureReason → FailureReason → Bool
same_reason a b = elim (FailureReason-discrete a b) [ yes _ ↦ true | no _ ↦ false ]

abbrev is_token_cost : ProbeKind → Bool
is_token_cost token_cost = true
is_token_cost _ = false

-- Two reports of one case: the same id and the same probe label.
abbrev pub same_case : CaseReport → CaseReport → Bool
same_case a b = str_eq a.id b.id && str_eq (ProbeKind.as_str a.probe) (ProbeKind.as_str b.probe)

unfoldable pub verdict_of : Option FailureReason → Option FailureReason → Verdict
verdict_of none (some current) = regressed
verdict_of (some baseline) none = fixed
verdict_of (some baseline) (some current) =
    if not (same_reason baseline current) then changed else unchanged
verdict_of none none = unchanged

abbrev pub both_of : Option ℕ → Option ℕ → Option (ℕ × ℕ)
both_of (some b) (some c) = some (b, c)
both_of _ _ = none

-- The entry of a matched pair.
unfoldable pub case_diff : CaseReport → CaseReport → CaseDiff
unfolding verdict_of
case_diff baseline current = record {
  id = current.id;
  probe = ProbeKind.as_str current.probe;
  verdict = verdict_of baseline.reason current.reason;
  baseline_reason = map_some FailureReason.as_str baseline.reason;
  current_reason = map_some FailureReason.as_str current.reason;
  total_tokens = both_of baseline.total_tokens current.total_tokens;
  latency_ms = both_of baseline.latency_ms current.latency_ms;
}

-- The first case of the baseline that a current case is matched with.
unfoldable pub counterpart : List CaseReport → CaseReport → Option CaseReport
counterpart baseline current = find (λ b. same_case b current) baseline

-- `cases` after the loop of `diff`
unfoldable pub diff_cases : List CaseReport → List CaseReport → List CaseDiff
unfolding counterpart case_diff
diff_cases baseline current =
    filter_map (λ c. map_some (λ b. case_diff b c) (counterpart baseline c)) current

-- `total_tokens` after the loop of `diff`
unfoldable pub diff_tokens : List CaseReport → Option (ℕ × ℕ) → List CaseReport → Option (ℕ × ℕ)
unfolding counterpart
diff_tokens baseline tokens [] = tokens
diff_tokens baseline tokens (c ∷ rest) =
    diff_tokens baseline
      (elim (counterpart baseline c) [
        | none ↦ tokens
        | some b ↦ if is_token_cost c.probe then both_of b.total_tokens c.total_tokens else tokens
      ])
      rest

-- The ids of the cases of the first list that the second does not have: `missing` and `added`.
unfoldable pub only_in : List CaseReport → List CaseReport → List String
only_in these those = map (λ k. k.id) (filter (λ k. not (any (λ c. same_case c k) those)) these)
