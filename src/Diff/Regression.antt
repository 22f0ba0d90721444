-- ===== src/Diff/Regression.antt =====
-- A regression that src/diff.rs gates on, against the exit code of the run it is found in.
use mcp_eval.Prelude.{
  ◌≡◌, ◌≢◌, refl, sym, ◌∙◌, Bool, true, false, ◌&&◌, Option, none, some, List, [], ◌∷◌, All, any,
  is_none,
}
use mcp_eval.Probe.Report.{CaseReport, ProbeReport, exit_for_report}
use mcp_eval.Probe.Exit.{exit_zero}
use mcp_eval.Diff.Cases.{counterpart}
use mcp_eval.Diff.Report.{diff, gated}
use mcp_eval.Diff.Matched.{fails_after, gated-eq-fails_after}

no_reason : (b : Bool) → (b && false) ≡ false
no_reason true = refl
no_reason false = refl

true_is_not_false : true ≢ false
true_is_not_false h = cc

passing_case : (o : Option CaseReport) (c : CaseReport) → c.reason ≡ none → fails_after o c ≡ false
passing_case none c h = refl
passing_case (some b) c h = rw h (no_reason (is_none b.reason))

none_fails :
    (baseline cs : List CaseReport)
    → All (λ c. c.reason ≡ none) cs
    → any (λ c. fails_after (counterpart baseline c) c) cs ≡ false
none_fails baseline [] hs = refl
none_fails baseline (c ∷ cs) (h, hs) =
    rw (passing_case (counterpart baseline c) c h) (none_fails baseline cs hs)

-- A run whose report has regressed against any baseline does not exit with 0: the exit code of the
-- run and the gate of the comparison never disagree on a regression.
pub regression_exits : (b c : ProbeReport) → gated (diff b c) ≡ true → exit_for_report c ≢ 0
regression_exits b c h zero_code =
    let quiet = none_fails b.cases c.cases ((exit_zero c).0 zero_code).0 in
    true_is_not_false (sym h ∙ gated-eq-fails_after b c ∙ quiet)
