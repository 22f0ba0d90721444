-- ===== src/Probe/Exit.antt =====
-- What the exit code of src/main.rs says about a report.
use mcp_eval.Prelude.{
  ◌≡◌, ◌↔◌, refl, Bool, true, false, not, ◌&&◌, ◌||◌, Option, none, some, List, [], ◌∷◌, all, any,
  is_none, is_some, if◌then◌else◌, All, arith,
}
use mcp_eval.Probe.FailureReason.{FailureReason}
use mcp_eval.Probe.Report.{
  CaseReport, ProbeReport, case_passed, case_errored, all_passed, below_floor, run_errored,
  exit_for_report, infrastructure_code, verdict_code,
}

passed-iff-none : (o : Option FailureReason) → (is_none o ≡ true) ↔ (o ≡ none)
passed-iff-none none = (λ _. refl, λ _. refl)
passed-iff-none (some r) = (λ h. cc, λ h. cc)

both : (a b : Bool) → (a && b) ≡ true → (a ≡ true) × (b ≡ true)
both true b h = (refl, h)
both false b h = cc

all_passed-iff-All :
    (cs : List CaseReport) → (all case_passed cs ≡ true) ↔ All (λ c. c.reason ≡ none) cs
all_passed-iff-All [] = (λ _. tt, λ _. refl)
all_passed-iff-All (c ∷ cs) =
    let head = passed-iff-none c.reason in
    let more = all_passed-iff-All cs in
    (
      λ h. let (p, q) = both (case_passed c) (all case_passed cs) h in (head.0 p, more.0 q),
      λ (p, q). rw (head.1 p, more.1 q) refl,
    )

-- A case without a reason has no transport reason.
none_errored : (cs : List CaseReport) → All (λ c. c.reason ≡ none) cs → any case_errored cs ≡ false
none_errored [] hs = refl
none_errored (c ∷ cs) (h, hs) = rw h (none_errored cs hs)

code_zero :
    (errored passed below : Bool)
    → ((if errored then infrastructure_code else if not passed || below then verdict_code else 0)
        ≡ 0)
      ↔ ((errored ≡ false) × (passed ≡ true) × (below ≡ false))
code_zero true passed below = (λ h. absurd (omega (arith, h)), λ h. cc)
code_zero false true true = (λ h. absurd (omega (arith, h)), λ h. cc)
code_zero false true false = (λ _. (refl, refl, refl), λ _. refl)
code_zero false false below = (λ h. absurd (omega (arith, h)), λ h. cc)

or_false : (a b : Bool) → (a || b) ≡ false → b ≡ false
or_false true b h = cc
or_false false b h = h

absent : (o : Option FailureReason) → (is_some o ≡ false) ↔ (o ≡ none)
absent none = (λ _. refl, λ _. refl)
absent (some r) = (λ h. cc, λ h. cc)

-- A run exits with 0 exactly when no case has a reason to fail, the standard battery finished, and
-- no declared floor was compared and missed.
pub exit_zero :
    (r : ProbeReport)
    → (exit_for_report r ≡ 0)
      ↔ (All (λ c. c.reason ≡ none) r.cases × (r.readiness_error ≡ none) × (below_floor r ≡ false))
unfolding exit_for_report run_errored all_passed
exit_zero r =
    let zero_code =
      code_zero (any case_errored r.cases || is_some r.readiness_error) (all case_passed r.cases)
        (below_floor r) in
    let cases = all_passed-iff-All r.cases in
    let error = absent r.readiness_error in
    (
      λ h.
          let (e, p, b) = zero_code.0 h in
          (
            cases.0 p,
            error.0 (or_false (any case_errored r.cases) (is_some r.readiness_error) e),
            b,
          ),
      λ (hs, e, b). zero_code.1 (rw (none_errored r.cases hs) (error.1 e), cases.1 hs, b),
    )
