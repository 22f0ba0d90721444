-- ===== src/Diff/Drop.antt =====
-- When src/diff.rs compares two readiness scores, and what its gate on the drop says.
use mcp_eval.Prelude.{ℕ, ◌+◌, ◌-◌, ◌≡◌, refl, arith, Bool, true, false, none, some, List, leb, ok}
use mcp_eval.Score.Floats.{Floats}
use mcp_eval.Score.Fold.{fold}
use mcp_eval.Standard.{Observations}
use mcp_eval.Measurement.{MeasurementProfile}
use mcp_eval.Gate.Evaluated.{compared_overall}
use mcp_eval.Probe.Report.{CaseReport}
use mcp_eval.Probe.Report.{ProbeReport}
use mcp_eval.Diff.Movement.{movement_of, comparable, DropGate, drop_passed, drop_scores}
use mcp_eval.Diff.Comparable.{profile_eq_self}
use mcp_eval.Diff.Report.{Diff, diff, gate_readiness_drop}

drop-le : (b c m : ℕ) → leb (b - c) m ≡ leb b (c + m)
drop-le b c m = ground arith

-- The gate that is declared on a drop from `b` to `c`.
abbrev pub gate_of : ℕ → Bool → ℕ → ℕ → DropGate
gate_of max_drop e b c = record { max_drop = max_drop; exclude_latency = e; drop = b - c }

gate_declared :
    (max_drop : ℕ) (e : Bool) (d : Diff) (b c : ℕ)
    → comparable d.readiness ≡ true
    → drop_scores e d.readiness ≡ ok (b, c)
    → gate_readiness_drop max_drop e d
      ≡ ok (gate_of max_drop e b c, record d { readiness_gate = some (gate_of max_drop e b c) })
unfolding gate_readiness_drop
gate_declared max_drop e d b c h k = rw (h, k) refl

module _ (f : Floats) where
  -- The report of a run that was scored under a profile.
  abbrev pub scored : MeasurementProfile → List CaseReport → Observations → ProbeReport
  scored p cases o = record {
    cases = cases;
    readiness = some (record (fold f o) { measurement_profile = some p });
    legacy_score = none;
    manifest_sha256 = none;
    readiness_error = none;
    readiness_gate = none;
  }

  scored-comparable :
      (p : MeasurementProfile) (xs ys : List CaseReport) (o o' : Observations)
      → comparable (movement_of (scored p xs o) (scored p ys o')) ≡ true
  unfolding fold
  scored-comparable p xs ys o o' = rw (profile_eq_self p) refl

  scored_scores :
      (p : MeasurementProfile) (xs ys : List CaseReport) (o o' : Observations) (e : Bool)
      → drop_scores e (movement_of (scored p xs o) (scored p ys o'))
        ≡ ok (compared_overall f e o, compared_overall f e o')
  unfolding fold
  scored_scores p xs ys o o' true = refl
  scored_scores p xs ys o o' false = refl

  -- Two runs that were scored under one measurement profile can always be gated on the drop between
  -- them. The gate that the diff then holds has the points lost, and passes exactly when the baseline
  -- score is at most the current one plus the declared drop; where latency is excluded, both scores
  -- are the ones without latency.
  pub drop_of_scored :
      (p : MeasurementProfile) (xs ys : List CaseReport) (o o' : Observations) (m : ℕ) (e : Bool)
      → (gate_readiness_drop m e (diff (scored p xs o) (scored p ys o'))
          ≡ ok (
            gate_of m e (compared_overall f e o) (compared_overall f e o'),
            record (diff (scored p xs o) (scored p ys o')) {
              readiness_gate =
                  some (gate_of m e (compared_overall f e o) (compared_overall f e o'));
            },
          ))
        × (drop_passed (gate_of m e (compared_overall f e o) (compared_overall f e o'))
            ≡ leb (compared_overall f e o) (compared_overall f e o' + m))
  unfolding diff drop_passed
  drop_of_scored p xs ys o o' m e = (
    gate_declared m e (diff (scored p xs o) (scored p ys o')) (compared_overall f e o)
        (compared_overall f e o') (scored-comparable p xs ys o o') (scored_scores p xs ys o o' e),
    drop-le (compared_overall f e o) (compared_overall f e o') m,
  )
