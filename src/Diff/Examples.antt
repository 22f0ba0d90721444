-- ===== src/Diff/Examples.antt =====
-- Two concrete reports of one server.
use mcp_eval.Prelude.{
  ◌≢◌, ◌+◌, ◌≡◌, ◌↔◌, refl, filter, map, not, true, false, none, some, [], ◌∷◌, any, length, ok,
  leb,
}
use mcp_eval.Probe.ProbeKind.{ProbeKind, pagination, token_cost}
use mcp_eval.Probe.ProbeKind
use mcp_eval.Probe.FailureReason.{missing_field}
use mcp_eval.Score.Rationals.{fractions}
use mcp_eval.Score.Examples.{observed}
use mcp_eval.Standard.{Observations}
use mcp_eval.Measurement.{MeasurementProfile}
use mcp_eval.Gate.Evaluated.{compared_overall}
use mcp_eval.Probe.Report.{CaseReport}
use mcp_eval.Diff.Cases.{counterpart, case_diff, verdict_of, diff_cases}
use mcp_eval.Probe.Report.{ProbeReport}
use mcp_eval.Diff.Movement.{movement_of, comparable, drop_passed}
use mcp_eval.Diff.Report.{
  diff, gated, regressed_count, fixed_count, changed_count, unchanged_count, gate_readiness_drop,
}
use mcp_eval.Diff.Matched.{
  label, is_in, counts_partition, fails_after, gated-eq-fails_after, diff_self,
}
use mcp_eval.Diff.Comparable.{IsOneScale, comparable-iff-IsOneScale}
use mcp_eval.Diff.Regression.{regression_exits}
use mcp_eval.Probe.Report.{exit_for_report}
use mcp_eval.Diff.Drop.{scored, gate_of, drop_of_scored}

abbrev pages : CaseReport
pages = record {
  id = "pages";
  probe = pagination;
  reason = none;
  total_tokens = none;
  latency_ms = some 12;
}

abbrev cost : CaseReport
cost = record {
  id = "cost";
  probe = token_cost;
  reason = some missing_field;
  total_tokens = some 900;
  latency_ms = none;
}

abbrev before : ProbeReport
before = record {
  cases = pages ∷ cost ∷ [];
  manifest_sha256 = none;
  readiness = none;
  readiness_error = none;
  legacy_score = some 80;
  readiness_gate = none;
}

abbrev after : ProbeReport
after = record before {
  cases = record cost { reason = none } ∷ record pages { reason = some missing_field } ∷ [];
}

-- One case is fixed and one regressed, so the diff gates.
gated_test : gated (diff before after) ≡ true
unfolding gated regressed_count diff diff_cases counterpart case_diff verdict_of ProbeKind.as_str
gated_test = refl

abbrev profile : MeasurementProfile
profile = record {
  schema = "mcpeval.measurement-profile/v1";
  evaluator_version = "0.9.0";
  platform = "linux";
  architecture = "x86_64";
  client_capabilities = "none";
  attested_read_only = false;
  skip_tools = [];
  call_timeout_ms = 30000;
  repeats = 5;
  arguments_sha256 = none;
}

counts_partition_example :
    (map (λ d. (d.id, d.probe)) (diff before after).cases
      ≡ map label (filter (is_in before.cases) after.cases))
    × ((diff before after).added
        ≡ map (λ k. k.id) (filter (λ k. not (is_in before.cases k)) after.cases))
    × ((diff before after).missing
        ≡ map (λ k. k.id) (filter (λ k. not (is_in after.cases k)) before.cases))
    × (regressed_count (diff before after)
          + fixed_count (diff before after)
          + changed_count (diff before after)
          + unchanged_count (diff before after)
        ≡ length (diff before after).cases)
    × (length (diff before after).cases + length (diff before after).added ≡ 2)
counts_partition_example = counts_partition before after

gated-eq-fails_after_example :
    gated (diff before after) ≡ any (λ k. fails_after (counterpart before.cases k) k) after.cases
gated-eq-fails_after_example = gated-eq-fails_after before after

diff_self_example :
    (unchanged_count (diff before before) ≡ 2)
    × ((diff before before).missing ≡ [])
    × ((diff before before).added ≡ [])
    × (gated (diff before before) ≡ false)
unfolding ProbeKind.as_str
diff_self_example = diff_self before ((refl, tt), (tt, tt))

comparable-iff-IsOneScale_example :
    (comparable (movement_of before after) ≡ true) ↔ IsOneScale before after
comparable-iff-IsOneScale_example = comparable-iff-IsOneScale before after

-- A run in which the contended clients failed.
abbrev worse : Observations
worse = record observed { contention = some false }

drop_of_scored_example :
    (gate_readiness_drop 3 true (
        diff
          (scored fractions profile before.cases observed)
          (scored fractions profile after.cases worse))
      ≡ ok (
        gate_of 3 true
            (compared_overall fractions true observed)
            (compared_overall fractions true worse),
        record (diff
            (scored fractions profile before.cases observed)
            (scored fractions profile after.cases worse)) {
              readiness_gate = some (
                  gate_of 3 true
                    (compared_overall fractions true observed)
                    (compared_overall fractions true worse));
            },
      ))
    × (drop_passed (
          gate_of 3 true
            (compared_overall fractions true observed)
            (compared_overall fractions true worse))
        ≡ leb
            (compared_overall fractions true observed)
            (compared_overall fractions true worse + 3))
drop_of_scored_example =
    drop_of_scored fractions profile before.cases after.cases observed worse 3 true

regression_exits_example : exit_for_report after ≢ 0
regression_exits_example = regression_exits before after gated_test
