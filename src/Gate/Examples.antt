-- ===== src/Gate/Examples.antt =====
-- Floors on concrete readiness scores.
use mcp_eval.Prelude.{◌≡◌, ◌↔◌, true, false, ◌&&◌, some, none, [], ◌∷◌, arith, ok, leb, all, refl}
use mcp_eval.Score.Area.{Area, as_str}
use mcp_eval.Score.Fold.{Readiness, fold}
use mcp_eval.Score.Rationals.{fractions}
use mcp_eval.Score.Examples.{observed}
use mcp_eval.Gate.{
  Floors, evaluate, passed, validate, no_floors, shortfalls, overall, area_shortfalls,
  area_observed,
}
use mcp_eval.Gate.Wire.{to_json, from_json}
use mcp_eval.Gate.Passed.{Meets, passed-iff-Meets}
use mcp_eval.Gate.Evaluated.{compared, compared_overall, fold_passed}
use mcp_eval.Gate.RoundTrip.{evaluate_roundtrip}
use mcp_eval.Gate.Valid.{IsDistinct, validate_iff}

abbrev floors : Floors
floors = record {
  min_score = some 70;
  min_areas = (Area.reliability, 80) ∷ (Area.catalog, 60) ∷ [];
  exclude_latency = true;
}

abbrev readiness : Readiness
readiness = record {
  standard = "mcpeval-standard/2";
  score = 66;
  score_without_latency = some 72;
  attested_read_only = false;
  surface = record { tools = 2; read_only = 1; writers = 1; exercised = 1 };
  areas = record { area = Area.catalog; score = 90; checks = []; measurements = [] } ∷ [];
  measurement_profile = none;
}

-- The reliability area is missing, so the floors cannot be compared.
passed_test : passed (evaluate floors (some readiness)) ≡ none
unfolding passed evaluate shortfalls overall area_shortfalls area_observed
passed_test = refl

catalog_test :
    passed (evaluate (record floors { min_areas = (Area.catalog, 91) ∷ [] }) (some readiness))
    ≡ some false
unfolding passed evaluate shortfalls overall area_shortfalls area_observed
catalog_test = refl

passed-iff-Meets_example :
    (passed (evaluate floors (some readiness)) ≡ some true) ↔ Meets floors readiness
passed-iff-Meets_example = passed-iff-Meets floors readiness

validate_iff_test :
    (validate floors ≡ ok tt)
    ↔ ((floors.exclude_latency && no_floors floors ≡ false) × IsDistinct floors.min_areas)
validate_iff_test = validate_iff floors

fold_passed_example :
    passed (evaluate floors (some (fold fractions observed)))
    ≡ some (
        leb 70 (compared_overall fractions true observed)
        && all (λ entry. leb entry.1 (compared fractions true observed entry.0)) floors.min_areas)
fold_passed_example = fold_passed fractions observed floors

evaluate_roundtrip_example :
    from_json (to_json (evaluate floors (some readiness)))
    ≡ ok (record (evaluate floors (some readiness)) {
      floors = record floors { min_areas = (Area.catalog, 60) ∷ (Area.reliability, 80) ∷ [] };
    })
unfolding as_str
evaluate_roundtrip_example =
    evaluate_roundtrip floors (some readiness) (omega arith) (omega arith, (omega arith, tt))
