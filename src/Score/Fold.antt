-- ===== src/Score/Fold.antt =====
-- `Surface`, `Readiness`, `weighted_score` and `fold` of src/score.rs.
use mcp_eval.Prelude.{
  ℕ, ◌-◌, ◌*◌, String, Bool, true, false, Option, some, none, List, [], ◌∷◌, ◌++◌, count_if, length,
  if◌then◌else◌, sum_by, map,
}
use mcp_eval.Json.{Value}
use mcp_eval.Score.Area.{Area, weight, all_areas}
use mcp_eval.Score.Floats.{Floats}
use mcp_eval.Score.Curve.{round_score}
use mcp_eval.Score.Areas.{
  AreaScore, protocol, catalog, context, error_honesty, coverage, count_of, is_covered,
}
use mcp_eval.Score.Reliability.{reliability, banded, full_marks}
use mcp_eval.Measurement.{MeasurementProfile}
use mcp_eval.Standard.{ToolObservation, Observations, is_writer}

pub record Surface : Type 0 where
  pub tools : ℕ
  pub read_only : ℕ
  pub writers : ℕ
  pub exercised : ℕ

unfoldable pub surface_of : List ToolObservation → Surface
surface_of tools =
    let writers = count_if (λ t. is_writer t.class) tools in
    record {
      tools = length tools;
      read_only = length tools - writers;
      writers = writers;
      exercised = count_if is_covered tools;
    }

abbrev pub standard : String
standard = "mcpeval-standard/2"

pub record Readiness : Type 0 where
  pub standard : String
  pub score : ℕ
  pub score_without_latency : Option ℕ
  pub attested_read_only : Bool
  pub surface : Surface
  pub areas : List AreaScore
  pub measurement_profile : Option MeasurementProfile

abbrev pub is_reliability : Area → Bool
is_reliability Area.reliability = true
is_reliability _ = false

-- The score of an area, with the reliability score replaced when one is given.
abbrev pub score_with : Option ℕ → AreaScore → ℕ
score_with none a = a.score
score_with (some reliability_score) a = if is_reliability a.area then reliability_score else a.score

-- `measurements.insert(…)` on the first reliability area
unfoldable pub insert_measurement : String × Value → List AreaScore → List AreaScore
insert_measurement entry [] = []
insert_measurement entry (a ∷ rest) =
    let more = insert_measurement entry rest in
    if is_reliability a.area
    then record a { measurements = a.measurements ++ entry ∷ [] } ∷ rest
    else a ∷ more

module _ (f : Floats) where
  open f use {F64, of_u64, div}

  unfoldable pub weighted_score : List AreaScore → Option ℕ → ℕ
  unfolding round_score weight
  weighted_score areas reliability_score = round_score f (
      div (of_u64 (sum_by (λ a. weight a.area * score_with reliability_score a) areas))
        (of_u64 (sum_by (λ a. weight a.area) areas)))

  unfoldable pub score_area : Observations → Area → AreaScore
  score_area o Area.protocol = protocol f o.protocol
  score_area o Area.catalog = catalog f o.tools
  score_area o Area.context = context f o.tools
  score_area o Area.error_honesty = error_honesty f o.tools
  score_area o Area.reliability = reliability f o banded
  score_area o Area.coverage = coverage f o.tools

  unfoldable pub fold : Observations → Readiness
  unfolding all_areas score_area weighted_score insert_measurement surface_of
  fold o =
      let areas = map (score_area o) all_areas in
      let without = (reliability f o full_marks).score in
      record {
        standard = standard;
        score = weighted_score areas none;
        score_without_latency = some (weighted_score areas (some without));
        attested_read_only = o.attested_read_only;
        surface = surface_of o.tools;
        areas = insert_measurement ("score_without_latency", count_of without) areas;
        measurement_profile = none;
      }
