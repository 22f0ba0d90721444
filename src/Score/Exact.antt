-- ===== src/Score/Exact.antt =====
-- The scores of a fold as integers: the weighted mean of the areas, rounded.
use mcp_eval.Prelude.{ℕ, ◌+◌, ◌*◌, ◌/◌, ◌≤◌, ◌≡◌, refl, ap, Option, some, none, arith, sum_by, map}
use mcp_eval.Score.Area.{Area, all_areas, weight}
use mcp_eval.Score.Floats.{Floats, FloatLaws}
use mcp_eval.Score.Curve.{round_score}
use mcp_eval.Score.Areas.{protocol, catalog, context, error_honesty, coverage}
use mcp_eval.Score.Reliability.{reliability, full_marks}
use mcp_eval.Score.Fold.{fold, weighted_score, score_area, score_with}
use mcp_eval.Standard.{Observations}
use mcp_eval.Score.Bounds.{score_area-le, reliability-le}

pub area-score_area : (f : Floats) (o : Observations) (a : Area) → (score_area f o a).area ≡ a
unfolding score_area protocol catalog context error_honesty coverage reliability
area-score_area f o Area.protocol = refl
area-score_area f o _ = refl

-- The points of the six areas, each by its weight out of 100.
pub points : (Area → ℕ) → ℕ
points s =
    15 * s Area.protocol
    + 20 * s Area.catalog
    + 15 * s Area.context
    + 15 * s Area.error_honesty
    + 20 * s Area.reliability
    + 15 * s Area.coverage

module _ (f : Floats) (laws : FloatLaws f) where
  round-of_hundredths :
      (t : ℕ)
      → t ≤ 10000
      → round_score f (Floats.div f (Floats.of_u64 f t) (Floats.of_u64 f 100)) ≡ (t + 50) / 100
  unfolding round_score
  round-of_hundredths t h =
      rw (laws.round-div t 100 (omega arith) (omega arith) (omega arith), round_score)
        (rw (laws.clamp-of_u64 ((2 * t + 100) / (2 * 100)) 100 (omega arith) (omega arith))
          (rw (laws.as_u64-of_u64 ((2 * t + 100) / (2 * 100)) (omega arith)) (omega arith)))

  area_points : Observations → Option ℕ → ℕ
  area_points o r = points (λ a. score_with r (score_area f o a))

  weighted_sum :
      (o : Observations) (r : Option ℕ)
      → sum_by (λ a. weight a.area * score_with r a) (map (score_area f o) all_areas)
        ≡ area_points o r
  unfolding all_areas weight area_points points
  weighted_sum o r = simp (area-score_area f o) (omega arith)

  weights_sum :
      (o : Observations) → sum_by (λ a. weight a.area) (map (score_area f o) all_areas) ≡ 100
  unfolding all_areas weight
  weights_sum o = simp (area-score_area f o)

  -- The area scores with every latency check at full marks.
  pub score_without : Observations → Area → ℕ
  score_without o Area.reliability = (reliability f o full_marks).score
  score_without o a = (score_area f o a).score

  points_without :
      (o : Observations)
      → area_points o (some (reliability f o full_marks).score) ≡ points (score_without o)
  unfolding area_points points score_without
  points_without o = simp (area-score_area f o)

  points-le : (s : Area → ℕ) → ((a : Area) → s a ≤ 100) → points s ≤ 10000
  unfolding points
  points-le s h = omega (
    arith,
    h Area.protocol,
    h Area.catalog,
    h Area.context,
    h Area.error_honesty,
    h Area.reliability,
    h Area.coverage,
  )

  score_without-le : (o : Observations) (a : Area) → score_without o a ≤ 100
  unfolding score_without
  score_without-le o Area.reliability = reliability-le f laws o full_marks
  score_without-le o Area.protocol = score_area-le f laws o Area.protocol
  score_without-le o Area.catalog = score_area-le f laws o Area.catalog
  score_without-le o Area.context = score_area-le f laws o Area.context
  score_without-le o Area.error_honesty = score_area-le f laws o Area.error_honesty
  score_without-le o Area.coverage = score_area-le f laws o Area.coverage

  -- The score is the weighted mean of the six area scores, with the weights 15, 20, 15, 15, 20 and
  -- 15, rounded half up in exact arithmetic; so is the score without latency, with the reliability
  -- area scored with every latency check at full marks. No area drops out.
  pub fold-score :
      (o : Observations)
      → ((fold f o).score ≡ (points (λ a. (score_area f o a).score) + 50) / 100)
        × ((fold f o).score_without_latency ≡ some ((points (score_without o) + 50) / 100))
  unfolding fold weighted_score area_points
  fold-score o = (
    rw (weighted_sum o none)
        (rw (weights_sum o) (round-of_hundredths _ (points-le _ (score_area-le f laws o)))),
    ap some (
        rw (weighted_sum o (some (reliability f o full_marks).score)) (
          rw (weights_sum o)
            (rw (points_without o) (round-of_hundredths _ (points-le _ (score_without-le o)))))),
  )
