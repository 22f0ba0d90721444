-- ===== src/Score/Bounds.antt =====
-- The ranges of the scores of a fold, and the scores as integers.
use mcp_eval.Prelude.{
  ℕ, ◌≤◌, String, Bool, true, false, unwrap_or, List, [], ◌∷◌, arith, is_empty, if◌then◌else◌, map,
  All, Bool-cases, inl, inr, ◌==◌,
}
use mcp_eval.Json.{Value}
use mcp_eval.Score.Area.{Area, all_areas}
use mcp_eval.Score.Floats.{Floats, FloatLaws}
use mcp_eval.Score.Curve.{round_score}
use mcp_eval.Score.Areas.{
  AreaScore, count_of, share, protocol, catalog, context, error_honesty, coverage, judged,
  read_only_surface,
}
use mcp_eval.Score.Reliability.{reliability, Latency, banded, full_marks, tool_rounds, mean}
use mcp_eval.Score.Fold.{fold, weighted_score, score_area, insert_measurement, is_reliability}
use mcp_eval.Score.Losses.{IsLoss, score_area-losses}
use mcp_eval.Standard.{Observations}

if-le : (b : Bool) (x : ℕ) → x ≤ 100 → (if b then 0 else x) ≤ 100
if-le true x h = omega arith
if-le false x h = h

abbrev pub IsInRange : AreaScore → Type 0
IsInRange a = (a.score ≤ 100) × All IsLoss a.checks

insert_measurement-IsInRange :
    (e : String × Value) (areas : List AreaScore)
    → All IsInRange areas
    → All IsInRange (insert_measurement e areas)
unfolding insert_measurement
insert_measurement-IsInRange e [] h = tt
insert_measurement-IsInRange e (a ∷ rest) h = elim (Bool-cases (is_reliability a.area)) [
  | inl r ↦ rw r (h.0, h.1)
  | inr r ↦ rw r (h.0, insert_measurement-IsInRange e rest h.1)
]

module _ (f : Floats) (laws : FloatLaws f) where
  round_score-le : (x : Floats.F64 f) → round_score f x ≤ 100
  unfolding round_score
  round_score-le x = laws.as_u64-clamp (Floats.round f x) 100 (omega arith)

  share-le : (p n : ℕ) → share f p n ≤ 100
  unfolding share
  share-le p n = round_score-le _

  pub reliability-le : (o : Observations) (mode : Latency) → (reliability f o mode).score ≤ 100
  unfolding reliability mean
  reliability-le o mode = if-le (is_empty (tool_rounds f mode o.tools).0) _ (round_score-le _)

  pub score_area-le : (o : Observations) (a : Area) → (score_area f o a).score ≤ 100
  unfolding score_area protocol catalog context error_honesty coverage
  score_area-le o Area.protocol = if-le (is_empty o.protocol) _ (share-le _ _)
  score_area-le o Area.catalog = if-le (is_empty o.tools) _ (round_score-le _)
  score_area-le o Area.context = round_score-le _
  score_area-le o Area.error_honesty = if-le (is_empty (judged o.tools)) _ (share-le _ _)
  score_area-le o Area.reliability = reliability-le o banded
  score_area-le o Area.coverage = if-le (read_only_surface o.tools == 0) _ (share-le _ _)

  score_areas-IsInRange :
      (o : Observations) (areas : List Area) → All IsInRange (map (score_area f o) areas)
  score_areas-IsInRange o [] = tt
  score_areas-IsInRange o (a ∷ areas) =
      ((score_area-le o a, score_area-losses f o a), score_areas-IsInRange o areas)

  -- Whatever the observations, the score of a fold, its score without latency and the score of each
  -- area lie between 0 and 100, and every check that an area lists earned less than 100.
  pub fold_bounds :
      (o : Observations)
      → ((fold f o).score ≤ 100)
        × (unwrap_or 0 (fold f o).score_without_latency ≤ 100)
        × All IsInRange (fold f o).areas
  unfolding fold weighted_score
  fold_bounds o = (
    round_score-le _,
    round_score-le _,
    insert_measurement-IsInRange entry (map (score_area f o) all_areas)
        (score_areas-IsInRange o all_areas),
  )
    where
      entry : String × Value
      entry = ("score_without_latency", count_of (reliability f o full_marks).score)
