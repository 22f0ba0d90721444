-- ===== src/Score/Latency.antt =====
-- What latency can change in a score.
use mcp_eval.Prelude.{
  ℕ, ◌*◌, ◌≤◌, ◌≡◌, refl, ap, Option, some, none, List, [], ◌∷◌, arith, All, map, sum_by,
}
use mcp_eval.Score.Area.{all_areas, weight}
use mcp_eval.Score.Floats.{Floats}
use mcp_eval.Score.Curve.{latency_band}
use mcp_eval.Score.Reliability.{
  reliability, banded, full_marks, tool_round, tool_rounds, exercised_value, exercised_checks,
  exercise_round,
}
use mcp_eval.Score.Fold.{fold, weighted_score, score_with, score_area}
use mcp_eval.Score.Exact.{area-score_area}
use mcp_eval.Standard.{ToolObservation, Exercise, exercised, not_exercised, Observations}

-- A slower tool never lands in a better band, and every band lies between 0 and 100.
pub latency_band_antitone :
    (m n : ℕ) → m ≤ n → (latency_band n ≤ latency_band m) × (latency_band m ≤ 100)
unfolding latency_band
latency_band_antitone m n h = ground arith

abbrev FastExercise : Option Exercise → Type 0
FastExercise (some (exercised c m o)) = m ≤ 100
FastExercise _ = Unit

-- A tool that was not exercised, or whose median latency is in the best band.
abbrev pub IsFast : ToolObservation → Type 0
IsFast t = FastExercise t.exercise

fast_band : (m : ℕ) → m ≤ 100 → latency_band m ≡ 100
unfolding latency_band
fast_band m h = ground arith

module _ (f : Floats) where
  exercise_round-fast :
      (t : ToolObservation) (e : Option Exercise)
      → FastExercise e
      → exercise_round f banded t e ≡ exercise_round f full_marks t e
  exercise_round-fast t none h = refl
  exercise_round-fast t (some (not_exercised r)) h = refl
  exercise_round-fast t (some (exercised c m o)) h =
      ap
        (λ n. (
          exercised_value f (Floats.of_u64 f n) t.calls c o ∷ [],
          exercised_checks f (Floats.of_u64 f n) t c o,
        ))
        (fast_band m h)

  tool_rounds-fast :
      (ts : List ToolObservation)
      → All IsFast ts
      → tool_rounds f banded ts ≡ tool_rounds f full_marks ts
  unfolding tool_rounds tool_round
  tool_rounds-fast [] h = refl
  tool_rounds-fast (t ∷ ts) h = rw (exercise_round-fast t t.exercise h.0, tool_rounds-fast ts h.1)

  reliability-fast :
      (o : Observations) → All IsFast o.tools → reliability f o banded ≡ reliability f o full_marks
  unfolding reliability
  reliability-fast o h = rw (tool_rounds-fast o.tools h)

  same_points :
      (o : Observations)
      → sum_by
          (λ a. weight a.area * score_with (some (reliability f o banded).score) a)
          (map (score_area f o) all_areas)
        ≡ sum_by (λ a. weight a.area * score_with none a) (map (score_area f o) all_areas)
  unfolding all_areas score_area
  same_points o = simp (area-score_area f o)

  -- For a server whose exercised tools all have a median latency of at most 100 ms, the score without
  -- latency is the score: latency costs points only past the best band.
  pub fold-fast :
      (o : Observations)
      → All IsFast o.tools
      → (fold f o).score_without_latency ≡ some (fold f o).score
  unfolding fold weighted_score
  fold-fast o h = rw (← reliability-fast o h) (rw (same_points o))
