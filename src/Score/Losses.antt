-- ===== src/Score/Losses.antt =====
-- The checks that the areas list.
use mcp_eval.Prelude.{
  ℕ, ◌<◌, String, Bool, true, false, Option, some, none, List, [], ◌∷◌, ◌++◌, arith, any, is_empty,
  if◌then◌else◌, ltb, filter_map, prepend, All, ◌==◌, Bool-cases, inl, inr,
}
use mcp_eval.Score.Area.{Area}
use mcp_eval.Score.CheckId.{CheckId, reliability_contention, reliability_payload}
use mcp_eval.Score.CheckReason.{
  CheckReason, reliability_contention_failed, reliability_payload_unhandled,
}
use mcp_eval.Score.Floats.{Floats}
use mcp_eval.Score.Curve.{Check, lost, round_score, to_list}
use mcp_eval.Score.Areas.{
  protocol, catalog, context, error_honesty, coverage, catalog_checks, judged, facts, Fact,
  protocol_loss, fact_loss, honesty_loss, coverage_loss, coverage_check, read_only_surface,
}
use mcp_eval.Score.Reliability.{
  reliability, Latency, banded, tool_round, tool_rounds, case_round, case_rounds, exercised_checks,
  schema_checks, latency_marks, idle_round, exercise_round, skipped,
}
use mcp_eval.Score.Fold.{score_area}
use mcp_eval.Standard.{
  ToolObservation, Exercise, exercised, not_exercised, Observations, Honesty, honest, dishonest,
  is_writer,
}

-- A check that is listed lost points.
abbrev pub IsLoss : Check → Type 0
IsLoss c = c.score < 100

All-++ {ℓ} : {A : Type ℓ} (P : A → Type 0) (xs ys : List A) → All P xs → All P ys → All P (xs ++ ys)
All-++ P [] ys hx hy = hy
All-++ P (x ∷ xs) ys hx hy = (hx.0, All-++ P xs ys hx.1 hy)

All-prepend {κ} :
    {B : Type κ} (P : B → Type 0) (o : Option B) (ys : List B)
    → All P (to_list o)
    → All P ys
    → All P (prepend o ys)
All-prepend P none ys ho hy = hy
All-prepend P (some y) ys ho hy = (ho.0, hy)

All-filter_map {ℓ κ} :
    {A : Type ℓ} {B : Type κ} (P : B → Type 0) (g : A → Option B) (xs : List A)
    → ((x : A) → All P (to_list (g x)))
    → All P (filter_map g xs)
All-filter_map P g [] h = tt
All-filter_map P g (x ∷ xs) h =
    All-prepend P (g x) (filter_map g xs) (h x) (All-filter_map P g xs h)

All-if :
    (b : Bool) (xs ys : List Check)
    → All IsLoss xs
    → All IsLoss ys
    → All IsLoss (if b then xs else ys)
All-if true xs ys hx hy = hx
All-if false xs ys hx hy = hy

module _ (f : Floats) where
  open f use {F64, of_u64}

  lost-IsLoss :
      (id : CheckId) (tool : Option String) (value : F64) (observed : Option ℕ)
      (reason : CheckReason)
      → All IsLoss (to_list (lost f id tool value observed reason))
  unfolding lost round_score
  lost-IsLoss id tool value observed reason = elim (Bool-cases (ltb (round_score f value) 100)) [
    | inl e ↦ rw e (unfold round_score in ground (arith, e), tt)
    | inr e ↦ rw e tt
  ]

  protocol-one : (r : CheckId × Option CheckReason) → All IsLoss (to_list (protocol_loss f r))
  protocol-one (id, none) = tt
  protocol-one (id, some reason) = lost-IsLoss _ _ _ _ _

  protocol-losses : (rs : List (CheckId × Option CheckReason)) → All IsLoss (protocol f rs).checks
  unfolding protocol
  protocol-losses rs =
      All-++ IsLoss _ _ (All-filter_map IsLoss _ rs protocol-one)
        (All-if (is_empty rs) _ _ (lost-IsLoss _ _ _ _ _) tt)

  fact-one : (t : ToolObservation) (r : Fact) → All IsLoss (to_list (fact_loss f t r))
  fact-one t r = elim (Bool-cases r.passed) [
    | inl e ↦ rw e tt
    | inr e ↦ rw e (lost-IsLoss _ _ _ _ _)
  ]

  catalog_checks-losses : (ts : List ToolObservation) → All IsLoss (catalog_checks f ts)
  unfolding catalog_checks
  catalog_checks-losses [] = tt
  catalog_checks-losses (t ∷ ts) =
      All-++ IsLoss _ _ (All-filter_map IsLoss _ (facts t) (fact-one t)) (catalog_checks-losses ts)

  catalog-losses : (ts : List ToolObservation) → All IsLoss (catalog f ts).checks
  unfolding catalog
  catalog-losses ts = All-if (is_empty ts) _ _ (lost-IsLoss _ _ _ _ _) (catalog_checks-losses ts)

  context-losses : (ts : List ToolObservation) → All IsLoss (context f ts).checks
  unfolding context
  context-losses ts = All-++ IsLoss _ _ (lost-IsLoss _ _ _ _ _) (lost-IsLoss _ _ _ _ _)

  honesty-one : (r : ToolObservation × Honesty) → All IsLoss (to_list (honesty_loss f r))
  honesty-one (t, honest) = tt
  honesty-one (t, dishonest reason) = lost-IsLoss _ _ _ _ _

  honesty-losses : (ts : List ToolObservation) → All IsLoss (error_honesty f ts).checks
  unfolding error_honesty
  honesty-losses ts =
      All-++ IsLoss _ _ (All-filter_map IsLoss _ (judged ts) honesty-one)
        (All-if (is_empty (judged ts)) _ _ (lost-IsLoss _ _ _ _ _) tt)

  coverage-exercise :
      (t : ToolObservation) (e : Option Exercise) → All IsLoss (to_list (coverage_loss f t e))
  coverage-exercise t none = tt
  coverage-exercise t (some (exercised c m o)) = lost-IsLoss _ _ _ _ _
  coverage-exercise t (some (not_exercised r)) = lost-IsLoss _ _ _ _ _

  coverage-one : (t : ToolObservation) → All IsLoss (to_list (coverage_check f t))
  coverage-one t = elim (Bool-cases (is_writer t.class)) [
    | inl e ↦ rw e tt
    | inr e ↦ elim (Bool-cases (ltb 0 t.calls.successful)) [
      | inl c ↦ rw e (rw c tt)
      | inr c ↦ rw e (rw c (coverage-exercise t t.exercise))
    ]
  ]

  coverage-losses : (ts : List ToolObservation) → All IsLoss (coverage f ts).checks
  unfolding coverage
  coverage-losses ts =
      All-++ IsLoss _ _ (All-filter_map IsLoss _ ts coverage-one)
        (All-if (read_only_surface ts == 0) _ _ (lost-IsLoss _ _ _ _ _) tt)

  schema-losses : (t : ToolObservation) (o : Option Bool) → All IsLoss (schema_checks f t o)
  schema-losses t none = tt
  schema-losses t (some b) = lost-IsLoss _ _ _ _ _

  exercised-losses :
      (latency : F64) (t : ToolObservation) (c : Bool) (o : Option Bool)
      → All IsLoss (exercised_checks f latency t c o)
  unfolding exercised_checks
  exercised-losses latency t c o = All-++ IsLoss _ _ (lost-IsLoss _ _ _ _ _) (
      All-++ IsLoss _ _ (lost-IsLoss _ _ _ _ _)
        (All-++ IsLoss _ _ (lost-IsLoss _ _ _ _ _) (schema-losses t o)))

  idle-losses : (t : ToolObservation) → All IsLoss (idle_round f t).1
  idle-losses t = elim (Bool-cases (is_writer t.class)) [
    | inl e ↦ rw e tt
    | inr e ↦ rw e (lost-IsLoss _ _ _ _ _)
  ]

  round-losses :
      (mode : Latency) (t : ToolObservation) (e : Option Exercise)
      → All IsLoss (exercise_round f mode t e).1
  round-losses mode t none = idle-losses t
  round-losses mode t (some (not_exercised r)) = idle-losses t
  round-losses mode t (some (exercised c m o)) = exercised-losses (latency_marks f mode m) t c o

  tool_round-losses : (mode : Latency) (t : ToolObservation) → All IsLoss (tool_round f mode t).1
  unfolding tool_round
  tool_round-losses mode t = elim (Bool-cases (skipped t)) [
    | inl e ↦ rw e (lost-IsLoss _ _ _ _ _)
    | inr e ↦ rw e (round-losses mode t t.exercise)
  ]

  tool_rounds-losses :
      (mode : Latency) (ts : List ToolObservation) → All IsLoss (tool_rounds f mode ts).1
  unfolding tool_rounds
  tool_rounds-losses mode [] = tt
  tool_rounds-losses mode (t ∷ ts) =
      All-++ IsLoss _ _ (tool_round-losses mode t) (tool_rounds-losses mode ts)

  case_round-losses :
      (b : Bool) (o : Option Bool) (id : CheckId) (r : CheckReason)
      → All IsLoss (case_round f b o id r).1
  unfolding case_round
  case_round-losses true o id r = lost-IsLoss _ _ _ _ _
  case_round-losses false none id r = tt
  case_round-losses false (some p) id r = lost-IsLoss _ _ _ _ _

  case_rounds-losses : (o : Observations) → All IsLoss (case_rounds f o).1
  unfolding case_rounds
  case_rounds-losses o =
      let b = any skipped o.tools in
      let c = case_round f b o.contention reliability_contention reliability_contention_failed in
      let p = case_round f b o.payload reliability_payload reliability_payload_unhandled in
      All-++ IsLoss c.1 p.1
        (case_round-losses b o.contention reliability_contention reliability_contention_failed)
        (case_round-losses b o.payload reliability_payload reliability_payload_unhandled)

  reliability-losses :
      (o : Observations) (mode : Latency) → All IsLoss (reliability f o mode).checks
  unfolding reliability
  reliability-losses o mode = All-++ IsLoss _ _ (tool_rounds-losses mode o.tools) (
      All-++ IsLoss _ _ (case_rounds-losses o)
        (All-if (is_empty (tool_rounds f mode o.tools).0) _ _ (lost-IsLoss _ _ _ _ _) tt))

  -- Every check that an area lists lost points: it earned less than 100.
  pub score_area-losses : (o : Observations) (a : Area) → All IsLoss (score_area f o a).checks
  unfolding score_area
  score_area-losses o Area.protocol = protocol-losses o.protocol
  score_area-losses o Area.catalog = catalog-losses o.tools
  score_area-losses o Area.context = context-losses o.tools
  score_area-losses o Area.error_honesty = honesty-losses o.tools
  score_area-losses o Area.reliability = reliability-losses o banded
  score_area-losses o Area.coverage = coverage-losses o.tools
