-- ===== src/Gate/Evaluated.antt =====
-- What the floors of src/readiness_gate.rs read of a readiness that src/score.rs computed.
use mcp_eval.Prelude.{
  ℕ, ◌≡◌, refl, ◌∙◌, ap, arith, String, none, leb, is_empty, and_then, unwrap_or, all, prepend,
  Bool, true, false, ◌&&◌, Option, some, List, [], ◌∷◌, if◌then◌else◌,
}
use mcp_eval.Score.Area.{Area, as_str, all_areas}
use mcp_eval.Score.Floats.{Floats}
use mcp_eval.Score.Areas.{protocol, catalog, context, error_honesty, coverage}
use mcp_eval.Score.Reliability.{reliability, full_marks, reliability_measurements}
use mcp_eval.Score.Fold.{fold, score_area, insert_measurement, is_reliability}
use mcp_eval.Standard.{Observations}
use mcp_eval.Gate.{
  Floors, Shortfall, under, overall, area_observed, area_shortfalls, shortfalls, evaluate, passed,
}

is_empty-under :
    (subject : String) (n floor : ℕ) (more : List Shortfall)
    → is_empty (prepend (under subject n floor) more) ≡ leb floor n && is_empty more
is_empty-under subject n floor more = ground arith

score_is_empty :
    (floor : Option ℕ) (n : ℕ) (more : List Shortfall)
    → is_empty (prepend (and_then floor (under "score" n)) more)
      ≡ leb (unwrap_or 0 floor) n && is_empty more
score_is_empty none n more = ground arith
score_is_empty (some floor) n more = is_empty-under "score" n floor more

module _ (f : Floats) where
  -- The score that a floor of an area is compared with.
  abbrev pub compared : Bool → Observations → Area → ℕ
  compared e o a =
      if e && is_reliability a then (reliability f o full_marks).score else (score_area f o a).score

  -- The score that the overall floor is compared with.
  abbrev pub compared_overall : Bool → Observations → ℕ
  compared_overall e o =
      if e then unwrap_or 0 (fold f o).score_without_latency else (fold f o).score

  area_observed-fold :
      (e : Bool) (o : Observations) (a : Area)
      → area_observed e (fold f o) a ≡ some (compared e o a)
  unfolding area_observed fold all_areas score_area insert_measurement protocol catalog context
      error_honesty coverage reliability reliability_measurements
  area_observed-fold true o Area.protocol = refl
  area_observed-fold true o _ = refl
  area_observed-fold false o Area.protocol = refl
  area_observed-fold false o _ = refl

  overall-fold : (e : Bool) (o : Observations) → overall e (fold f o) ≡ some (compared_overall e o)
  unfolding overall fold
  overall-fold true o = refl
  overall-fold false o = refl

  area_shortfalls-fold :
      (e : Bool) (o : Observations) (areas : List (Area × ℕ))
      → (found : List Shortfall) × (area_shortfalls e (fold f o) areas ≡ some found)
        × (is_empty found ≡ all (λ entry. leb entry.1 (compared e o entry.0)) areas)
  unfolding area_shortfalls
  area_shortfalls-fold e o [] = ([], refl, refl)
  area_shortfalls-fold e o ((area, floor) ∷ rest) =
      let (found, h, k) = area_shortfalls-fold e o rest in
      let n = compared e o area in
      (
        prepend (under (as_str area) n floor) found,
        rw (area_observed-fold e o area, h) refl,
        is_empty-under (as_str area) n floor found ∙ ap (λ b. leb floor n && b) k,
      )

  -- A readiness that `fold` computed can be held against any floors: the gate is evaluated, and
  -- passes exactly when the overall score and each named area's score reach their floors. Where
  -- latency is excluded, the overall score is the one without latency, and the reliability area's is
  -- its score with every latency check at full marks.
  pub fold_passed :
      (o : Observations) (floors : Floors)
      → passed (evaluate floors (some (fold f o)))
        ≡ some (
            leb (unwrap_or 0 floors.min_score) (compared_overall floors.exclude_latency o)
            && all
                (λ entry. leb entry.1 (compared floors.exclude_latency o entry.0))
                floors.min_areas)
  unfolding passed evaluate shortfalls
  fold_passed o floors =
      let e = floors.exclude_latency in
      let n = compared_overall e o in
      let (found, h, k) = area_shortfalls-fold e o floors.min_areas in
      rw (overall-fold e o, h)
        (ap some (
          score_is_empty floors.min_score n found
          ∙ ap (λ b. leb (unwrap_or 0 floors.min_score) n && b) k))
