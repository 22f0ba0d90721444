-- ===== src/Gate/Passed.antt =====
-- When the gate of src/readiness_gate.rs passes, and when it is evaluated.
use mcp_eval.Prelude.{
  ℕ, ◌≤◌, ◌≡◌, refl, ◌↔◌, Bool, true, Option, none, some, List, [], ◌∷◌, arith, All, map_some,
  and_then, prepend, String, is_empty,
}
use mcp_eval.Score.Area.{Area, as_str}
use mcp_eval.Score.Fold.{Readiness}
use mcp_eval.Gate.{
  Floors, Shortfall, overall, area_observed, under, area_shortfalls, shortfalls, evaluate, passed,
}

-- There is a score, and it is at least the floor.
abbrev pub IsAtLeast : ℕ → Option ℕ → Type 0
IsAtLeast floor none = ⊥
IsAtLeast floor (some n) = floor ≤ n

abbrev pub IsMet : Option ℕ → Option ℕ → Type 0
IsMet none none = ⊥
IsMet none (some n) = Unit
IsMet (some floor) o = IsAtLeast floor o

-- Every floor has a score to compare, and the score reaches it. The overall score is needed even
-- where it has no floor.
pub record Meets (floors : Floors) (r : Readiness) : Type 0 where
  pub score : IsMet floors.min_score (overall floors.exclude_latency r)
  pub areas :
      All
        (λ entry. IsAtLeast entry.1 (area_observed floors.exclude_latency r entry.0))
        floors.min_areas

prepend-under :
    (subject : String) (n floor : ℕ) (more : List Shortfall)
    → (prepend (under subject n floor) more ≡ []) ↔ ((floor ≤ n) × (more ≡ []))
prepend-under subject n floor [] = ground arith
prepend-under subject n floor (m ∷ more) = ground arith

with_shortfall :
    (subject : String) (floor : ℕ) (o : Option ℕ) (more : Option (List Shortfall))
    → (and_then o (λ n. map_some (prepend (under subject n floor)) more) ≡ some [])
      ↔ (IsAtLeast floor o × (more ≡ some []))
with_shortfall subject floor none more = grind arith
with_shortfall subject floor (some n) none = grind arith
with_shortfall subject floor (some n) (some more) =
    grind (arith, prepend-under subject n floor more)

area_shortfalls-met :
    (e : Bool) (r : Readiness) (areas : List (Area × ℕ))
    → (area_shortfalls e r areas ≡ some [])
      ↔ All (λ entry. IsAtLeast entry.1 (area_observed e r entry.0)) areas
unfolding area_shortfalls
area_shortfalls-met e r [] = (λ _. tt, λ _. refl)
area_shortfalls-met e r ((area, floor) ∷ rest) =
    let step =
      with_shortfall (as_str area) floor (area_observed e r area) (area_shortfalls e r rest) in
    let more = area_shortfalls-met e r rest in
    (λ h. let (m, s) = step.0 h in (m, more.0 s), λ (m, s). step.1 (m, more.1 s))

with_score :
    (min_score o : Option ℕ) (more : Option (List Shortfall))
    → (and_then o (λ n. map_some (prepend (and_then min_score (under "score" n))) more) ≡ some [])
      ↔ (IsMet min_score o × (more ≡ some []))
with_score none none more = grind arith
with_score none (some n) none = grind arith
with_score none (some n) (some more) = grind arith
with_score (some floor) o more = with_shortfall "score" floor o more

map_is_empty : (o : Option (List Shortfall)) → (map_some is_empty o ≡ some true) ↔ (o ≡ some [])
map_is_empty none = grind arith
map_is_empty (some []) = grind arith
map_is_empty (some (x ∷ xs)) = grind arith

-- The gate of a run with a readiness passes exactly when the overall score to compare exists and
-- reaches its floor, if it has one, and each area with a floor has a score that reaches it. The
-- overall score to compare is the one without latency where latency is excluded, and it has to exist
-- even where no overall floor is declared.
pub passed-iff-Meets :
    (floors : Floors) (r : Readiness)
    → (passed (evaluate floors (some r)) ≡ some true) ↔ Meets floors r
unfolding passed evaluate shortfalls
passed-iff-Meets floors r =
    let e = floors.exclude_latency in
    let empty = map_is_empty (shortfalls floors r) in
    let step = with_score floors.min_score (overall e r) (area_shortfalls e r floors.min_areas) in
    let areas = area_shortfalls-met e r floors.min_areas in
    (
      λ h. let (m, s) = step.0 (empty.0 h) in record { score = m; areas = areas.0 s },
      λ m. empty.1 (step.1 (m.score, areas.1 m.areas)),
    )
