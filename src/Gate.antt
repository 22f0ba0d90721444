-- ===== src/Gate.antt =====
-- Floors of src/readiness_gate.rs: a run fails when its readiness, or one area of it, is under a
-- declared minimum. `text` is not modelled.
mod Valid
mod Passed
pub mod Evaluated
mod Wire
mod RoundTrip
mod Examples
use mcp_eval.Prelude.{
  ℕ, String, Bool, true, false, not, ◌&&◌, Option, none, some, List, [], ◌∷◌, ◌++◌, any, find,
  is_empty, is_none, ltb, if◌then◌else◌, Result, ok, err, ensure, ◌>>=◌, ◌>>◌, prepend, map_some,
  and_then, str_eq,
}
use mcp_eval.Json.{Value, lookup, as_u64}
use mcp_eval.Score.Area.{Area, as_str}
use mcp_eval.Score.Areas.{AreaScore}
use mcp_eval.Score.Fold.{Readiness, is_reliability}

pub record Floors : Type 0 where
  pub min_score : Option ℕ
  -- one floor per area
  pub min_areas : List (Area × ℕ)
  pub exclude_latency : Bool

pub record Shortfall : Type 0 where
  pub subject : String
  pub observed : ℕ
  pub floor : ℕ

pub record FloorGate : Type 0 where
  pub floors : Floors
  pub shortfalls : Option (List Shortfall)

-- The messages of `validate`.
pub data Invalid : Type 0 where
  latency_alone : Invalid
  declared_twice : Area → Invalid

-- The derived `==` of `Area`
abbrev pub same_area : Area → Area → Bool
same_area Area.protocol Area.protocol = true
same_area Area.catalog Area.catalog = true
same_area Area.context Area.context = true
same_area Area.error_honesty Area.error_honesty = true
same_area Area.reliability Area.reliability = true
same_area Area.coverage Area.coverage = true
same_area _ _ = false

-- `Floors::is_empty`
abbrev pub no_floors : Floors → Bool
no_floors floors = is_none floors.min_score && is_empty floors.min_areas

-- The loop of `validate`; `seen` are the floors before the current one.
unfoldable pub no_repeats : List (Area × ℕ) → List (Area × ℕ) → Result Invalid (Unit {0})
no_repeats seen [] = ok tt
no_repeats seen ((area, floor) ∷ rest) =
    let more = no_repeats (seen ++ (area, floor) ∷ []) rest in
    if any (λ s. same_area s.0 area) seen then err (declared_twice area) else more

unfoldable pub validate : Floors → Result Invalid (Unit {0})
unfolding no_repeats
validate floors =
    ensure (not (floors.exclude_latency && no_floors floors)) latency_alone
    >> no_repeats [] floors.min_areas

-- `overall` in `shortfalls`
unfoldable pub overall : Bool → Readiness → Option ℕ
overall exclude_latency r = if exclude_latency then r.score_without_latency else some r.score

-- `observed` in `shortfalls`
unfoldable pub area_observed : Bool → Readiness → Area → Option ℕ
area_observed exclude_latency r area =
    and_then (find (λ scored. same_area scored.area area) r.areas) (λ scored.
      if exclude_latency && is_reliability area
      then and_then (lookup "score_without_latency" scored.measurements) as_u64
      else some scored.score)

abbrev pub under : String → ℕ → ℕ → Option Shortfall
under subject observed floor =
    if ltb observed floor
    then some (record { subject = subject; observed = observed; floor = floor })
    else none

-- The loop of `shortfalls` over the areas.
unfoldable pub area_shortfalls : Bool → Readiness → List (Area × ℕ) → Option (List Shortfall)
unfolding area_observed
area_shortfalls exclude_latency r [] = some []
area_shortfalls exclude_latency r ((area, floor) ∷ rest) =
    let more = area_shortfalls exclude_latency r rest in
    and_then (area_observed exclude_latency r area)
      (λ n. map_some (prepend (under (as_str area) n floor)) more)

unfoldable pub shortfalls : Floors → Readiness → Option (List Shortfall)
unfolding overall area_shortfalls
shortfalls floors r = and_then (overall floors.exclude_latency r) (λ n.
    map_some (prepend (and_then floors.min_score (under "score" n)))
      (area_shortfalls floors.exclude_latency r floors.min_areas))

unfoldable pub evaluate : Floors → Option Readiness → FloorGate
unfolding shortfalls
evaluate floors readiness = record {
  floors = floors;
  shortfalls = and_then readiness (shortfalls floors);
}

unfoldable pub passed : FloorGate → Option Bool
passed gate = map_some is_empty gate.shortfalls
