-- ===== src/Gate/RoundTrip.antt =====
-- What `from_json` of src/readiness_gate.rs reads from what `to_json` wrote.
use mcp_eval.Prelude.{
  ℕ, ◌≤◌, ◌≡◌, refl, arith, String, Bool, true, not, ◌&&◌, Option, none, some, List, [], ◌∷◌, map,
  ltb, le→leb, All, is_none, ok, traverse, map_some, and_then, str_eq, prepend, Bool-cases, inl,
  inr,
}
use mcp_eval.Json.{
  Value, or_null, to_items, to_fields, array, elements-to_items, entries-to_fields, entries, get,
  collect_by, map-collect_by, All-collect_by,
}
use mcp_eval.Score.Area.{Area, as_str, from_label, from_label-as_str}
use mcp_eval.Score.Fold.{Readiness}
use mcp_eval.Gate.{
  Floors, Shortfall, FloorGate, under, overall, area_observed, area_shortfalls, shortfalls,
  evaluate,
}
use mcp_eval.Gate.Wire.{
  to_json, from_json, area_entry, area_floor, shortfall_json, read_shortfall, score_field, natural,
  read_shortfalls, read_min_score,
}

abbrev pub IsScore : Option ℕ → Type 0
IsScore none = Unit
IsScore (some n) = n ≤ 100

abbrev is_subject : String → Bool
is_subject subject = not (not (str_eq subject "score") && is_none (from_label subject))

abbrev IsShortfall : Shortfall → Type 0
IsShortfall s = (is_subject s.subject ≡ true) × (s.observed ≤ 100) × (s.floor ≤ 100)

area_floor-area_entry : (e : Area × ℕ) → e.1 ≤ 100 → area_floor (area_entry e) ≡ ok e
unfolding area_floor
area_floor-area_entry (area, floor) h = rw (from_label-as_str area) (rw (le→leb floor 100 h) refl)

read_areas :
    (es : List (Area × ℕ))
    → All (λ e. e.1 ≤ 100) es
    → traverse area_floor (map area_entry es) ≡ ok es
read_areas [] h = refl
read_areas (e ∷ es) h = rw (area_floor-area_entry e h.0, read_areas es h.1) refl

read_shortfall-shortfall_json :
    (s : Shortfall) → IsShortfall s → read_shortfall (shortfall_json s) ≡ ok s
unfolding read_shortfall score_field
read_shortfall-shortfall_json s (known, observed, floor) =
    rw (known, le→leb s.observed 100 observed, le→leb s.floor 100 floor) refl

read_each :
    (ss : List Shortfall)
    → All IsShortfall ss
    → traverse read_shortfall (map shortfall_json ss) ≡ ok ss
read_each [] h = refl
read_each (s ∷ ss) h = rw (read_shortfall-shortfall_json s h.0, read_each ss h.1) refl

under-IsShortfall :
    (subject : String) (n floor : ℕ) (ss : List Shortfall)
    → is_subject subject ≡ true
    → floor ≤ 100
    → All IsShortfall ss
    → All IsShortfall (prepend (under subject n floor) ss)
under-IsShortfall subject n floor ss known h hs = elim (Bool-cases (ltb n floor)) [
  | inl l ↦ rw l ((known, ground (arith, l), h), hs)
  | inr l ↦ rw l hs
]

label-is_subject : (a : Area) → is_subject (as_str a) ≡ true
label-is_subject a = rw (from_label-as_str a) (ground arith)

-- Every shortfall of the list, when there is one, can be read.
abbrev pub IsReadable : Option (List Shortfall) → Type 0
IsReadable none = Unit
IsReadable (some ss) = All IsShortfall ss

with_shortfall-IsReadable :
    (subject : String) (floor : ℕ) (o : Option ℕ) (more : Option (List Shortfall))
    → is_subject subject ≡ true
    → floor ≤ 100
    → IsReadable more
    → IsReadable (and_then o (λ n. map_some (prepend (under subject n floor)) more))
with_shortfall-IsReadable subject floor none more known h hs = tt
with_shortfall-IsReadable subject floor (some n) none known h hs = tt
with_shortfall-IsReadable subject floor (some n) (some more) known h hs =
    under-IsShortfall subject n floor more known h hs

area_shortfalls-IsReadable :
    (e : Bool) (r : Readiness) (areas : List (Area × ℕ))
    → All (λ x. x.1 ≤ 100) areas
    → IsReadable (area_shortfalls e r areas)
unfolding area_shortfalls
area_shortfalls-IsReadable e r [] hs = tt
area_shortfalls-IsReadable e r ((area, floor) ∷ rest) (h, hs) =
    with_shortfall-IsReadable (as_str area) floor (area_observed e r area)
      (area_shortfalls e r rest) (label-is_subject area) h (area_shortfalls-IsReadable e r rest hs)

shortfalls_of-IsReadable :
    (min_score o : Option ℕ) (more : Option (List Shortfall))
    → IsScore min_score
    → IsReadable more
    → IsReadable (and_then o (λ n. map_some (prepend (and_then min_score (under "score" n))) more))
shortfalls_of-IsReadable none none more h hs = tt
shortfalls_of-IsReadable none (some n) none h hs = tt
shortfalls_of-IsReadable none (some n) (some more) h hs = hs
shortfalls_of-IsReadable (some floor) o more h hs =
    with_shortfall-IsReadable "score" floor o more refl h hs

evaluate-IsReadable :
    (floors : Floors) (readiness : Option Readiness)
    → IsScore floors.min_score
    → All (λ x. x.1 ≤ 100) floors.min_areas
    → IsReadable (evaluate floors readiness).shortfalls
unfolding evaluate shortfalls
evaluate-IsReadable floors none h hs = tt
evaluate-IsReadable floors (some r) h hs =
    let e = floors.exclude_latency in
    shortfalls_of-IsReadable floors.min_score (overall e r) (area_shortfalls e r floors.min_areas) h
      (area_shortfalls-IsReadable e r floors.min_areas hs)

read_min_score-natural :
    (v : Value) (o : Option ℕ)
    → IsScore o
    → get "min_score" v ≡ some (or_null natural o)
    → read_min_score v (some (or_null natural o)) ≡ ok o
unfolding score_field
read_min_score-natural v none h k = refl
read_min_score-natural v (some n) h k = rw k (rw (le→leb n 100 h) refl)

read_shortfalls-array :
    (o : Option (List Shortfall))
    → IsReadable o
    → read_shortfalls (some (or_null (λ ss. array (to_items (map shortfall_json ss))) o)) ≡ ok o
read_shortfalls-array none h = refl
read_shortfalls-array (some ss) h =
    rw (elements-to_items (map shortfall_json ss)) (rw (read_each ss h) refl)

read_area_object :
    (es : List (Area × ℕ))
    → All (λ e. e.1 ≤ 100) es
    → traverse area_floor (entries (to_fields (collect_by (λ e. e.0) (map area_entry es))))
      ≡ ok (collect_by (λ x. as_str x.0) es)
read_area_object es h = rw (entries-to_fields (collect_by (λ e. e.0) (map area_entry es))) (
    rw (← map-collect_by (λ e. e.0) area_entry es) (
      read_areas (collect_by (λ x. as_str x.0) es)
        (All-collect_by (λ e. e.1 ≤ 100) (λ x. as_str x.0) es h)))

-- A gate whose floors and shortfalls are scores, of subjects that are known, is read back from its
-- report with its area floors in the order of their labels.
pub from_json-to_json :
    (gate : FloorGate)
    → IsScore gate.floors.min_score
    → All (λ x. x.1 ≤ 100) gate.floors.min_areas
    → IsReadable gate.shortfalls
    → from_json (to_json gate)
      ≡ ok (record gate {
        floors = record gate.floors {
          min_areas = collect_by (λ x. as_str x.0) gate.floors.min_areas;
        };
      })
unfolding from_json to_json
from_json-to_json gate h hs ss =
    rw
      (
        read_min_score-natural (to_json gate) gate.floors.min_score h refl,
        read_area_object gate.floors.min_areas hs,
        read_shortfalls-array gate.shortfalls ss,
      )
      refl

-- The gate of a run, with floors that are scores, is read back from the report it is written to:
-- the same outcome and shortfalls, and the same floors with the areas in the order of their labels.
pub evaluate_roundtrip :
    (floors : Floors) (readiness : Option Readiness)
    → IsScore floors.min_score
    → All (λ x. x.1 ≤ 100) floors.min_areas
    → from_json (to_json (evaluate floors readiness))
      ≡ ok (record (evaluate floors readiness) {
        floors = record floors { min_areas = collect_by (λ x. as_str x.0) floors.min_areas };
      })
unfolding evaluate
evaluate_roundtrip floors readiness h hs =
    from_json-to_json (evaluate floors readiness) h hs (evaluate-IsReadable floors readiness h hs)
