-- ===== src/Gate/Wire.antt =====
-- `FloorGate::to_json` and `FloorGate::from_json` of src/readiness_gate.rs.
use mcp_eval.Prelude.{
  ℕ, String, false, not, ◌&&◌, Option, none, some, List, [], ◌∷◌, map, leb, is_none, if◌then◌else◌,
  Result, ok, ensure, context, traverse, ◌>>=◌, ◌>>◌, and_then, unwrap_or, str_eq,
}
use mcp_eval.Json.{
  Value, null, or_null, bool, number, string, array, object, unsigned, to_items, to_fields,
  collect_by, get, as_u64, as_bool, as_str, as_array, as_object,
}
use mcp_eval.Score.Area.{Area, from_label}
use mcp_eval.Score.Area
use mcp_eval.Gate.{Shortfall, FloorGate, passed}

-- The messages of `from_json`.
pub data Malformed : Type 0 where
  must_be_score : String → Malformed
  missing_min_areas : Malformed
  unknown_area : String → Malformed
  floor_range : String → Malformed
  shortfalls_not_array : Malformed
  missing_subject : Malformed
  unknown_subject : String → Malformed

abbrev pub natural : ℕ → Value
natural n = number (unsigned n)

abbrev pub area_entry : Area × ℕ → String × Value
area_entry (area, floor) = (Area.as_str area, natural floor)

abbrev pub shortfall_json : Shortfall → Value
shortfall_json s = object (
    to_fields (
      ("floor", natural s.floor)
      ∷ ("observed", natural s.observed)
      ∷ ("subject", string s.subject)
      ∷ []))

-- An object lists its fields by key.
unfoldable pub to_json : FloorGate → Value
unfolding passed
to_json gate = object (
    to_fields (
      ("exclude_latency", bool gate.floors.exclude_latency)
      ∷ (
        "min_areas",
        object (to_fields (collect_by (λ e. e.0) (map area_entry gate.floors.min_areas))),
      )
      ∷ ("min_score", or_null natural gate.floors.min_score)
      ∷ ("passed", or_null bool (passed gate))
      ∷ ("shortfalls", or_null (λ ss. array (to_items (map shortfall_json ss))) gate.shortfalls)
      ∷ []))

abbrev pub at_most_100 : ℕ → Option ℕ
at_most_100 n = if leb n 100 then some n else none

-- The closure `score`
unfoldable pub score_field : Value → String → Result Malformed ℕ
score_field value field =
    context (must_be_score field) (and_then (and_then (get field value) as_u64) at_most_100)

unfoldable pub area_floor : String × Value → Result Malformed (Area × ℕ)
area_floor (label, floor) = do
  area ← context (unknown_area label) (from_label label)
  n ← context (floor_range label) (and_then (as_u64 floor) at_most_100)
  ok (area, n)

unfoldable pub read_shortfall : Value → Result Malformed Shortfall
unfolding score_field
read_shortfall value = do
  subject ← context missing_subject (and_then (get "subject" value) as_str)
  ensure (not (not (str_eq subject "score") && is_none (from_label subject)))
      (unknown_subject subject)
  observed ← score_field value "observed"
  floor ← score_field value "floor"
  ok (record { subject = subject; observed = observed; floor = floor })

abbrev pub read_min_score : Value → Option Value → Result Malformed (Option ℕ)
read_min_score value none = ok none
read_min_score value (some null) = ok none
read_min_score value (some v) = do n ← score_field value "min_score"; ok (some n)

abbrev pub read_shortfalls : Option Value → Result Malformed (Option (List Shortfall))
read_shortfalls none = ok none
read_shortfalls (some null) = ok none
read_shortfalls (some v) = do
  vs ← context shortfalls_not_array (as_array v)
  ss ← traverse read_shortfall vs
  ok (some ss)

unfoldable pub from_json : Value → Result Malformed FloorGate
unfolding area_floor read_shortfall
from_json value = do
  min_score ← read_min_score value (get "min_score" value)
  entries ← context missing_min_areas (and_then (get "min_areas" value) as_object)
  min_areas ← traverse area_floor entries
  shortfalls ← read_shortfalls (get "shortfalls" value)
  ok (record {
    floors = record {
      min_score = min_score;
      min_areas = min_areas;
      exclude_latency = unwrap_or false (and_then (get "exclude_latency" value) as_bool);
    };
    shortfalls = shortfalls;
  })
