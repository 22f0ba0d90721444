-- ===== src/Score/Coverage.antt =====
-- Coverage and the surface of a catalog: writers count for neither.
use mcp_eval.Prelude.{
  ◌+◌, ◌*◌, ◌/◌, ◌^◌, ◌<◌, ◌≤◌, ◌≡◌, refl, Bool, ltb, not, List, [], ◌∷◌, arith, count_if, length,
  filter, filter_map, Bool-cases, inl, inr,
}
use mcp_eval.Score.Floats.{Floats, FloatLaws}
use mcp_eval.Score.Areas.{coverage, coverage_check, read_only_surface, is_covered}
use mcp_eval.Score.Fold.{surface_of}
use mcp_eval.Score.Shares.{share-exact}
use mcp_eval.Standard.{ToolObservation, is_writer}

-- The tools that are no writers.
abbrev pub callable : List ToolObservation → List ToolObservation
callable = filter (λ t. not (is_writer t.class))

surface-callable :
    (ts : List ToolObservation) → read_only_surface (callable ts) ≡ read_only_surface ts
unfolding read_only_surface
surface-callable [] = refl
surface-callable (t ∷ ts) = ground (arith, surface-callable ts)

covered-callable :
    (ts : List ToolObservation) → count_if is_covered (callable ts) ≡ count_if is_covered ts
covered-callable [] = refl
covered-callable (t ∷ ts) = ground (arith, covered-callable ts)

-- A call of the tool succeeded.
abbrev pub had_success : ToolObservation → Bool
had_success t = ltb 0 t.calls.successful

length-callable : (ts : List ToolObservation) → length (callable ts) ≡ read_only_surface ts
unfolding read_only_surface
length-callable [] = refl
length-callable (t ∷ ts) = ground (arith, length-callable ts)

success-callable :
    (ts : List ToolObservation) → count_if had_success (callable ts) ≡ count_if is_covered ts
success-callable [] = refl
success-callable (t ∷ ts) = ground (arith, success-callable ts)

covered-le : (ts : List ToolObservation) → count_if is_covered ts ≤ read_only_surface ts
unfolding read_only_surface
covered-le [] = omega arith
covered-le (t ∷ ts) = ground (arith, covered-le ts)

surface-writers :
    (ts : List ToolObservation)
    → read_only_surface ts + count_if (λ t. is_writer t.class) ts ≡ length ts
unfolding read_only_surface
surface-writers [] = omega arith
surface-writers (t ∷ ts) = ground (arith, surface-writers ts)

checks-callable :
    (f : Floats) (ts : List ToolObservation)
    → filter_map (coverage_check f) (callable ts) ≡ filter_map (coverage_check f) ts
checks-callable f [] = refl
checks-callable f (t ∷ ts) = elim (Bool-cases (is_writer t.class)) [
  | inl e ↦ rw e (checks-callable f ts)
  | inr e ↦ rw e (rw (checks-callable f ts) (rw e))
]

-- The surface splits the catalog into the writers and the tools that are none, and counts no writer as
-- exercised.
pub surface_partition :
    (ts : List ToolObservation)
    → ((surface_of ts).read_only + (surface_of ts).writers ≡ (surface_of ts).tools)
      × ((surface_of ts).read_only ≡ read_only_surface ts)
      × ((surface_of ts).exercised ≤ (surface_of ts).read_only)
unfolding surface_of
surface_partition ts = omega (arith, surface-writers ts, covered-le ts)

module _ (f : Floats) (laws : FloatLaws f) where
  -- Coverage does not see writers: without them the area has the same score and the same checks.
  pub coverage-callable : (ts : List ToolObservation) → coverage f (callable ts) ≡ coverage f ts
  unfolding coverage
  coverage-callable ts = rw (surface-callable ts, covered-callable ts, checks-callable f ts)

  -- With fewer than 2^40 tools, at least one of which is no writer, the coverage score is the
  -- percentage of the tools that are no writers, the unannotated ones included, that had a successful
  -- call, rounded half up.
  pub coverage_exact :
      (ts : List ToolObservation)
      → length ts < 2 ^ 40
      → 0 < length (callable ts)
      → (coverage f ts).score
        ≡ (200 * count_if had_success (callable ts) + length (callable ts))
          / (2 * length (callable ts))
  unfolding coverage
  coverage_exact ts small pos =
      rw (length-callable ts, success-callable ts)
        (ground (
          arith,
          length-callable ts,
          share-exact f laws (count_if is_covered ts) (read_only_surface ts) (covered-le ts)
              (rw (length-callable ts) at pos) (omega (arith, surface-writers ts)),
        ))
