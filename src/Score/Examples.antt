-- ===== src/Score/Examples.antt =====
-- Concrete observations and their scores, in exact fractions.
use mcp_eval.Prelude.{
  ◌+◌, ◌*◌, ◌/◌, ◌≤◌, ◌≡◌, true, false, Option, some, none, [], ◌∷◌, arith, All, unwrap_or,
  count_if, filter_map, length,
}
use mcp_eval.Score.CheckId.{CheckId}
use mcp_eval.Score.CheckReason.{CheckReason}
use mcp_eval.Score.Curve.{latency_band}
use mcp_eval.Score.Areas.{protocol, coverage, read_only_surface}
use mcp_eval.Score.Fold.{fold, score_area, surface_of}
use mcp_eval.Score.Bounds.{IsInRange, fold_bounds}
use mcp_eval.Score.Exact.{points, score_without, fold-score}
use mcp_eval.Score.Shares.{not_held, protocol_exact}
use mcp_eval.Score.Coverage.{
  callable, had_success, coverage_exact, coverage-callable, surface_partition,
}
use mcp_eval.Score.Latency.{fold-fast, latency_band_antitone}
use mcp_eval.Score.Rationals.{fractions, fraction_laws}
use mcp_eval.Standard.{
  ToolObservation, CatalogFacts, CallCounts, Observations, writer, read_only, exercised, honest,
}

abbrev no_calls : CallCounts
no_calls = record {
  successful = 0;
  tool_errors = 0;
  rpc_errors = 0;
  rejected = 0;
  transport_errors = 0;
}

abbrev plain_facts : CatalogFacts
plain_facts = record {
  description_chars = 60;
  properties = 1;
  described_properties = 1;
  typed_properties = 0;
  read_only_declared = true;
  destructive_declared = true;
  output_schema = false;
}

abbrev reader : ToolObservation
reader = record {
  name = "read";
  tokens = 120;
  class = read_only;
  exercise = some (exercised true 40 none);
  catalog = plain_facts;
  honesty = some honest;
  calls = record no_calls { successful = 3 };
}

abbrev deleter : ToolObservation
deleter = record {
  name = "delete";
  tokens = 80;
  class = writer;
  exercise = none;
  catalog = plain_facts;
  honesty = none;
  calls = no_calls;
}

abbrev ping_failed : CheckId × Option CheckReason
ping_failed = (CheckId.protocol_ping, some CheckReason.protocol_ping_failed)

abbrev pages_held : CheckId × Option CheckReason
pages_held = (CheckId.protocol_pagination, none)

abbrev pub observed : Observations
observed = record {
  tools = reader ∷ deleter ∷ [];
  attested_read_only = false;
  contention = some true;
  payload = none;
  protocol = ping_failed ∷ pages_held ∷ [];
}

fold_bounds_example :
    ((fold fractions observed).score ≤ 100)
    × (unwrap_or 0 (fold fractions observed).score_without_latency ≤ 100)
    × All IsInRange (fold fractions observed).areas
fold_bounds_example = fold_bounds fractions fraction_laws observed

fold-score_example :
    ((fold fractions observed).score
      ≡ (points (λ a. (score_area fractions observed a).score) + 50) / 100)
    × ((fold fractions observed).score_without_latency
        ≡ some ((points (score_without fractions fraction_laws observed) + 50) / 100))
fold-score_example = fold-score fractions fraction_laws observed

protocol_exact_example :
    ((protocol fractions (ping_failed ∷ pages_held ∷ [])).score ≡ 50)
    × ((protocol fractions (ping_failed ∷ pages_held ∷ [])).checks
        ≡ filter_map not_held (ping_failed ∷ pages_held ∷ []))
protocol_exact_example =
    protocol_exact fractions fraction_laws ping_failed (pages_held ∷ []) (omega arith)

coverage_exact_example :
    (coverage fractions (reader ∷ deleter ∷ [])).score
    ≡ (200 * count_if had_success (callable (reader ∷ deleter ∷ []))
        + length (callable (reader ∷ deleter ∷ [])))
      / (2 * length (callable (reader ∷ deleter ∷ [])))
coverage_exact_example =
    coverage_exact fractions fraction_laws (reader ∷ deleter ∷ []) (omega arith) (omega arith)

coverage-callable_test :
    coverage fractions (callable (reader ∷ deleter ∷ []))
    ≡ coverage fractions (reader ∷ deleter ∷ [])
coverage-callable_test = coverage-callable fractions fraction_laws (reader ∷ deleter ∷ [])

surface_partition_test :
    ((surface_of (reader ∷ deleter ∷ [])).read_only + (surface_of (reader ∷ deleter ∷ [])).writers
      ≡ (surface_of (reader ∷ deleter ∷ [])).tools)
    × ((surface_of (reader ∷ deleter ∷ [])).read_only ≡ read_only_surface (reader ∷ deleter ∷ []))
    × ((surface_of (reader ∷ deleter ∷ [])).exercised
        ≤ (surface_of (reader ∷ deleter ∷ [])).read_only)
surface_partition_test = surface_partition (reader ∷ deleter ∷ [])

fold-fast_example :
    (fold fractions observed).score_without_latency ≡ some (fold fractions observed).score
fold-fast_example = fold-fast fractions observed (omega arith)

latency_band_antitone_test : (latency_band 301 ≤ latency_band 300) × (latency_band 300 ≤ 100)
latency_band_antitone_test = latency_band_antitone 300 301 (omega arith)
