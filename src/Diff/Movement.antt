-- ===== src/Diff/Movement.antt =====
-- `ReadinessMovement` and `DropGate` of src/diff.rs.
use mcp_eval.Prelude.{
  ℕ, String, Bool, true, false, ◌&&◌, Option, none, some, List, [], ◌∷◌, and_then, map_some,
  is_some, leb, ◌==◌, not, str_eq, Result, ok, err,
}
use mcp_eval.Measurement.{MeasurementProfile}
use mcp_eval.Probe.Report.{ProbeReport}

pub record ReadinessMovement : Type 0 where
  pub baseline : Option ℕ
  pub current : Option ℕ
  pub baseline_without_latency : Option ℕ
  pub current_without_latency : Option ℕ
  pub baseline_standard : Option String
  pub current_standard : Option String
  pub baseline_profile : Option MeasurementProfile
  pub current_profile : Option MeasurementProfile

-- The closure `side`
abbrev pub side_score : ProbeReport → Option ℕ
side_score report = elim report.readiness [ none ↦ report.legacy_score | some r ↦ some r.score ]

abbrev pub side_standard : ProbeReport → Option String
side_standard report = map_some (λ r. r.standard) report.readiness

abbrev pub without_latency : ProbeReport → Option ℕ
without_latency report = and_then report.readiness (λ r. r.score_without_latency)

abbrev pub profile_of : ProbeReport → Option MeasurementProfile
profile_of report = and_then report.readiness (λ r. r.measurement_profile)

abbrev pub movement_of : ProbeReport → ProbeReport → ReadinessMovement
movement_of baseline current = record {
  baseline = side_score baseline;
  current = side_score current;
  baseline_without_latency = without_latency baseline;
  current_without_latency = without_latency current;
  baseline_standard = side_standard baseline;
  current_standard = side_standard current;
  baseline_profile = profile_of baseline;
  current_profile = profile_of current;
}

-- The derived `==` of options, lists, flags and profiles
abbrev pub option_eq {ℓ} : {A : Type ℓ} → (A → A → Bool) → Option A → Option A → Bool
option_eq eq none none = true
option_eq eq (some a) (some b) = eq a b
option_eq eq _ _ = false

abbrev pub list_eq {ℓ} : {A : Type ℓ} → (A → A → Bool) → List A → List A → Bool
list_eq eq [] [] = true
list_eq eq (x ∷ xs) (y ∷ ys) = eq x y && list_eq eq xs ys
list_eq eq _ _ = false

abbrev pub flag_eq : Bool → Bool → Bool
flag_eq true b = b
flag_eq false b = not b

abbrev pub profile_eq : MeasurementProfile → MeasurementProfile → Bool
profile_eq p q =
    str_eq p.schema q.schema
    && str_eq p.evaluator_version q.evaluator_version
    && str_eq p.platform q.platform
    && str_eq p.architecture q.architecture
    && str_eq p.client_capabilities q.client_capabilities
    && flag_eq p.attested_read_only q.attested_read_only
    && list_eq str_eq p.skip_tools q.skip_tools
    && (p.call_timeout_ms == q.call_timeout_ms)
    && (p.repeats == q.repeats)
    && option_eq str_eq p.arguments_sha256 q.arguments_sha256

-- Both sides were scored, under the same standard and profile.
abbrev pub comparable : ReadinessMovement → Bool
comparable m =
    is_some m.baseline
    && is_some m.current
    && is_some m.baseline_standard
    && option_eq str_eq m.baseline_standard m.current_standard
    && is_some m.baseline_profile
    && option_eq profile_eq m.baseline_profile m.current_profile

pub record DropGate : Type 0 where
  pub max_drop : ℕ
  pub exclude_latency : Bool
  pub drop : ℕ

-- `DropGate::passed`
unfoldable pub drop_passed : DropGate → Bool
drop_passed gate = leb gate.drop gate.max_drop

-- The messages of `gate_readiness_drop`.
pub data DropError : Type 0 where
  not_comparable baseline_has_no_score : DropError
  current_has_no_score readiness_missing : DropError

-- The scores to compare.
abbrev pub drop_scores : Bool → ReadinessMovement → Result DropError (ℕ × ℕ)
drop_scores true m = elim m.baseline_without_latency [
  | none ↦ err baseline_has_no_score
  | some b ↦ elim m.current_without_latency [ none ↦ err current_has_no_score | some c ↦ ok (b, c) ]
]
drop_scores false m = elim m.baseline [
  | none ↦ err readiness_missing
  | some b ↦ elim m.current [ none ↦ err readiness_missing | some c ↦ ok (b, c) ]
]
