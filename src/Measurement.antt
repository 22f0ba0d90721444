-- ===== src/Measurement.antt =====
-- `MeasurementProfile` of src/measurement.rs: the conditions that two readiness scores must share.
use mcp_eval.Prelude.{ℕ, String, Bool, Option, List}

pub record MeasurementProfile : Type 0 where
  pub schema : String
  pub evaluator_version : String
  pub platform : String
  pub architecture : String
  pub client_capabilities : String
  pub attested_read_only : Bool
  pub skip_tools : List String
  pub call_timeout_ms : ℕ
  pub repeats : ℕ
  pub arguments_sha256 : Option String
