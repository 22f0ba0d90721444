-- ===== src/Probe.antt =====
-- The vocabulary of src/probe.rs that reports are written in.
pub mod ProbeKind
pub mod FailureReason
pub mod Report
pub mod Exit
mod Examples
