-- ===== src/Score.antt =====
-- src/score.rs: the standard's readiness score.
pub mod Area
pub mod CheckId
pub mod CheckReason
pub mod Floats
pub mod Curve
pub mod Areas
pub mod Reliability
pub mod Fold
pub mod Losses
pub mod Bounds
pub mod Exact
pub mod Shares
pub mod Coverage
pub mod Latency
pub mod Rationals
pub mod Examples
