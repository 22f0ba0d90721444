-- ===== src/Lifecycle.antt =====
-- src/lifecycle.rs: the durable lifecycle of a promoted finding.
pub mod State
pub mod Streak
pub mod Store
pub mod Record
mod Tables
pub mod Replay
pub mod Mirror
pub mod Written
pub mod Closing
pub mod Soundness
pub mod Identity
mod Examples
