-- ===== src/Diff.antt =====
-- src/diff.rs: a baseline report against the current one, case by case. The catalog changes, the
-- JSON form and the text are not modelled.
pub mod Cases
pub mod Movement
pub mod Report
mod Matched
mod Comparable
mod Drop
mod Regression
mod Examples
