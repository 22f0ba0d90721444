-- ===== src/Contract.antt =====
-- src/catalog_contract.rs: what a tool catalog promises its callers, and how one contract changes
-- into another.
pub mod Changes
pub mod Compare
pub mod Wire
pub mod Constraints
mod Order
mod Kept
mod Compatible
mod Redacted
mod RoundTrip
mod Derived
mod Examples
