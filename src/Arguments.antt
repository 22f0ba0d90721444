-- ===== src/Arguments.antt =====
-- The arguments that a tool is called with: src/standard.rs builds them from a schema, and
-- src/tool_arguments.rs reads those that a caller supplies.
pub mod Spend
pub mod Synthesis
pub mod WholeNumbers
pub mod Supplied
mod Bounds
mod Size
mod Validated
mod Examples
