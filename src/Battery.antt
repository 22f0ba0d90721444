-- ===== src/Battery.antt =====
-- The battery of src/standard.rs: the calls it makes of a server, and what it observes. The server
-- is a record of the operations that the battery uses of a client.
pub mod Server
pub mod Calls
pub mod Protocol
pub mod Observe
mod Keeps
mod Safe
mod Logged
mod Tally
mod Counts
mod Examples
