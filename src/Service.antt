-- ===== src/Service.antt =====
-- apps/core-api/src/execution: the execution service over the kernel, the command package and the
-- identities.
pub mod World
pub mod Skills
pub mod Lifecycle
pub mod Outcome
pub mod Governed
pub mod Kept
pub mod Calls
pub mod Stable
pub mod Returned
