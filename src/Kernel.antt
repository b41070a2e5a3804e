-- ===== src/Kernel.antt =====
-- The audit kernel, packages/audit-kernel/src.
pub mod Noble
pub mod Error
pub mod Merkle
pub mod Canonicalize
pub mod Evidence
pub mod Utf8
pub mod Hash
pub mod Rows
pub mod Executions
pub mod Ledger
pub mod Verify
pub mod Events
pub mod Graph
pub mod Bundle
pub mod Seal
pub mod Calls
pub mod Export
