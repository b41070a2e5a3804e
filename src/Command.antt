-- ===== src/Command.antt =====
-- packages/command: policies, approvals and the gate of the connectors.
pub mod Rows
pub mod Policy
pub mod Approvals
pub mod Connectors
pub mod Seed
