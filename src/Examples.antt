-- ===== src/Examples.antt =====
-- Runs of the code on concrete inputs, at which the theorems are applied.
mod Trees
mod Texts
mod Chains
mod Bundles
mod Policies
mod Routing
mod Limits
mod Identities
mod Sealing
mod Services
