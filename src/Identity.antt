-- ===== src/Identity.antt =====
-- packages/identity: accounts, sessions, permissions and service credentials.
pub mod Rows
pub mod Passwords
pub mod Accounts
pub mod Credentials
pub mod Sessions
pub mod Consistent
pub mod Keeps
pub mod Invariant
