-- ===== src/Lib.antt =====
-- VerityOS: the audit kernel, the command policies, identity, the execution service, the model
-- router and the rate limiter.
--
-- The audit kernel (packages/audit-kernel) keeps for each organization a ledger whose entries are
-- linked by hashes, seals it with Merkle checkpoints, and checks exported evidence offline. The
-- command package (packages/command) decides what an actor may do, keeps approvals and guards
-- connectors. The model router (packages/model-router) asks the command package and picks a model.
-- Identity (packages/identity) keeps accounts, sessions and the credentials of services. They
-- share the types of packages/contracts. The execution service (apps/core-api/src/execution)
-- drives an execution from its opening to its seal over the kernel, the command package and the
-- memberships of identity. The rate limiter of apps/core-api stands by itself.
--
-- The parts and their files:
--   Base           text as UTF-16 code units, tests, lists, the stable sort, fallible code, and calls
--                  that change a state and may throw (Base.Stateful)
--   Contracts      packages/contracts/src/index.ts
--   Kernel.Noble   SHA-256 and hex of @noble/hashes: parameters, with the laws that the code relies on
--                  (`Lawful`), and a checksum that meets them (Kernel.Noble.Checksum)
--   Kernel.Canonicalize, Kernel.Utf8, Kernel.Hash, Kernel.Evidence
--                  packages/audit-kernel/src/hashing: canonicalize, buildHashPayload, computeEntryHash,
--                  assertSha256Hex, assertCanonicalUtcTimestamp
--   Kernel.Merkle  packages/audit-kernel/src/merkle/merkle.ts
--   Kernel.Rows    packages/audit-kernel/src/types.ts and the tables of the audit schema
--   Kernel.Executions
--                  packages/audit-kernel/src/execution/executions.ts
--   Kernel.Ledger  packages/audit-kernel/src/ledger/append.ts
--   Kernel.Events, Kernel.Graph
--                  packages/audit-kernel/src/execution/events.ts and graph-v2.ts
--   Kernel.Verify, Kernel.Bundle
--                  packages/audit-kernel/src/verify/verify.ts: the chain and the checkpoints, and the
--                  whole bundle with its graphs
--   Kernel.Seal    packages/audit-kernel/src/execution/finalize.ts: sealExecution
--   Kernel.Export  packages/audit-kernel/src/export/bundle.ts: exportOrganizationEvidence
--   Kernel.Calls   the calls of the kernel in any order
--   Command.Policy, Command.Approvals, Command.Seed
--                  packages/command/src/index.ts
--   Command.Connectors
--                  packages/command/src/connectors.ts
--   Identity.Rows  the tables of the schema auth with their keys, from db/migrations
--   Identity.Passwords
--                  packages/identity/src/passwords.ts: hashPassword, verifyPassword
--   Identity.Accounts, Identity.Credentials, Identity.Sessions
--                  packages/identity/src/index.ts: createOrganization, createUser, createRole;
--                  createServiceCredential, resolveServiceToken; createSession, resolveSession
--   Service.World  the three schemas as one state, and the queries of apps/core-api/src/execution
--   Service.Skills, Service.Lifecycle
--                  apps/core-api/src/execution/lifecycle.ts: recordSkillLifecycleEvent;
--                  requestExecutionApproval, decideExecutionApproval
--   Service.Outcome, Service.Governed
--                  apps/core-api/src/execution/service.ts: openGovernedExecution,
--                  finalizeGovernedExecution
--   Service.Calls  the calls of the service in any order
--   Router         packages/model-router/src/index.ts
--   RateLimit      apps/core-api/src/rate-limit.ts
--   Examples       concrete runs
--
-- A table is the list of its rows, oldest first, and a query is a function on that list. A
-- transaction is a function on the database that returns or throws; a throw rolls back. Statements
-- on one database run one after the other: an append locks the state row of its organization, so
-- that appends to one organization do not interleave. A call that runs several statements without
-- a transaction keeps what it wrote before it threw. In the tables of identity an INSERT checks
-- its unique and foreign keys. Elsewhere a query that fails for reasons of the database itself (a
-- lost connection, a violated unique constraint) is one more error that rolls back, and is left
-- out. A cast to uuid is taken to keep its text. Random ids and tokens, the clock, the collation
-- of text, scrypt, the SHA-256 of tokens and the case of letters are parameters.
--
-- Sequences, versions and indices are natural numbers. The loops of buildMerkleTree and of the
-- decimal digits run on fuel: the number of leaves and the number itself, which are enough because
-- a level has half the nodes of the one below and a quotient by ten is smaller. Safe integers are
-- bounded as the source bounds them; sequences are not bounded otherwise.
--
-- Left out: HTTP routes, the user interface, the Python services and the provider adapters, which
-- are glue and calls of other services; the frozen first version of the kernel; and for now
-- knowledge, the connector gateway, and of the execution service the retrieval and the execution
-- of a model.
pub mod Base
pub mod Contracts
pub mod Kernel
pub mod Command
pub mod Identity
pub mod Service
pub mod Router
pub mod RateLimit
pub mod Examples
