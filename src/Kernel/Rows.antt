-- ===== src/Kernel/Rows.antt =====
-- types.ts and the rows of the audit schema. A table is the list of its rows, oldest first. A
-- timestamp column holds the text that the code writes to it.
use verity_os_v.Base.{ℕ, Str, List, Option}
use verity_os_v.Contracts.{ExecutionStatus, LedgerEntryType, RiskTier}
use verity_os_v.Kernel.Canonicalize.{Value}

pub record LedgerEntryRow : Type 0 where
  pub id : Str
  pub organization_id : Str
  pub organization_sequence : ℕ
  pub execution_id : Str
  pub entry_type : LedgerEntryType
  pub request_hash : Option Str
  pub response_hash : Option Str
  pub execution_graph_hash : Option Str
  pub previous_entry_hash : Option Str
  pub entry_hash : Str
  pub merkle_root : Option Str
  pub kernel_version : Str
  pub hash_format_version : Str
  pub created_at : Str
  pub created_at_canonical : Str

pub record ExecutionRow : Type 0 where
  pub id : Str
  pub verity_record_id : Str
  pub organization_id : Str
  pub actor_id : Option Str
  pub session_id : Option Str
  pub skill_id : Option Str
  pub status : ExecutionStatus
  pub risk_tier : RiskTier
  pub policy_version : Option Str
  pub retention_mode : Option Str
  pub started_at : Str
  pub completed_at : Option Str
  pub final_entry_id : Option Str

pub record MerkleCheckpointRow : Type 0 where
  pub id : Str
  pub organization_id : Str
  pub from_sequence : ℕ
  pub through_sequence : ℕ
  pub root : Str
  pub leaf_hashes : List Str
  pub created_at : Str

-- `metadata` is the list of the object's keys and values.
pub record ExecutionEventRow : Type 0 where
  pub id : Str
  pub organization_id : Str
  pub execution_id : Str
  pub event_sequence : ℕ
  pub event_type : Str
  pub status : Str
  pub parent_event_ids : List Str
  pub input_hash : Option Str
  pub output_hash : Option Str
  pub metadata : List (Str × Value)
  pub occurred_at_canonical : Str

pub record ChainStateRow : Type 0 where
  pub organization_id : Str
  pub latest_sequence : ℕ
  pub latest_entry_hash : Option Str

pub record Db : Type 0 where
  pub chain_state : List ChainStateRow
  pub ledger_entries : List LedgerEntryRow
  pub merkle_checkpoints : List MerkleCheckpointRow
  pub executions : List ExecutionRow
  pub execution_events : List ExecutionEventRow
