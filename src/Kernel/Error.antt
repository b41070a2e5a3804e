-- ===== src/Kernel/Error.antt =====
-- The errors that the audit kernel throws. Message texts are left out: each is fixed by the
-- constructor and its arguments.
use verity_os_v.Base.{Str, List, Result}
use verity_os_v.Contracts.{ExecutionStatus}

-- the `field` of an InvalidEvidenceInputError
pub data Field : Type 0 where
  request_hash response_hash execution_graph_hash previous_entry_hash entry_hash merkle_root : Field
  created_at_canonical occurred_at_canonical input_hash output_hash metadata : Field

pub data Error : Type 0 where
  invalid_evidence_input : Field → Error
  -- canonicalize
  unsafe_number unsupported_type : Error
  -- hexToBytes on text that is no hex
  malformed_hex : Error
  leaf_index_out_of_range leaf_not_present : Error
  chain_state_missing : Error
  execution_not_found : Error
  invalid_execution_transition : ExecutionStatus → ExecutionStatus → Error
  -- ExecutionEventError, by its code
  unknown_event_type parent_not_found parent_cross_organization parent_cross_execution : Error
  parent_sequence : Error
  unresolved_graph_parent : List Str → Error
  -- a Merkle level with no node, or a loop whose fuel ran out
  no_root : Error

abbrev pub Throws {ℓ} : Type ℓ → Type ℓ
Throws A = Result Error A
