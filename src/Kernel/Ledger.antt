-- ===== src/Kernel/Ledger.antt =====
-- ledger/append.ts: appending to the hash chain of an organization, with a Merkle checkpoint every
-- `interval` entries, and the queries on the ledger.
pub mod Chain
pub mod Append
pub mod States
pub mod Invariant
use verity_os_v.Base.{
  ℕ, suc, ◌+◌, ◌-◌, ◌%◌, Str, str_eq, sort_by, Bool, ◌&&◌, List, [], ◌∷◌, ◌++◌, map, Option, none,
  some, ok, throw, ◌>>=◌, ◌>>◌, or_throw, if◌then◌else◌, find?, select, leb, ltb, ◌==◌,
}
use verity_os_v.Contracts.{
  ExecutionStatus, LedgerEntryType, running, waiting_approval, completed, failed, request_opened,
  approval_requested, action_completed, final, failure,
}
use verity_os_v.Kernel.Error.{
  Throws, chain_state_missing, leaf_not_present, created_at_canonical, previous_entry_hash,
  entry_hash, merkle_root,
}
use verity_os_v.Kernel.Noble.{Noble}
use verity_os_v.Kernel.Evidence.{
  assert_sha256_hex, assert_canonical_utc_timestamp, assert_ledger_hash_fields,
}
use verity_os_v.Kernel.Hash.{
  HashFieldInput, build_hash_payload, compute_entry_hash, or_default, default_kernel_version,
  hash_format_version,
}
use verity_os_v.Kernel.Merkle.{MerkleProof, compute_merkle_root, get_merkle_proof}
use verity_os_v.Kernel.Rows.{LedgerEntryRow, MerkleCheckpointRow, ChainStateRow, Db}
use verity_os_v.Kernel.Executions.{set_execution_status}

-- What an append takes from outside: the clock, two fresh ids, and DEFAULT_MERKLE_INTERVAL.
pub record Host : Type 0 where
  pub now : Str
  pub entry_id : Str
  pub checkpoint_id : Str
  pub default_merkle_interval : ℕ

-- An interval that is negative or no number never makes a checkpoint; it is 0 here.
pub record AppendLedgerInput : Type 0 where
  pub organization_id : Str
  pub execution_id : Str
  pub entry_type : LedgerEntryType
  pub request_hash : Option Str
  pub response_hash : Option Str
  pub execution_graph_hash : Option Str
  pub merkle_snapshot_interval : Option ℕ
  pub created_at_canonical : Option Str
  pub kernel_version : Option Str
  pub execution_status : Option ExecutionStatus

-- INSERT INTO audit.chain_state … ON CONFLICT (organization_id) DO NOTHING
unfoldable pub find_state : Str → List ChainStateRow → Option ChainStateRow
find_state org = find? (λ s. str_eq s.organization_id org)

unfoldable pub ensure_state : Str → List ChainStateRow → List ChainStateRow
unfolding find_state
ensure_state org states = elim (find_state org states) [
  | none ↦
      states ++ record { organization_id = org; latest_sequence = 0; latest_entry_hash = none } ∷ []
  | some s ↦ states
]

-- UPDATE audit.chain_state … WHERE organization_id = $1
unfoldable pub update_state : Str → ℕ → Str → List ChainStateRow → List ChainStateRow
update_state org sequence hash [] = []
update_state org sequence hash (s ∷ states) =
    (if str_eq s.organization_id org
      then record s { latest_sequence = sequence; latest_entry_hash = some hash }
      else s)
    ∷ update_state org sequence hash states

abbrev pub sequence_lt : LedgerEntryRow → LedgerEntryRow → Bool
sequence_lt a b = ltb a.organization_sequence b.organization_sequence

abbrev pub entries_of : Str → List LedgerEntryRow → List LedgerEntryRow
entries_of org = select (λ e. str_eq e.organization_id org)

-- ORDER BY organization_sequence ASC
unfoldable pub get_ledger_entries : Str → Db → List LedgerEntryRow
get_ledger_entries org db = sort_by sequence_lt (entries_of org db.ledger_entries)

-- The entry hashes of the organization from one sequence up to, not including, another.
unfoldable pub prior_hashes : Str → ℕ → ℕ → Db → List Str
unfolding get_ledger_entries
prior_hashes org from next db =
    map (λ e. e.entry_hash)
      (select (λ e. leb from e.organization_sequence && ltb e.organization_sequence next)
        (get_ledger_entries org db))

pub record Checkpoint : Type 0 where
  pub leaves : List Str
  pub root : Str
  pub from_sequence : ℕ

unfoldable pub make_checkpoint : Noble → Str → ℕ → ℕ → Str → Db → Throws (Option Checkpoint)
make_checkpoint n org interval next hash db =
    if ltb 0 interval && next % interval == 0
    then (do
      let from = next - interval + 1
      let leaves = prior_hashes org from next db ++ hash ∷ []
      root ← compute_merkle_root n leaves
      assert_sha256_hex merkle_root (some root)
      ok (some (record { leaves = leaves; root = root; from_sequence = from })))
    else ok none

unfoldable pub insert_checkpoint :
    Host → Str → ℕ → Str → Option Checkpoint → List MerkleCheckpointRow → List MerkleCheckpointRow
insert_checkpoint host org next created none checkpoints = checkpoints
insert_checkpoint host org next created (some c) checkpoints =
    checkpoints
    ++ record {
      id = host.checkpoint_id;
      organization_id = org;
      from_sequence = c.from_sequence;
      through_sequence = next;
      root = c.root;
      leaf_hashes = c.leaves;
      created_at = created;
    }
      ∷ []

abbrev pub or_status : Option ExecutionStatus → ExecutionStatus → ExecutionStatus
or_status none d = d
or_status (some s) d = s

-- The status that an entry of a type sets, and whether it closes the execution.
unfoldable pub follow_up : LedgerEntryType → AppendLedgerInput → LedgerEntryRow → Db → Throws Db
follow_up request_opened input row db =
    set_execution_status input.execution_id (or_status input.execution_status running)
      (record {
        organization_id = some input.organization_id;
        final_entry_id = none;
        completed_at = none;
      })
      db
follow_up approval_requested input row db =
    set_execution_status input.execution_id (or_status input.execution_status waiting_approval)
      (record {
        organization_id = some input.organization_id;
        final_entry_id = none;
        completed_at = none;
      })
      db
follow_up action_completed input row db = ok db
follow_up final input row db =
    set_execution_status input.execution_id (or_status input.execution_status completed)
      (record {
        organization_id = some input.organization_id;
        final_entry_id = some row.id;
        completed_at = some row.created_at_canonical;
      })
      db
follow_up failure input row db =
    set_execution_status input.execution_id (or_status input.execution_status failed)
      (record {
        organization_id = some input.organization_id;
        final_entry_id = some row.id;
        completed_at = some row.created_at_canonical;
      })
      db

-- The payload of the next entry.
unfoldable pub next_payload : AppendLedgerInput → Str → ℕ → Option Str → HashFieldInput
next_payload input created next previous = record {
  organization_id = input.organization_id;
  ledger_sequence = next;
  execution_id = input.execution_id;
  entry_type = input.entry_type;
  request_hash = input.request_hash;
  response_hash = input.response_hash;
  execution_graph_hash = input.execution_graph_hash;
  previous_entry_hash = previous;
  kernel_version = some (or_default input.kernel_version default_kernel_version);
  created_at_canonical = created;
}

-- The row that is inserted.
unfoldable pub new_row :
    Host → AppendLedgerInput → Str → ℕ → Option Str → Str → Option Checkpoint → LedgerEntryRow
new_row host input created next previous hash checkpoint = record {
  id = host.entry_id;
  organization_id = input.organization_id;
  organization_sequence = next;
  execution_id = input.execution_id;
  entry_type = input.entry_type;
  request_hash = input.request_hash;
  response_hash = input.response_hash;
  execution_graph_hash = input.execution_graph_hash;
  previous_entry_hash = previous;
  entry_hash = hash;
  merkle_root = elim checkpoint [ none ↦ none | some c ↦ some c.root ];
  kernel_version = or_default input.kernel_version default_kernel_version;
  hash_format_version = hash_format_version;
  created_at = created;
  created_at_canonical = created;
}

abbrev pub or_interval : Option ℕ → ℕ → ℕ
or_interval none d = d
or_interval (some k) d = k

unfoldable pub append_ledger_entry_in_transaction :
    Noble → Host → AppendLedgerInput → Db → Throws (LedgerEntryRow × Db)
append_ledger_entry_in_transaction n host input db = do
  assert_ledger_hash_fields input.request_hash input.response_hash input.execution_graph_hash none
  let created = or_default input.created_at_canonical host.now
  assert_canonical_utc_timestamp created_at_canonical created
  let states = ensure_state input.organization_id db.chain_state
  locked ← or_throw chain_state_missing (find_state input.organization_id states)
  let next = locked.latest_sequence + 1
  let previous = locked.latest_entry_hash
  assert_sha256_hex previous_entry_hash previous
  hash ← compute_entry_hash n (build_hash_payload (next_payload input created next previous))
  assert_sha256_hex entry_hash (some hash)
  checkpoint ←
      make_checkpoint n input.organization_id
        (or_interval input.merkle_snapshot_interval host.default_merkle_interval) next hash db
  let row = new_row host input created next previous hash checkpoint
  written ← follow_up input.entry_type input row (record db {
    chain_state = update_state input.organization_id next hash states;
    ledger_entries = db.ledger_entries ++ row ∷ [];
    merkle_checkpoints =
        insert_checkpoint host input.organization_id next created checkpoint db.merkle_checkpoints;
  })
  ok (row, written)

-- COMMIT where the body returned, and ROLLBACK where it threw: the error is raised again.
unfoldable pub commit_or_rollback {ℓ} : {A : Type ℓ} → Throws (A × Db) → Db → Throws A × Db
commit_or_rollback (ok (a, db')) db = (ok a, db')
commit_or_rollback (throw e) db = (throw e, db)

unfoldable pub in_transaction {ℓ} : {A : Type ℓ} → (Db → Throws (A × Db)) → Db → Throws A × Db
in_transaction body db = commit_or_rollback (body db) db

unfoldable pub append_ledger_entry :
    Noble → Host → AppendLedgerInput → Db → Throws LedgerEntryRow × Db
append_ledger_entry n host input = in_transaction (append_ledger_entry_in_transaction n host input)

unfoldable pub get_merkle_checkpoints : Str → Db → List MerkleCheckpointRow
get_merkle_checkpoints org db =
    sort_by (λ a b. ltb a.through_sequence b.through_sequence)
      (select (λ c. str_eq c.organization_id org) db.merkle_checkpoints)

-- Array.prototype.indexOf
unfoldable pub index_of : Str → List Str → Option ℕ
index_of a [] = none
index_of a (x ∷ xs) =
    let rest = index_of a xs in
    if str_eq x a then some 0 else elim rest [ none ↦ none | some i ↦ some (suc i) ]

unfoldable pub proof_for_leaf : Noble → List Str → Str → Throws MerkleProof
proof_for_leaf n leaf_hashes leaf_hash = do
  index ← or_throw leaf_not_present (index_of leaf_hash leaf_hashes)
  get_merkle_proof n leaf_hashes index
