-- ===== src/Kernel/Ledger/Append.antt =====
-- appendLedgerEntryInTransaction of ledger/append.ts: what it has read and written where it
-- returns.
use verity_os_v.Base.{
  or_throw-ok, ℕ, ◌+◌, Str, [], ◌∷◌, ◌++◌, Option, none, some, ok, >>=-eq-ok, ok-pair, or_throw,
  ◌≡◌, refl, sym, ap, ◌∙◌,
}
use verity_os_v.Contracts.{
  LedgerEntryType, request_opened, approval_requested, action_completed, final, failure,
}
use verity_os_v.Kernel.Error.{
  chain_state_missing, created_at_canonical, previous_entry_hash, entry_hash,
}
use verity_os_v.Kernel.Noble.{Noble, IsHash}
use verity_os_v.Kernel.Evidence.{
  assert_sha256_hex, assert_sha256_hex-ok, assert_canonical_utc_timestamp,
  assert_ledger_hash_fields,
}
use verity_os_v.Kernel.Hash.{build_hash_payload, compute_entry_hash, or_default}
use verity_os_v.Kernel.Rows.{LedgerEntryRow, ChainStateRow, Db}
use verity_os_v.Kernel.Executions.{StatusExtra, set_execution_status}
use verity_os_v.Kernel.Executions.Transitions.{set_status-IsStatusChange}
use verity_os_v.Kernel.Ledger.{
  Host, AppendLedgerInput, find_state, ensure_state, update_state, make_checkpoint, Checkpoint,
  insert_checkpoint, follow_up, next_payload, new_row, or_interval,
  append_ledger_entry_in_transaction,
}

-- The tables that a follow-up leaves alone.
pub record KeepsLedger (db db' : Db) : Type 0 where
  pub chain_state : db'.chain_state ≡ db.chain_state
  pub ledger_entries : db'.ledger_entries ≡ db.ledger_entries
  pub merkle_checkpoints : db'.merkle_checkpoints ≡ db.merkle_checkpoints

status-KeepsLedger :
    (org id : Str) (status : _) (extra : StatusExtra) (db db' : Db)
    → extra.organization_id ≡ some org
    → set_execution_status id status extra db ≡ ok db'
    → KeepsLedger db db'
status-KeepsLedger org id status extra db db' eo h =
    let ch = set_status-IsStatusChange org id status extra db db' eo h in
    record {
      chain_state = ch.chain_state;
      ledger_entries = ch.ledger_entries;
      merkle_checkpoints = ch.merkle_checkpoints;
    }

follow_up-KeepsLedger :
    (t : LedgerEntryType) (input : AppendLedgerInput) (row : LedgerEntryRow) (db db' : Db)
    → follow_up t input row db ≡ ok db'
    → KeepsLedger db db'
unfolding follow_up
follow_up-KeepsLedger request_opened input row db db' h =
    status-KeepsLedger input.organization_id _ _ _ db db' refl h
follow_up-KeepsLedger approval_requested input row db db' h =
    status-KeepsLedger input.organization_id _ _ _ db db' refl h
follow_up-KeepsLedger action_completed input row db db' h =
    let same : db' ≡ db = cc in
    rw same (record { chain_state = refl; ledger_entries = refl; merkle_checkpoints = refl })
follow_up-KeepsLedger final input row db db' h =
    status-KeepsLedger input.organization_id _ _ _ db db' refl h
follow_up-KeepsLedger failure input row db db' h =
    status-KeepsLedger input.organization_id _ _ _ db db' refl h

pub follow_up-KeepsEvents :
    (t : LedgerEntryType) (input : AppendLedgerInput) (row : LedgerEntryRow) (db db' : Db)
    → follow_up t input row db ≡ ok db'
    → db'.execution_events ≡ db.execution_events
unfolding follow_up
follow_up-KeepsEvents request_opened input row db db' h =
    (set_status-IsStatusChange input.organization_id _ _ _ db db' refl h).execution_events
follow_up-KeepsEvents approval_requested input row db db' h =
    (set_status-IsStatusChange input.organization_id _ _ _ db db' refl h).execution_events
follow_up-KeepsEvents action_completed input row db db' h =
    let same : db' ≡ db = cc in ap (λ d. d.execution_events) same
follow_up-KeepsEvents final input row db db' h =
    (set_status-IsStatusChange input.organization_id _ _ _ db db' refl h).execution_events
follow_up-KeepsEvents failure input row db db' h =
    (set_status-IsStatusChange input.organization_id _ _ _ db db' refl h).execution_events

-- The locked state, the hash and the checkpoint of an append, and what it wrote.
pub record Appended (n : Noble) (host : Host) (input : AppendLedgerInput) (db : Db)
    (row : LedgerEntryRow) (db' : Db) : Type 0 where
  pub locked : ChainStateRow
  pub hash : Str
  pub checkpoint : Option Checkpoint
  pub created : Str
  pub created_is : created ≡ or_default input.created_at_canonical host.now
  pub found :
      find_state input.organization_id (ensure_state input.organization_id db.chain_state)
      ≡ some locked
  pub hashed :
      compute_entry_hash n (
        build_hash_payload
          (next_payload input created (locked.latest_sequence + 1) locked.latest_entry_hash))
      ≡ ok hash
  pub hash_IsHash : IsHash hash
  pub checkpointed :
      make_checkpoint n input.organization_id
        (or_interval input.merkle_snapshot_interval host.default_merkle_interval)
        (locked.latest_sequence + 1)
        hash
        db
      ≡ ok checkpoint
  pub row_is :
      row
      ≡ new_row host input created
          (locked.latest_sequence + 1)
          locked.latest_entry_hash
          hash
          checkpoint
  pub states :
      db'.chain_state
      ≡ update_state input.organization_id
          (locked.latest_sequence + 1)
          hash
          (ensure_state input.organization_id db.chain_state)
  pub entries : db'.ledger_entries ≡ db.ledger_entries ++ row ∷ []
  pub checkpoints :
      db'.merkle_checkpoints
      ≡ insert_checkpoint host input.organization_id
          (locked.latest_sequence + 1)
          created
          checkpoint
          db.merkle_checkpoints
  pub base : Db
  pub base_executions : base.executions ≡ db.executions
  pub base_events : base.execution_events ≡ db.execution_events
  pub followed : follow_up input.entry_type input row base ≡ ok db'

-- The commit of an append, its parts computed.
module _ (n : Noble) (host : Host) (input : AppendLedgerInput) (db : Db) (locked : ChainStateRow)
    (hash : Str) (checkpoint : Option Checkpoint) where
  next : ℕ
  next = locked.latest_sequence + 1

  made_at : Str
  made_at = or_default input.created_at_canonical host.now

  made : LedgerEntryRow
  unfolding next made_at
  made = new_row host input made_at next locked.latest_entry_hash hash checkpoint

  inserted : Db
  unfolding made next made_at
  inserted = record db {
    chain_state =
        update_state input.organization_id next hash
          (ensure_state input.organization_id db.chain_state);
    ledger_entries = db.ledger_entries ++ made ∷ [];
    merkle_checkpoints =
        insert_checkpoint host input.organization_id next made_at checkpoint db.merkle_checkpoints;
  }

  committed :
      (row : LedgerEntryRow) (written db' : Db)
      → follow_up input.entry_type input made inserted ≡ ok written
      → row ≡ made
      → db' ≡ written
      → find_state input.organization_id (ensure_state input.organization_id db.chain_state)
        ≡ some locked
      → compute_entry_hash n
          (build_hash_payload (next_payload input made_at next locked.latest_entry_hash))
        ≡ ok hash
      → IsHash hash
      → make_checkpoint n input.organization_id
          (or_interval input.merkle_snapshot_interval host.default_merkle_interval)
          next
          hash
          db
        ≡ ok checkpoint
      → Appended n host input db row db'
  unfolding inserted made next made_at
  committed row written db' follows same_row same_db found hashed h checkpointed =
      let keeps = follow_up-KeepsLedger input.entry_type input made inserted written follows in
      record {
        locked = locked;
        hash = hash;
        checkpoint = checkpoint;
        created = made_at;
        created_is = refl;
        found = found;
        hashed = hashed;
        hash_IsHash = h;
        checkpointed = checkpointed;
        row_is = same_row;
        states = ap (λ d. d.chain_state) same_db ∙ keeps.chain_state;
        entries =
            ap (λ d. d.ledger_entries) same_db
            ∙ keeps.ledger_entries
            ∙ ap (λ r. db.ledger_entries ++ r ∷ []) (sym same_row);
        checkpoints = ap (λ d. d.merkle_checkpoints) same_db ∙ keeps.merkle_checkpoints;
        base = inserted;
        base_executions = refl;
        base_events = refl;
        followed =
            ap (λ r. follow_up input.entry_type input r inserted) same_row
            ∙ (follows ∙ ap ok (sym same_db));
      }

pub append-Appended :
    (n : Noble) (host : Host) (input : AppendLedgerInput) (db : Db) (row : LedgerEntryRow)
    (db' : Db)
    → append_ledger_entry_in_transaction n host input db ≡ ok (row, db')
    → Appended n host input db row db'
unfolding append_ledger_entry_in_transaction inserted made next made_at
append-Appended n host input db row db' h =
    let created : Str = or_default input.created_at_canonical host.now in
    let (_, _, h1) =
      >>=-eq-ok
        (assert_ledger_hash_fields input.request_hash input.response_hash input.execution_graph_hash
          none)
        _ h in
    let (_, _, h2) = >>=-eq-ok (assert_canonical_utc_timestamp created_at_canonical created) _ h1 in
    let (locked, el, h3) =
      >>=-eq-ok
        (or_throw chain_state_missing
          (find_state input.organization_id (ensure_state input.organization_id db.chain_state)))
        _ h2 in
    let (_, _, h4) =
      >>=-eq-ok (assert_sha256_hex previous_entry_hash locked.latest_entry_hash) _ h3 in
    let (hash, eh, h5) =
      >>=-eq-ok
        (compute_entry_hash n (
          build_hash_payload
            (next_payload input created (locked.latest_sequence + 1) locked.latest_entry_hash)))
        _ h4 in
    let (u, ea, h6) = >>=-eq-ok (assert_sha256_hex entry_hash (some hash)) _ h5 in
    let (checkpoint, ec, h7) =
      >>=-eq-ok
        (make_checkpoint n input.organization_id
          (or_interval input.merkle_snapshot_interval host.default_merkle_interval)
          (locked.latest_sequence + 1) hash db)
        _ h6 in
    let (written, ew, h8) = >>=-eq-ok (follow_up input.entry_type input _ _) _ h7 in
    let (same_row, same_db) = ok-pair h8 refl in
    committed n host input db locked hash checkpoint row written db' ew same_row same_db
      (or_throw-ok chain_state_missing _ el) eh (assert_sha256_hex-ok entry_hash (some hash) ea) ec
