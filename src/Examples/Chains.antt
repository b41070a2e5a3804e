-- ===== src/Examples/Chains.antt =====
-- A ledger of one organization: appends, status changes, and an export of one entry.
use verity_os_v.Base.{
  Str, codes, List, [], ◌∷◌, none, some, ok, map, sort_by, insert_by, All, str_eq, ◌≡◌, ◌↔◌, refl,
  ap, ◌⊎◌, Option, inr,
}
use verity_os_v.Contracts.{created, running, cancelled, low, request_opened, final, LedgerEntryType}
use verity_os_v.Kernel.Noble.Checksum.{checksum_noble, checksum-Lawful}
use verity_os_v.Kernel.Hash.{hash_format_version, default_kernel_version}
use verity_os_v.Kernel.Hash.Binding.{HasUnits}
use verity_os_v.Kernel.Rows.{LedgerEntryRow, ExecutionRow, Db}
use verity_os_v.Kernel.Executions.{
  status_eq, transitions, assert_execution_transition, get_execution, StatusExtra, coalesce,
  update_status, is_status_target, current_execution, set_execution_status,
}
use verity_os_v.Kernel.Executions.Transitions.{IsStatusChange, set_status-IsStatusChange}
use verity_os_v.Kernel.Executions.Finality.{StatusCall, IsAt, run_calls, run_calls-terminal}
use verity_os_v.Kernel.Ledger.{Host, AppendLedgerInput, find_state, get_ledger_entries}
use verity_os_v.Kernel.Ledger.Chain.{Chain}
use verity_os_v.Kernel.Ledger.States.{state_of}
use verity_os_v.Kernel.Ledger.Invariant.{IsChained, run_appends, run_appends-IsChained}
use verity_os_v.Kernel.Verify.{ExportedEntry, exported_lt, verify_organization_chain}
use verity_os_v.Kernel.Verify.ChainCheck.{rows, accepted, verify-Chain_iff}
use verity_os_v.Kernel.Verify.Tamper.{payloads, ChainsCollide, verify-run_appends, export_binding}
use verity_os_v.Examples.Texts.{payload-HasUnits, payload_hash}

abbrev pub org : Str
org = codes "acme"

abbrev pub execution : ExecutionRow
execution = record {
  id = codes "e1";
  verity_record_id = codes "VR-1";
  organization_id = org;
  actor_id = none;
  session_id = none;
  skill_id = none;
  status = created;
  risk_tier = low;
  policy_version = none;
  retention_mode = none;
  started_at = codes "2026-01-01T00:00:00.000Z";
  completed_at = none;
  final_entry_id = none;
}

-- A ledger with an open execution and no entry.
abbrev pub opened : Db
opened = record {
  chain_state = [];
  ledger_entries = [];
  merkle_checkpoints = [];
  executions = execution ∷ [];
  execution_events = [];
}

opened-IsChained : IsChained checksum_noble org opened
unfolding state_of find_state
opened-IsChained = record { chained = tt; sequence_is = refl; hash_is = refl }

abbrev pub host : Host
host = record {
  now = codes "2026-01-01T00:00:00.000Z";
  entry_id = codes "l1";
  checkpoint_id = codes "c1";
  default_merkle_interval = 10;
}

abbrev pub asked : LedgerEntryType → AppendLedgerInput
asked t = record {
  organization_id = org;
  execution_id = codes "e1";
  entry_type = t;
  request_hash = none;
  response_hash = none;
  execution_graph_hash = none;
  merkle_snapshot_interval = some 1;
  created_at_canonical = none;
  kernel_version = none;
  execution_status = none;
}

abbrev calls : List (Host × AppendLedgerInput)
calls = (host, asked request_opened) ∷ (host, asked final) ∷ []

run_appends-IsChained_example :
    IsChained checksum_noble org (run_appends checksum_noble calls opened)
run_appends-IsChained_example =
    run_appends-IsChained checksum_noble calls opened org opened-IsChained

abbrev pub exported_as : LedgerEntryRow → ExportedEntry
exported_as row = record { row = row; merkle_proof = none }

rows-exported : (es : List LedgerEntryRow) → rows (map exported_as es) ≡ es
rows-exported [] = refl
rows-exported (e ∷ es) = ap (λ t. e ∷ t) (rows-exported es)

-- The export of the organization after the appends.
abbrev exported : List ExportedEntry
exported = map exported_as (get_ledger_entries org (run_appends checksum_noble calls opened))

verify-run_appends_example : verify_organization_chain checksum_noble exported ≡ ok accepted
verify-run_appends_example =
    verify-run_appends checksum_noble calls opened org exported opened-IsChained
      (rows-exported (get_ledger_entries org (run_appends checksum_noble calls opened)))

-- An export of one entry, hashed as its payload.
abbrev pub first : LedgerEntryRow
first = record {
  id = codes "l1";
  organization_id = org;
  organization_sequence = 1;
  execution_id = codes "e1";
  entry_type = request_opened;
  request_hash = none;
  response_hash = none;
  execution_graph_hash = none;
  previous_entry_hash = none;
  entry_hash = payload_hash.0;
  merkle_root = none;
  kernel_version = default_kernel_version;
  hash_format_version = hash_format_version;
  created_at = codes "2026-01-01T00:00:00.000Z";
  created_at_canonical = codes "2026-01-01T00:00:00.000Z";
}

abbrev pub one : List ExportedEntry
one = exported_as first ∷ []

first-Chain : Chain checksum_noble 1 none (rows one)
first-Chain = (
  record {
    sequence_is = refl;
    previous_is = refl;
    hashed = payload_hash.1;
    format_is = refl;
    stamped = refl;
  },
  tt,
)

sorted_one : sort_by exported_lt one ≡ one
unfolding sort_by insert_by
sorted_one = refl

verify-Chain_iff_example :
    (verify_organization_chain checksum_noble one ≡ ok accepted)
    ↔ Chain checksum_noble 1 none (rows (sort_by exported_lt one))
verify-Chain_iff_example = verify-Chain_iff checksum_noble one

pub one-accepted : verify_organization_chain checksum_noble one ≡ ok accepted
unfolding sort_by insert_by
one-accepted = (verify-Chain_iff checksum_noble one).1 first-Chain

one-HasUnits : All HasUnits (payloads (rows (sort_by exported_lt one)))
unfolding sort_by insert_by
one-HasUnits = (payload-HasUnits, tt)

export_binding_example :
    (payloads (rows (sort_by exported_lt one)) ≡ payloads (rows (sort_by exported_lt one)))
    ⊎ ChainsCollide checksum_noble
        (payloads (rows (sort_by exported_lt one)))
        (payloads (rows (sort_by exported_lt one)))
export_binding_example =
    export_binding checksum_noble checksum-Lawful one one one-accepted one-accepted one-HasUnits
      one-HasUnits refl

abbrev in_org : StatusExtra
in_org = record { organization_id = some org; final_entry_id = none; completed_at = none }

started : (db : Db) × (set_execution_status (codes "e1") running in_org opened ≡ ok db)
unfolding set_execution_status current_execution get_execution assert_execution_transition status_eq
    transitions update_status str_eq coalesce is_status_target
started = (_, refl)

set_status-IsStatusChange_example : IsStatusChange org (codes "e1") running in_org opened started.0
set_status-IsStatusChange_example =
    set_status-IsStatusChange org (codes "e1") running in_org opened started.0 refl started.1

abbrev cancelled_db : Db
cancelled_db = record opened { executions = record execution { status = cancelled } ∷ [] }

abbrev restart : Option Str → StatusCall
restart organization = record {
  organization_id = organization;
  execution_id = codes "e1";
  status = running;
  final_entry_id = none;
  completed_at = none;
}

cancelled_there : IsAt org (codes "e1") cancelled cancelled_db
unfolding get_execution str_eq
cancelled_there = record {
  there = (record execution { status = cancelled }, refl, refl);
  all = (λ same. refl, tt);
}

run_calls-terminal_example :
    IsAt org
      (codes "e1")
      cancelled
      (run_calls (restart (some org) ∷ restart none ∷ []) cancelled_db)
run_calls-terminal_example =
    run_calls-terminal (restart (some org) ∷ restart none ∷ []) org (codes "e1") cancelled
      cancelled_db (inr (inr (inr refl))) cancelled_there
