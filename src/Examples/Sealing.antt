-- ===== src/Examples/Sealing.antt =====
-- The seal of an execution and the export of its organization.
use verity_os_v.Base.{
  Str, codes, List, [], ◌∷◌, Option, none, some, Bool, true, false, ok, ◌≡◌, refl,
}
use verity_os_v.Contracts.{request_opened, final, running, completed}
use verity_os_v.Kernel.Noble.Checksum.{checksum_noble}
use verity_os_v.Kernel.Rows.{ExecutionRow, Db}
use verity_os_v.Kernel.Executions.{get_execution}
use verity_os_v.Kernel.Events.{list_execution_events}
use verity_os_v.Kernel.Verify.{ExportedEntry, verify_organization_chain}
use verity_os_v.Kernel.Verify.ChainCheck.{accepted}
use verity_os_v.Kernel.Bundle.{EvidenceBundle, compare_graph_evidence, org_issues, closes}
use verity_os_v.Kernel.Events.Parents.{IsTimeline}
use verity_os_v.Kernel.Ledger.{find_state}
use verity_os_v.Kernel.Ledger.States.{state_of}
use verity_os_v.Kernel.Seal.{
  Draw, PreludeEvent, SealExecutionInput, SealExecutionResult, seal_execution_in_transaction,
}
use verity_os_v.Kernel.Calls
use verity_os_v.Kernel.Calls.{Call, IsSound, run_calls}
use verity_os_v.Kernel.Export.{export_organization_evidence, graph_export}
use verity_os_v.Kernel.Export.Accepted.{export-accepted, seal-verifies}
use verity_os_v.Examples.Chains.{org, execution, opened, host, asked, exported_as}
use verity_os_v.Examples.Bundles.{created_event}
use verity_os_v.Base
use verity_os_v.Contracts
use verity_os_v.Kernel.Canonicalize
use verity_os_v.Kernel.Canonicalize.Normal
use verity_os_v.Kernel.Events
use verity_os_v.Kernel.Evidence
use verity_os_v.Kernel.Executions
use verity_os_v.Kernel.Export
use verity_os_v.Kernel.Graph
use verity_os_v.Kernel.Hash
use verity_os_v.Kernel.Ledger
use verity_os_v.Kernel.Merkle
use verity_os_v.Kernel.Noble.Checksum
use verity_os_v.Kernel.Seal
use verity_os_v.Kernel.Utf8

-- A ledger with a running execution.
abbrev pub running_db : Db
running_db = record opened { executions = record execution { status = running } ∷ [] }

pub running-IsTimeline : IsTimeline org (codes "e1") running_db
running-IsTimeline = record { numbered = tt; parents = tt }

pub running-IsSound : IsSound checksum_noble org (codes "e1") running_db
unfolding state_of find_state
running-IsSound = record {
  chain = record { chained = tt; sequence_is = refl; hash_is = refl };
  timeline = running-IsTimeline;
}

abbrev pub draw : Str → Draw
draw id = record { id = id; now = codes "2026-01-01T00:00:00.000Z" }

-- The seal of a completed execution, with one event before it.
abbrev sealing : SealExecutionInput
sealing = record {
  organization_id = org;
  execution_id = codes "e1";
  entry_type = final;
  execution_status = completed;
  response_hash = none;
  parent_event_ids = [];
  prelude_events =
      record {
        draw = draw (codes "v1");
        event_type = codes "execution.completed";
        status = codes "ok";
        parent_event_ids = [];
        input_hash = none;
        output_hash = none;
        metadata = [];
        occurred_at_canonical = none;
      }
      ∷ [];
}

sealed :
    (result : SealExecutionResult) × (db : Db) × (seal_execution_in_transaction checksum_noble host
        (draw (codes "v2"))
        sealing
        running_db
      ≡ ok (result, db))
unfolding Base.str_eq Base.str_lt Base.includes Base.sort_by Canonicalize.decimal_digits
    Canonicalize.decimal Canonicalize.stringify_integer Canonicalize.escape Canonicalize.quote_units
    Canonicalize.quote Canonicalize.join_rest Canonicalize.join Canonicalize.sequence
    Canonicalize.encode_entry Canonicalize.canonicalize Normal.to_fields Events.unique_sorted_ids
    Events.assert_event_evidence Events.max_sequence Events.check_parents Events.new_event
    Events.append_execution_event_in_transaction Events.list_execution_events
    Graph.build_execution_graph_v2 Graph.compute_execution_graph_hash Ledger.ensure_state
    Ledger.make_checkpoint Ledger.follow_up Ledger.next_payload
    Ledger.append_ledger_entry_in_transaction Executions.status_eq Executions.transitions
    Executions.assert_execution_transition Executions.get_execution Executions.current_execution
    Executions.set_execution_status Hash.sha256_hex Hash.build_hash_payload Hash.nullable
    Hash.payload_fields Hash.compute_entry_hash Evidence.assert_sha256_hex Evidence.matches
    Evidence.is_iso_date Evidence.assert_canonical_utc_timestamp Evidence.assert_ledger_hash_fields
    Utf8.utf8_unit Utf8.utf8 Seal.load_request_opened_hash Seal.prelude_input Seal.append_preludes
    Seal.seal_event_input Seal.seal_entry_input Seal.seal_from Seal.seal_execution_in_transaction
    verity_os_v.Kernel.Noble.is_sha256_hex Checksum.to_hex Checksum.checksum
    verity_os_v.Kernel.Verify.is_nil Contracts.entry_type_text Contracts.status_text
    Contracts.execution_event_types Canonicalize.encode
sealed = (_, _, refl)

abbrev exported : ExportedEntry
exported = exported_as sealed.0.entry

seal-verifies_example :
    (e : ExecutionRow) × (get_execution org (codes "e1") sealed.1 ≡ some e)
    × (e.status ≡ completed)
    × (e.final_entry_id ≡ some exported.id)
    × (compare_graph_evidence checksum_noble e
          (list_execution_events sealed.1 org (codes "e1"))
          (graph_export sealed.0.graph sealed.0.graph_hash)
          (some exported)
        ≡ ok [])
seal-verifies_example =
    seal-verifies checksum_noble host (draw (codes "v2")) sealing running_db sealed.1 sealed.0
      exported running-IsTimeline (unfold closes in refl) sealed.2 refl

-- An event and a ledger entry, and then the export.
abbrev kernel_calls : List Call
kernel_calls =
    Calls.records (codes "v1") (codes "2026-01-01T00:00:00.000Z") created_event
    ∷ Calls.enters host (asked request_opened)
    ∷ []

bundle :
    (b : EvidenceBundle) × (export_organization_evidence checksum_noble
        (λ x y. false)
        org
        (run_calls checksum_noble kernel_calls running_db)
      ≡ ok b)
unfolding Base.str_eq Base.str_lt Base.includes Base.sort_by Canonicalize.decimal_digits
    Canonicalize.decimal Canonicalize.stringify_integer Canonicalize.escape Canonicalize.quote_units
    Canonicalize.quote Canonicalize.join_rest Canonicalize.join Canonicalize.sequence
    Canonicalize.encode_entry Canonicalize.canonicalize Normal.to_fields Events.unique_sorted_ids
    Events.assert_event_evidence Events.max_sequence Events.check_parents Events.new_event
    Events.append_execution_event_in_transaction Events.list_execution_events
    Graph.build_execution_graph_v2 Graph.compute_execution_graph_hash Ledger.ensure_state
    Ledger.make_checkpoint Ledger.follow_up Ledger.next_payload
    Ledger.append_ledger_entry_in_transaction Executions.status_eq Executions.transitions
    Executions.assert_execution_transition Executions.get_execution Executions.current_execution
    Executions.set_execution_status Hash.sha256_hex Hash.build_hash_payload Hash.nullable
    Hash.payload_fields Hash.compute_entry_hash Evidence.assert_sha256_hex Evidence.matches
    Evidence.is_iso_date Evidence.assert_canonical_utc_timestamp Evidence.assert_ledger_hash_fields
    Utf8.utf8_unit Utf8.utf8 Seal.load_request_opened_hash Seal.prelude_input Seal.append_preludes
    Seal.seal_event_input Seal.seal_entry_input Seal.seal_from Seal.seal_execution_in_transaction
    verity_os_v.Kernel.Noble.is_sha256_hex Checksum.to_hex Checksum.checksum
    verity_os_v.Kernel.Verify.is_nil Contracts.entry_type_text Contracts.status_text
    Contracts.execution_event_types Canonicalize.encode Export.graph_export Export.execution_graphs
    Export.export_graphs Export.export_entry Export.export_entries Export.executions_of
    Export.export_organization_evidence Export.ledger_row_to_export Ledger.in_transaction
    Ledger.commit_or_rollback Ledger.append_ledger_entry Ledger.get_ledger_entries
    Ledger.get_merkle_checkpoints Events.append_execution_event Graph.flat_map Base.insert_by
    Ledger.new_row Ledger.find_state Merkle.compute_merkle_root Merkle.build_merkle_tree
    Ledger.prior_hashes Merkle.grow Executions.update_status Ledger.insert_checkpoint
    Merkle.get_merkle_proof
bundle = (_, refl)

export-accepted_example :
    (verify_organization_chain checksum_noble bundle.0.ledger_entries ≡ ok accepted)
    × (org_issues org bundle.0.ledger_entries ≡ [])
export-accepted_example =
    export-accepted checksum_noble (λ x y. false) kernel_calls running_db org (codes "e1") bundle.0
      running-IsSound bundle.1
