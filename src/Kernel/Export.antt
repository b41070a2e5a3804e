-- ===== src/Kernel/Export.antt =====
-- export/bundle.ts: the evidence bundle of an organization. The order of `started_at` is that of
-- the database's timestamps.
pub mod Accepted
use verity_os_v.Base.{
  ◌-◌, Str, str_eq, sort_by, Bool, false, ◌&&◌, List, [], ◌∷◌, ◌++◌, Option, none, some, ok, ◌>>=◌,
  find?, select, leb,
}
use verity_os_v.Contracts.{status_text}
use verity_os_v.Kernel.Error.{Throws}
use verity_os_v.Kernel.Noble.{Noble}
use verity_os_v.Kernel.Rows.{
  LedgerEntryRow, MerkleCheckpointRow, ExecutionRow, ExecutionEventRow, Db,
}
use verity_os_v.Kernel.Merkle.{get_merkle_proof}
use verity_os_v.Kernel.Ledger.{get_ledger_entries, get_merkle_checkpoints}
use verity_os_v.Kernel.Events.{list_execution_events}
use verity_os_v.Kernel.Graph.{
  ExecutionGraphV2, build_execution_graph_v2, compute_execution_graph_hash, graph_value, flat_map,
}
use verity_os_v.Kernel.Verify.{ExportedEntry}
use verity_os_v.Kernel.Bundle.{EvidenceBundle, GraphExport}

unfoldable pub graph_export : ExecutionGraphV2 → Str → GraphExport
graph_export graph hash = record {
  schema_version = graph.schema_version;
  execution_id = graph.execution_id;
  verity_record_id = graph.verity_record_id;
  organization_id = graph.organization_id;
  status = status_text graph.status;
  graph_hash = hash;
  graph = graph_value graph;
}

-- `graphs.push(…)` for one execution; one with no events has no graph.
unfoldable pub execution_graphs :
    Noble → ExecutionRow → List ExecutionEventRow → Throws (List GraphExport)
unfolding graph_export
execution_graphs n execution [] = ok []
execution_graphs n execution (e ∷ events) = do
  graph ← build_execution_graph_v2 execution (e ∷ events)
  hash ← compute_execution_graph_hash n graph
  ok (graph_export graph hash ∷ [])

-- The loop over the executions.
unfoldable pub export_graphs : Noble → Str → Db → List ExecutionRow → Throws (List GraphExport)
export_graphs n org db [] = ok []
export_graphs n org db (x ∷ xs) = do
  own ← execution_graphs n x (list_execution_events db org x.id)
  rest ← export_graphs n org db xs
  ok (own ++ rest)

abbrev pub covers : LedgerEntryRow → MerkleCheckpointRow → Bool
covers entry c =
    leb c.from_sequence entry.organization_sequence
    && leb entry.organization_sequence c.through_sequence

-- ledgerRowToExport
unfoldable pub ledger_row_to_export : LedgerEntryRow → LedgerEntryRow
ledger_row_to_export entry = record entry { created_at = entry.created_at_canonical }

unfoldable pub export_entry :
    Noble → LedgerEntryRow → Option MerkleCheckpointRow → Throws ExportedEntry
export_entry n entry none = ok (record { row = ledger_row_to_export entry; merkle_proof = none })
export_entry n entry (some c) = do
  built ← get_merkle_proof n c.leaf_hashes (entry.organization_sequence - c.from_sequence)
  ok (record { row = ledger_row_to_export entry; merkle_proof = some built.proof })

unfoldable pub export_entries :
    Noble → List MerkleCheckpointRow → List LedgerEntryRow → Throws (List ExportedEntry)
export_entries n checkpoints [] = ok []
export_entries n checkpoints (e ∷ es) = do
  own ← export_entry n e (find? (covers e) checkpoints)
  rest ← export_entries n checkpoints es
  ok (own ∷ rest)

unfoldable pub executions_of : (Str → Str → Bool) → Str → Db → List ExecutionRow
executions_of earlier org db =
    sort_by (λ a b. earlier a.started_at b.started_at)
      (select (λ e. str_eq e.organization_id org) db.executions)

unfoldable pub export_organization_evidence :
    Noble → (Str → Str → Bool) → Str → Db → Throws EvidenceBundle
unfolding flat_map
export_organization_evidence n earlier org db = do
  let entries = get_ledger_entries org db
  let checkpoints = get_merkle_checkpoints org db
  let executions = executions_of earlier org db
  graphs ← export_graphs n org db executions
  exported ← export_entries n checkpoints entries
  ok (record {
    organization_id = org;
    includes_plaintext = false;
    ledger_entries = exported;
    executions = executions;
    merkle_checkpoints = checkpoints;
    execution_events = flat_map (λ x. list_execution_events db org x.id) executions;
    execution_graphs = graphs;
  })
