-- ===== src/Kernel/Bundle/Evidence.antt =====
-- verifyEvidenceBundle of verify/verify.ts: the contents of an accepted bundle.
use verity_os_v.Base.{
  Str, sort_by, is_empty, false, List, [], ◌∷◌, none, some, ok, select, All, ◌≡◌,
}
use verity_os_v.Kernel.Error.{Error}
use verity_os_v.Kernel.Noble.{Noble}
use verity_os_v.Kernel.Rows.{ExecutionRow, ExecutionEventRow}
use verity_os_v.Kernel.Graph.{
  ExecutionGraphV2, build_execution_graph_v2, compute_execution_graph_hash,
}
use verity_os_v.Kernel.Ledger.Chain.{Chain}
use verity_os_v.Kernel.Verify.{ExportedEntry, exported_lt, verify_merkle_checkpoints}
use verity_os_v.Kernel.Verify.ChainCheck.{rows}
use verity_os_v.Kernel.Bundle.{
  EvidenceBundle, GraphExport, execution_at, is_graph_bearing, related_events, exports_of,
}

-- The graph rebuilt from the exported events has the hash that the entry holds.
pub record IsRebuilt (n : Noble) (execution : ExecutionRow) (related : List ExecutionEventRow)
    (e : ExportedEntry) : Type 0 where
  pub graph : ExecutionGraphV2
  pub built : build_execution_graph_v2 execution related ≡ ok graph
  pub hash : Str
  pub hashed : compute_execution_graph_hash n graph ≡ ok hash
  pub agrees :
      (expected : Str)
      → e.execution_graph_hash ≡ some expected
      → is_empty expected ≡ false
      → expected ≡ hash

-- The execution of the entry is in the bundle, of its organization, with events and one graph.
pub record IsAttested (n : Noble) (b : EvidenceBundle) (e : ExportedEntry) : Type 0 where
  pub execution : ExecutionRow
  pub found : execution_at e.execution_id b.executions ≡ some execution
  pub organization_is : execution.organization_id ≡ b.organization_id
  pub export : GraphExport
  pub exported : exports_of e.execution_id b.execution_graphs ≡ export ∷ []
  pub rebuilt : IsRebuilt n execution (related_events e.execution_id b.execution_events) e

pub record IsEvidence (n : Noble) (b : EvidenceBundle) : Type 0 where
  pub no_plaintext : b.includes_plaintext ≡ false
  pub organization_is :
      is_empty b.organization_id ≡ false
      → All (λ e. e.organization_id ≡ b.organization_id) b.ledger_entries
  pub chained : Chain n 1 none (rows (sort_by exported_lt b.ledger_entries))
  pub checkpoints : verify_merkle_checkpoints n b.ledger_entries b.merkle_checkpoints ≡ ok []
  pub graphs : All (IsAttested n b) (select is_graph_bearing b.ledger_entries)
