-- ===== src/Kernel/Export/Accepted.antt =====
-- The export of an organization and its verification.
use verity_os_v.Base.{
  ℕ, suc, ◌-◌, Str, str_eq, str_eq_refl, sort-id, Bool, true, List, [], ◌∷◌, map, Option, none,
  some, ok, >>=-eq-ok, ok-injective, find?, select-All, All, ◌≡◌, refl, sym, ap, ◌∙◌, arith, subst,
}
use verity_os_v.Kernel.Noble.{Noble}
use verity_os_v.Kernel.Rows.{LedgerEntryRow, MerkleCheckpointRow, ExecutionRow, Db}
use verity_os_v.Kernel.Merkle.{get_merkle_proof}
use verity_os_v.Kernel.Ledger.{get_ledger_entries, get_merkle_checkpoints, entries_of}
use verity_os_v.Kernel.Ledger.Chain.{Chain}
use verity_os_v.Kernel.Ledger.Invariant.{get_entries-IsChained}
use verity_os_v.Kernel.Verify.{ExportedEntry, exported_lt, verify_organization_chain}
use verity_os_v.Kernel.Verify.ChainCheck.{rows, accepted, verify-Chain_iff}
use verity_os_v.Kernel.Verify.Tamper.{Chain-exported_Sorted}
use verity_os_v.Kernel.Graph.{ExecutionGraphV2, compute_execution_graph_hash, graph_value}
use verity_os_v.Kernel.Events.{list_execution_events}
use verity_os_v.Kernel.Bundle.{
  EvidenceBundle, org_issues, compare_graph_evidence, compare_built, embedded_issues, ledger_issues,
  is_object, closes,
}
use verity_os_v.Kernel.Calls.{IsSound, Call, run_calls, run_calls-IsSound}
use verity_os_v.Kernel.Seal.{
  Draw, SealExecutionInput, SealExecutionResult, seal_execution_in_transaction,
}
use verity_os_v.Kernel.Seal.Rebuild.{seal-IsSealed}
use verity_os_v.Kernel.Events.Parents.{IsTimeline}
use verity_os_v.Kernel.Ledger.{Host}
use verity_os_v.Kernel.Executions.{get_execution}
use verity_os_v.Kernel.Export.{
  graph_export, export_graphs, executions_of, ledger_row_to_export, export_entry, export_entries,
  covers, export_organization_evidence,
}

export_entry-row :
    (n : Noble) (e : LedgerEntryRow) (c : Option MerkleCheckpointRow) (x : ExportedEntry)
    → export_entry n e c ≡ ok x
    → x.row ≡ ledger_row_to_export e
unfolding export_entry
export_entry-row n e none x h = ap (λ (y : ExportedEntry). y.row) (sym (ok-injective h))
export_entry-row n e (some c) x h =
    let (built, _, made) =
      >>=-eq-ok (get_merkle_proof n c.leaf_hashes (e.organization_sequence - c.from_sequence)) _
        h in
    ap (λ (y : ExportedEntry). y.row) (sym (ok-injective made))

export_entries-rows :
    (n : Noble) (checkpoints : List MerkleCheckpointRow) (es : List LedgerEntryRow)
    (xs : List ExportedEntry)
    → export_entries n checkpoints es ≡ ok xs
    → rows xs ≡ map ledger_row_to_export es
unfolding export_entries
export_entries-rows n checkpoints [] xs h = ap rows (sym (ok-injective h))
export_entries-rows n checkpoints (e ∷ es) xs h =
    let (own, first, h1) = >>=-eq-ok (export_entry n e (find? (covers e) checkpoints)) _ h in
    let (rest, later, h2) = >>=-eq-ok (export_entries n checkpoints es) _ h1 in
    ap rows (sym (ok-injective h2))
    ∙ ap (λ r. r ∷ rows rest) (export_entry-row n e (find? (covers e) checkpoints) own first)
    ∙ ap (λ l. ledger_row_to_export e ∷ l) (export_entries-rows n checkpoints es rest later)

-- The rows of a chain are exported as they are.
stamped_rows :
    (n : Noble) (sequence : ℕ) (previous : Option Str) (es : List LedgerEntryRow)
    → Chain n sequence previous es
    → map ledger_row_to_export es ≡ es
unfolding ledger_row_to_export
stamped_rows n sequence previous [] c = refl
stamped_rows n sequence previous (e ∷ es) c =
    let same : ledger_row_to_export e ≡ e =
      ap (λ t. record e { created_at = t }) (sym c.0.stamped) in
    ap (λ r. r ∷ map ledger_row_to_export es) same
    ∙ ap (λ l. e ∷ l) (stamped_rows n (suc sequence) (some e.entry_hash) es c.1)

own_org_issues :
    (org : Str) (xs : List ExportedEntry)
    → All (λ e. str_eq e.organization_id org ≡ true) (rows xs)
    → org_issues org xs ≡ []
unfolding org_issues
own_org_issues org [] h = refl
own_org_issues org (x ∷ xs) h = ground (arith, own_org_issues org xs h.1, h.0)

-- What an export holds of the ledger.
exported-rows :
    (n : Noble) (earlier : Str → Str → Bool) (org : Str) (db : Db) (bundle : EvidenceBundle)
    → export_organization_evidence n earlier org db ≡ ok bundle
    → rows bundle.ledger_entries ≡ map ledger_row_to_export (get_ledger_entries org db)
unfolding export_organization_evidence
exported-rows n earlier org db bundle h =
    let (graphs, _, h1) = >>=-eq-ok (export_graphs n org db (executions_of earlier org db)) _ h in
    let (xs, exported, h2) =
      >>=-eq-ok (export_entries n (get_merkle_checkpoints org db) (get_ledger_entries org db)) _
        h1 in
    ap (λ (b : EvidenceBundle). rows b.ledger_entries) (sym (ok-injective h2))
    ∙ export_entries-rows n (get_merkle_checkpoints org db) (get_ledger_entries org db) xs exported

-- After any calls of the kernel on a database with a hash chain and a timeline, an export that
-- returns is accepted by verifyOrganizationChain with no issue, and every entry in it is of the
-- exported organization.
pub export-accepted :
    (n : Noble) (earlier : Str → Str → Bool) (calls : List Call) (db : Db) (org execution : Str)
    (bundle : EvidenceBundle)
    → IsSound n org execution db
    → export_organization_evidence n earlier org (run_calls n calls db) ≡ ok bundle
    → (verify_organization_chain n bundle.ledger_entries ≡ ok accepted)
      × (org_issues org bundle.ledger_entries ≡ [])
export-accepted n earlier calls db org execution bundle s h =
    let end = (run_calls-IsSound n org execution calls db s).chain in
    let same : rows bundle.ledger_entries ≡ entries_of org (run_calls n calls db).ledger_entries =
      exported-rows n earlier org (run_calls n calls db) bundle h
      ∙ ap (map ledger_row_to_export) (get_entries-IsChained n org (run_calls n calls db) end)
      ∙ stamped_rows n 1 none _ end.chained in
    let chain : Chain n 1 none (rows bundle.ledger_entries) =
      subst (Chain n 1 none) (sym same) end.chained in
    let ordered =
      sort-id exported_lt bundle.ledger_entries
        (Chain-exported_Sorted n 1 none bundle.ledger_entries chain) in
    (
      (verify-Chain_iff n bundle.ledger_entries).1
          (subst (λ es. Chain n 1 none (rows es)) (sym ordered) chain),
      own_org_issues org bundle.ledger_entries (
          subst (All (λ e. str_eq e.organization_id org ≡ true)) (sym same) (
            select-All (λ (e : LedgerEntryRow). str_eq e.organization_id org)
              (run_calls n calls db).ledger_entries)),
    )

-- The exported graph and the ledger entry, against a graph that was rebuilt.
graph_matches :
    (n : Noble) (graph : ExecutionGraphV2) (hash : Str) (entry : ExportedEntry)
    → compute_execution_graph_hash n graph ≡ ok hash
    → entry.execution_graph_hash ≡ some hash
    → compare_built n (ok graph) (graph_export graph hash) (some entry) ≡ ok []
unfolding compare_built embedded_issues ledger_issues graph_export compute_execution_graph_hash
    graph_value is_object
graph_matches n graph hash entry hashed binds =
    rw (hashed, binds) (ground (arith, str_eq_refl hash))

-- Where sealExecutionInTransaction, with a final or failure entry, returns for an execution with a
-- timeline, the database holds that execution with the new status and entry, and
-- compareGraphEvidence of its events, the exported graph and the exported entry finds no issue.
pub seal-verifies :
    (n : Noble) (host : Host) (draw : Draw) (input : SealExecutionInput) (db db' : Db)
    (result : SealExecutionResult) (entry : ExportedEntry)
    → IsTimeline input.organization_id input.execution_id db
    → closes input.entry_type ≡ true
    → seal_execution_in_transaction n host draw input db ≡ ok (result, db')
    → entry.row ≡ result.entry
    → (execution : ExecutionRow) × (get_execution input.organization_id input.execution_id db'
        ≡ some execution)
      × (execution.status ≡ input.execution_status)
      × (execution.final_entry_id ≡ some entry.id)
      × (compare_graph_evidence n execution
            (list_execution_events db' input.organization_id input.execution_id)
            (graph_export result.graph result.graph_hash)
            (some entry)
          ≡ ok [])
unfolding compare_graph_evidence
seal-verifies n host draw input db db' result entry t c h own =
    let s = seal-IsSealed n host draw input db db' result t c h in
    (
      s.execution,
      s.stored,
      s.status_is,
      s.final_entry ∙ ap (λ (r : LedgerEntryRow). some r.id) (sym own),
      ap (λ r. compare_built n r (graph_export result.graph result.graph_hash) (some entry))
            s.rebuilt
          ∙ graph_matches n result.graph result.graph_hash entry s.hashed
              (ap (λ (r : LedgerEntryRow). r.execution_graph_hash) own ∙ s.entry_binds),
    )
