-- ===== src/Kernel/Bundle.antt =====
-- verify/verify.ts: the checks on a whole evidence bundle, its execution graphs included.
pub mod Evidence
use verity_os_v.Base.{
  ℕ, Str, str_eq, is_empty, Bool, true, false, not, ◌&&◌, ◌||◌, List, [], ◌∷◌, ◌++◌, map, Option,
  none, some, ok, throw, ◌>>=◌, select, if◌then◌else◌, includes,
}
use verity_os_v.Contracts.{
  LedgerEntryType, request_opened, approval_requested, action_completed, final, failure,
}
use verity_os_v.Kernel.Error.{Throws, Error, unresolved_graph_parent}
use verity_os_v.Kernel.Noble.{Noble}
use verity_os_v.Kernel.Canonicalize.{
  Value, null, boolean, integer, non_integer, string, array, object, unsupported,
}
use verity_os_v.Kernel.Rows.{ExecutionRow, ExecutionEventRow, MerkleCheckpointRow}
use verity_os_v.Kernel.Graph.{
  ExecutionGraphV2, build_execution_graph_v2, hash_graph_value, compute_execution_graph_hash,
}
use verity_os_v.Kernel.Verify.{
  ExportedEntry, IssueCode, VerifyIssue, VerifyResult, is_nil, issue_if, issue_at, issue_on,
  result_of, verify_organization_chain, verify_merkle_checkpoints, plaintext_export, org_mismatch,
  graph_evidence_missing, graph_duplicate, graph_events_missing, graph_org_mismatch,
  graph_hash_mismatch, graph_evidence_mismatch, graph_ledger_mismatch, graph_parent_unresolved,
}

pub record GraphExport : Type 0 where
  pub schema_version : Str
  pub execution_id : Str
  pub verity_record_id : Str
  pub organization_id : Str
  pub status : Str
  pub graph_hash : Str
  pub graph : Value

-- The manifest's two fields that the verifier reads, and the tables; an absent table is empty.
pub record EvidenceBundle : Type 0 where
  pub organization_id : Str
  pub includes_plaintext : Bool
  pub ledger_entries : List ExportedEntry
  pub executions : List ExecutionRow
  pub merkle_checkpoints : List MerkleCheckpointRow
  pub execution_events : List ExecutionEventRow
  pub execution_graphs : List GraphExport

-- `new Map(bundle.executions.map((row) => [row.id, row]))`: the last row of an id stands.
unfoldable pub execution_at : Str → List ExecutionRow → Option ExecutionRow
execution_at id [] = none
execution_at id (e ∷ es) =
    let later = execution_at id es in
    elim later [ some x ↦ some x | none ↦ if str_eq e.id id then some e else none ]

-- graph && typeof graph === "object"
unfoldable pub is_object : Value → Bool
is_object null = false
is_object (boolean b) = false
is_object (integer negative n) = false
is_object non_integer = false
is_object (string s) = false
is_object (array xs) = true
is_object (object fs) = true
is_object unsupported = false

unfoldable pub sequence_of : Option ExportedEntry → Option ℕ
sequence_of none = none
sequence_of (some e) = some e.organization_sequence

unfoldable pub entry_hash_of : Option ExportedEntry → Option Str
entry_hash_of none = none
entry_hash_of (some e) = some e.entry_hash

abbrev pub graph_issue : IssueCode → Option ExportedEntry → VerifyIssue
graph_issue code entry = record { code = code; sequence = sequence_of entry; entry_hash = none }

-- catch (err): an unresolved parent is an issue, any other error is raised again.
unfoldable pub unresolved_issue : Error → Option ExportedEntry → Throws (List VerifyIssue)
unresolved_issue (unresolved_graph_parent ids) entry = ok (
    record {
      code = graph_parent_unresolved;
      sequence = sequence_of entry;
      entry_hash = entry_hash_of entry;
    }
    ∷ [])
unresolved_issue e entry = throw e

unfoldable pub embedded_issues :
    Noble → GraphExport → Str → Option ExportedEntry → Throws (List VerifyIssue)
embedded_issues n export recomputed entry =
    if is_object export.graph
    then (do
      embedded ← hash_graph_value n export.graph
      ok (
          issue_if (not (str_eq embedded export.graph_hash) || not (str_eq embedded recomputed))
            (graph_issue graph_evidence_mismatch entry)))
    else ok []

-- `expectedLedgerHash && expectedLedgerHash !== recomputed`
unfoldable pub ledger_issues : Str → Option ExportedEntry → List VerifyIssue
ledger_issues recomputed none = []
ledger_issues recomputed (some e) = elim e.execution_graph_hash [
  | none ↦ []
  | some expected ↦
      issue_if (not (is_empty expected) && not (str_eq expected recomputed))
        (issue_on graph_ledger_mismatch e)
]

-- The comparison from the rebuilt graph, or the error of building it, on.
unfoldable pub compare_built :
    Noble → Throws ExecutionGraphV2 → GraphExport → Option ExportedEntry → Throws (List VerifyIssue)
unfolding unresolved_issue embedded_issues ledger_issues
compare_built n (throw e) export entry = unresolved_issue e entry
compare_built n (ok graph) export entry = do
  recomputed ← compute_execution_graph_hash n graph
  embedded ← embedded_issues n export recomputed entry
  ok (
      issue_if (not (str_eq recomputed export.graph_hash)) (graph_issue graph_hash_mismatch entry)
      ++ (embedded ++ ledger_issues recomputed entry))

unfoldable pub compare_graph_evidence :
    Noble
    → ExecutionRow
    → List ExecutionEventRow
    → GraphExport
    → Option ExportedEntry
    → Throws (List VerifyIssue)
compare_graph_evidence n execution related export entry =
    compare_built n (build_execution_graph_v2 execution related) export entry

unfoldable pub closes : LedgerEntryType → Bool
closes request_opened = false
closes approval_requested = false
closes action_completed = false
closes final = true
closes failure = true

unfoldable pub has_hash : Option Str → Bool
has_hash none = false
has_hash (some h) = true

unfoldable pub is_graph_bearing : ExportedEntry → Bool
unfolding closes has_hash
is_graph_bearing e = closes e.entry_type && has_hash e.execution_graph_hash

abbrev pub related_events : Str → List ExecutionEventRow → List ExecutionEventRow
related_events execution = select (λ e. str_eq e.execution_id execution)

abbrev pub exports_of : Str → List GraphExport → List GraphExport
exports_of execution = select (λ g. str_eq g.execution_id execution)

-- `!execution || execution.organization_id !== bundle.manifest.organization_id`
unfoldable pub is_foreign : Str → Option ExecutionRow → Bool
is_foreign org none = true
is_foreign org (some e) = not (str_eq e.organization_id org)

-- The issue on the number of graphs that are exported for an execution.
unfoldable pub count_issues : List GraphExport → ExportedEntry → List VerifyIssue
count_issues [] entry = issue_on graph_evidence_missing entry ∷ []
count_issues (g ∷ []) entry = []
count_issues (g ∷ h ∷ rest) entry = issue_on graph_duplicate entry ∷ []

unfoldable pub compare_one :
    Noble
    → Option ExecutionRow
    → List ExecutionEventRow
    → List GraphExport
    → ExportedEntry
    → Throws (List VerifyIssue)
compare_one n (some execution) (e ∷ related) (g ∷ []) entry =
    compare_graph_evidence n execution (e ∷ related) g (some entry)
compare_one n execution related exported entry = ok []

-- The body of the loop over the graph-bearing entries.
unfoldable pub bearing_issues : Noble → EvidenceBundle → ExportedEntry → Throws (List VerifyIssue)
unfolding is_foreign count_issues compare_one
bearing_issues n b entry = do
  let execution = execution_at entry.execution_id b.executions
  let exported = exports_of entry.execution_id b.execution_graphs
  let related = related_events entry.execution_id b.execution_events
  compared ← compare_one n execution related exported entry
  ok (
      issue_if (is_foreign b.organization_id execution) (issue_on graph_evidence_missing entry)
      ++ (count_issues exported entry
          ++ (issue_if (is_nil related) (issue_on graph_events_missing entry) ++ compared)))

-- A loop that collects issues.
unfoldable pub collect {ℓ} :
    {A : Type ℓ} → (A → Throws (List VerifyIssue)) → List A → Throws (List VerifyIssue)
collect body [] = ok []
collect body (x ∷ xs) = do own ← body x; rest ← collect body xs; ok (own ++ rest)

abbrev pub bare_issue : IssueCode → VerifyIssue
bare_issue code = record { code = code; sequence = none; entry_hash = none }

unfoldable pub compare_free :
    Noble
    → EvidenceBundle
    → GraphExport
    → Option ExecutionRow
    → List ExecutionEventRow
    → Throws (List VerifyIssue)
compare_free n b export none related = ok (bare_issue graph_org_mismatch ∷ [])
compare_free n b export (some execution) related =
    if not (str_eq execution.organization_id b.organization_id)
    then ok (bare_issue graph_org_mismatch ∷ [])
    else if is_nil related
    then ok (bare_issue graph_events_missing ∷ [])
    else compare_graph_evidence n execution related export none

-- The body of the loop over the graphs: those of a graph-bearing entry are checked already.
unfoldable pub free_issues :
    Noble → EvidenceBundle → List Str → GraphExport → Throws (List VerifyIssue)
unfolding compare_free
free_issues n b checked export =
    if includes checked export.execution_id
    then ok []
    else compare_free n b export (execution_at export.execution_id b.executions)
        (related_events export.execution_id b.execution_events)

unfoldable pub verify_execution_graphs : Noble → EvidenceBundle → Throws (List VerifyIssue)
unfolding collect bearing_issues free_issues
verify_execution_graphs n b = do
  let bearing = select is_graph_bearing b.ledger_entries
  own ← collect (bearing_issues n b) bearing
  free ← collect (free_issues n b (map (λ e. e.execution_id) bearing)) b.execution_graphs
  ok (own ++ free)

unfoldable pub org_issues : Str → List ExportedEntry → List VerifyIssue
org_issues org [] = []
org_issues org (e ∷ es) =
    issue_if (not (str_eq e.organization_id org)) (issue_at org_mismatch e) ++ org_issues org es

unfoldable pub verify_evidence_bundle : Noble → EvidenceBundle → Throws VerifyResult
unfolding org_issues verify_execution_graphs
verify_evidence_bundle n b = do
  chain ← verify_organization_chain n b.ledger_entries
  checkpoints ← verify_merkle_checkpoints n b.ledger_entries b.merkle_checkpoints
  graphs ← verify_execution_graphs n b
  ok (
      result_of (
        issue_if b.includes_plaintext (bare_issue plaintext_export)
        ++ ((if is_empty b.organization_id
              then []
              else org_issues b.organization_id b.ledger_entries)
            ++ (chain.issues ++ (checkpoints ++ graphs)))))
