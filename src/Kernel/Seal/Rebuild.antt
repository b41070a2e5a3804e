-- ===== src/Kernel/Seal/Rebuild.antt =====
-- What sealExecutionInTransaction has left where it returns.
use verity_os_v.Base.{
  Str, str_eq_refl, true, List, [], ◌∷◌, ◌++◌, Option, some, ok, or_throw, or_throw-ok, >>=-eq-ok,
  ok-pair, ◌≡◌, refl, sym, ap, ◌∙◌, arith, subst,
}
use verity_os_v.Contracts.{ExecutionStatus}
use verity_os_v.Kernel.Error.{Throws, execution_not_found}
use verity_os_v.Kernel.Noble.{Noble}
use verity_os_v.Kernel.Rows.{LedgerEntryRow, ExecutionRow, ExecutionEventRow, Db}
use verity_os_v.Kernel.Executions.{get_execution, StatusExtra, coalesce}
use verity_os_v.Kernel.Executions.Transitions.{IsStatusChange, written}
use verity_os_v.Kernel.Ledger.{Host, AppendLedgerInput, new_row, append_ledger_entry_in_transaction}
use verity_os_v.Kernel.Ledger.Append
use verity_os_v.Kernel.Ledger.Append.{append-Appended}
use verity_os_v.Kernel.Events.{append_execution_event_in_transaction, list_execution_events}
use verity_os_v.Kernel.Events.Parents.{IsTimeline}
use verity_os_v.Kernel.Events.Timeline
use verity_os_v.Kernel.Events.Timeline.{append_event-Appended, Appended-IsTimeline}
use verity_os_v.Kernel.Graph.{
  ExecutionGraphV2, build_execution_graph_v2, compute_execution_graph_hash,
}
use verity_os_v.Kernel.Bundle.{closes}
use verity_os_v.Kernel.Seal.{
  Draw, SealExecutionInput, SealExecutionResult, append_preludes, seal_event_input,
  seal_entry_input, closed, seal_from, seal_execution_in_transaction, load_request_opened_hash,
}
use verity_os_v.Kernel.Seal.Steps.{
  OnlyEvents, OnlyEvents-trans, append_event-OnlyEvents, append_preludes-ok, closing_extra,
  closing-IsStatusChange, list-append,
}

-- The execution is closed, its entry is the last of the ledger, and its graph, rebuilt from what
-- the database holds, is the one whose hash is in the entry.
pub record IsSealed (n : Noble) (input : SealExecutionInput) (db : Db)
    (result : SealExecutionResult) (db' : Db) : Type 0 where
  pub execution : ExecutionRow
  pub stored : get_execution input.organization_id input.execution_id db' ≡ some execution
  pub status_is : execution.status ≡ input.execution_status
  pub final_entry : execution.final_entry_id ≡ some result.entry.id
  pub entries : db'.ledger_entries ≡ db.ledger_entries ++ result.entry ∷ []
  pub entry_binds : result.entry.execution_graph_hash ≡ some result.graph_hash
  pub rebuilt :
      build_execution_graph_v2 execution
        (list_execution_events db' input.organization_id input.execution_id)
      ≡ ok result.graph
  pub hashed : compute_execution_graph_hash n result.graph ≡ ok result.graph_hash

get-written :
    {org id : Str} {status : ExecutionStatus} {extra : StatusExtra} (db db' : Db) (e : ExecutionRow)
    → IsStatusChange org id status extra db db'
    → get_execution org id db ≡ some e
    → get_execution org id db' ≡ some (written status extra e)
get-written {org} {id} {status} {extra} db db' e c found =
    c.lookups org id ∙ ground (arith, found, str_eq_refl id, str_eq_refl org)

build-written :
    (input : SealExecutionInput) (extra : StatusExtra) (e : ExecutionRow)
    (events : List ExecutionEventRow)
    → build_execution_graph_v2 (written input.execution_status extra e) events
      ≡ build_execution_graph_v2 (closed input e) events
unfolding build_execution_graph_v2
build-written input extra e events = refl

-- The parts of a seal, from the recorded prelude on.
module _ (n : Noble) (host : Host) (input : SealExecutionInput) (request : Option Str)
    (before : ExecutionRow) (db start sealed_db db' : Db) (sealed : ExecutionEventRow)
    (entry : LedgerEntryRow) (graph : ExecutionGraphV2) (graph_hash : Str) where
  abbrev entry_input : AppendLedgerInput
  entry_input = seal_entry_input input request graph_hash

  parts-IsSealed :
      closes input.entry_type ≡ true
      → get_execution input.organization_id input.execution_id db ≡ some before
      → OnlyEvents db start
      → IsTimeline input.organization_id input.execution_id start
      → Timeline.Appended input.organization_id input.execution_id start sealed sealed_db
      → Append.Appended n host entry_input sealed_db entry db'
      → build_execution_graph_v2
          (closed input before)
          (list_execution_events start input.organization_id input.execution_id ++ sealed ∷ [])
        ≡ ok graph
      → compute_execution_graph_hash n graph ≡ ok graph_hash
      → IsSealed n input db (record { entry = entry; graph = graph; graph_hash = graph_hash }) db'
  unfolding seal_entry_input new_row closing_extra coalesce get_execution list_execution_events
  parts-IsSealed c found only t event last built hashed =
      let change =
        closing-IsStatusChange input.entry_type entry_input entry last.base db'
          input.execution_status c refl last.followed in
      let only' =
        OnlyEvents-trans db start sealed_db only
          (append_event-OnlyEvents start sealed_db sealed event) in
      let base_execution : get_execution input.organization_id input.execution_id last.base
          ≡ some before =
        ap
          (λ es.
            get_execution input.organization_id input.execution_id (record db { executions = es }))
          (last.base_executions ∙ ap (λ d. d.executions) only')
        ∙ found in
      let extra : StatusExtra = closing_extra entry_input entry in
      let listed : list_execution_events db' input.organization_id input.execution_id
          ≡ list_execution_events start input.organization_id input.execution_id ++ sealed ∷ [] =
        ap
          (λ es.
            list_execution_events (record db { execution_events = es }) input.organization_id
              input.execution_id)
          (change.execution_events ∙ last.base_events)
        ∙ list-append input.organization_id input.execution_id start sealed_db sealed t event in
      record {
        execution = written input.execution_status extra before;
        stored = get-written last.base db' before change base_execution;
        status_is = refl;
        final_entry = refl;
        entries = last.entries ∙ ap (λ (d : Db). d.ledger_entries ++ entry ∷ []) only';
        entry_binds = ap (λ (r : LedgerEntryRow). r.execution_graph_hash) last.row_is;
        rebuilt =
            build-written input extra before _
            ∙ ap (build_execution_graph_v2 (closed input before)) listed
            ∙ built;
        hashed = hashed;
      }

result-IsSealed :
    (n : Noble) (input : SealExecutionInput) (db db' written_db : Db)
    (result made : SealExecutionResult)
    → (let r : Throws (SealExecutionResult × Db) = ok (made, written_db) in r ≡ ok (result, db'))
    → IsSealed n input db made written_db
    → IsSealed n input db result db'
result-IsSealed n input db db' written_db result made h s =
    let (same, same_db) = ok-pair h refl in
    subst (λ r. IsSealed n input db r db') (sym same)
      (subst (IsSealed n input db made) (sym same_db) s)

-- Where an execution with a timeline is sealed, its final or failure entry binds the graph that is
-- rebuilt from the rows.
pub seal-IsSealed :
    (n : Noble) (host : Host) (draw : Draw) (input : SealExecutionInput) (db db' : Db)
    (result : SealExecutionResult)
    → IsTimeline input.organization_id input.execution_id db
    → closes input.entry_type ≡ true
    → seal_execution_in_transaction n host draw input db ≡ ok (result, db')
    → IsSealed n input db result db'
unfolding seal_execution_in_transaction seal_from seal_event_input
seal-IsSealed n host draw input db db' result t c h =
    let (before, found, h1) =
      >>=-eq-ok
        (or_throw execution_not_found (get_execution input.organization_id input.execution_id db)) _
        h in
    let ((parents, start), recorded, h2) =
      >>=-eq-ok
        (append_preludes input.organization_id input.execution_id input.parent_event_ids
          input.prelude_events db)
        _ h1 in
    let events = list_execution_events start input.organization_id input.execution_id in
    let (pre, _, h3) = >>=-eq-ok (build_execution_graph_v2 (closed input before) events) _ h2 in
    let (pre_hash, _, h4) = >>=-eq-ok (compute_execution_graph_hash n pre) _ h3 in
    let ((sealed, sealed_db), appended, h5) =
      >>=-eq-ok
        (append_execution_event_in_transaction draw.id draw.now
          (seal_event_input input parents pre_hash) start)
        _ h4 in
    let (graph, built, h6) =
      >>=-eq-ok (build_execution_graph_v2 (closed input before) (events ++ sealed ∷ [])) _ h5 in
    let (graph_hash, hashed, h7) = >>=-eq-ok (compute_execution_graph_hash n graph) _ h6 in
    let request = load_request_opened_hash sealed_db input.organization_id input.execution_id in
    let ((entry, written_db), entered, h8) =
      >>=-eq-ok
        (append_ledger_entry_in_transaction n host (seal_entry_input input request graph_hash)
          sealed_db)
        _ h7 in
    let (t', only) =
      append_preludes-ok input.organization_id input.execution_id input.parent_event_ids
        input.prelude_events db start parents recorded t in
    result-IsSealed n input db db' written_db result _ h8 (
      parts-IsSealed n host input request before db start sealed_db written_db sealed entry graph
        graph_hash c (or_throw-ok execution_not_found _ found) only t'
        (append_event-Appended draw.id draw.now (seal_event_input input parents pre_hash) start
          sealed sealed_db appended)
        (append-Appended n host (seal_entry_input input request graph_hash) sealed_db entry
          written_db entered)
        built hashed)
