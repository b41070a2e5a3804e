-- ===== src/Kernel/Seal/Keeps.antt =====
-- The invariants of the ledger and of the timelines under sealExecution and the other calls of the
-- kernel that change its tables.
use verity_os_v.Base.{
  Str, List, [], ◌∷◌, ◌++◌, ok, or_throw, ◌>>=◌, ◌>>◌, >>=-eq-ok, ok-pair, ◌≡◌, refl, sym, subst,
}
use verity_os_v.Kernel.Error.{Throws, execution_not_found}
use verity_os_v.Kernel.Noble.{Noble}
use verity_os_v.Kernel.Rows.{LedgerEntryRow, ExecutionEventRow, Db}
use verity_os_v.Kernel.Executions.{get_execution}
use verity_os_v.Kernel.Ledger.{
  Host, AppendLedgerInput, append_ledger_entry_in_transaction, in_transaction,
}
use verity_os_v.Kernel.Ledger.Invariant.{transaction-keeps}
use verity_os_v.Kernel.Events.{
  AppendExecutionEventInput, append_execution_event_in_transaction, list_execution_events,
}
use verity_os_v.Kernel.Graph.{build_execution_graph_v2, compute_execution_graph_hash}
use verity_os_v.Kernel.Seal.{
  Draw, PreludeEvent, SealExecutionInput, SealExecutionResult, append_preludes, prelude_input,
  seal_event_input, seal_entry_input, closed, seal_from, seal_execution_in_transaction,
  seal_execution, load_request_opened_hash,
}

-- A predicate that the two appends keep.
pub record IsKept (n : Noble) (P : Db → Type 0) : Type 0 where
  pub by_event :
      (id now : Str) (input : AppendExecutionEventInput) (db db' : Db) (row : ExecutionEventRow)
      → append_execution_event_in_transaction id now input db ≡ ok (row, db')
      → P db
      → P db'
  pub by_entry :
      (host : Host) (input : AppendLedgerInput) (db db' : Db) (row : LedgerEntryRow)
      → append_ledger_entry_in_transaction n host input db ≡ ok (row, db')
      → P db
      → P db'

module _ (n : Noble) (P : Db → Type 0) (k : IsKept n P) where
  preludes-keep :
      (org execution : Str) (parents : List Str) (es : List PreludeEvent) (db db' : Db)
      (last : List Str)
      → append_preludes org execution parents es db ≡ ok (last, db')
      → P db
      → P db'
  unfolding append_preludes
  preludes-keep org execution parents [] db db' last h p =
      let same : db ≡ db' = cc in subst P same p
  preludes-keep org execution parents (e ∷ es) db db' last h p =
      let ((row, db1), recorded, rest) =
        >>=-eq-ok
          (append_execution_event_in_transaction e.draw.id e.draw.now
            (prelude_input org execution parents e) db)
          _ h in
      preludes-keep org execution (row.id ∷ []) es db1 db' last rest (
        k.by_event e.draw.id e.draw.now (prelude_input org execution parents e) db db1 row recorded
          p)

  seal-keeps :
      (host : Host) (draw : Draw) (input : SealExecutionInput) (db db' : Db)
      (result : SealExecutionResult)
      → seal_execution_in_transaction n host draw input db ≡ ok (result, db')
      → P db
      → P db'
  unfolding seal_execution_in_transaction seal_from
  seal-keeps host draw input db db' result h p =
      let (before, _, h1) =
        >>=-eq-ok
          (or_throw execution_not_found (get_execution input.organization_id input.execution_id db))
          _ h in
      let ((parents, start), recorded, h2) =
        >>=-eq-ok
          (append_preludes input.organization_id input.execution_id input.parent_event_ids
            input.prelude_events db)
          _ h1 in
      let events = list_execution_events start input.organization_id input.execution_id in
      let (pre, _, h3) = >>=-eq-ok (build_execution_graph_v2 (closed input before) events) _ h2 in
      let (pre_hash, _, h4) = >>=-eq-ok (compute_execution_graph_hash n pre) _ h3 in
      let ((sealed, sealed_db), appended, h5) =
        >>=-eq-ok
          (append_execution_event_in_transaction draw.id draw.now
            (seal_event_input input parents pre_hash) start)
          _ h4 in
      let (graph, _, h6) =
        >>=-eq-ok (build_execution_graph_v2 (closed input before) (events ++ sealed ∷ [])) _ h5 in
      let (graph_hash, _, h7) = >>=-eq-ok (compute_execution_graph_hash n graph) _ h6 in
      let request = load_request_opened_hash sealed_db input.organization_id input.execution_id in
      let ((entry, written_db), entered, h8) =
        >>=-eq-ok
          (append_ledger_entry_in_transaction n host (seal_entry_input input request graph_hash)
            sealed_db)
          _ h7 in
      let (_, same_db) = ok-pair h8 refl in
      subst P (sym same_db) (
        k.by_entry host (seal_entry_input input request graph_hash) sealed_db written_db entry
          entered
          (k.by_event draw.id draw.now (seal_event_input input parents pre_hash) start sealed_db
            sealed appended
            (preludes-keep input.organization_id input.execution_id input.parent_event_ids
              input.prelude_events db start parents recorded p)))

  hooked-keeps :
      (host : Host) (draw : Draw) (input : SealExecutionInput) (before_commit : Throws (Unit {0}))
      (db db' : Db) (result : SealExecutionResult)
      → (seal_execution_in_transaction n host draw input db >>= λ r. before_commit >> ok r)
        ≡ ok (result, db')
      → P db
      → P db'
  hooked-keeps host draw input before_commit db db' result h p =
      let ((made, made_db), sealed, h1) =
        >>=-eq-ok (seal_execution_in_transaction n host draw input db) _ h in
      let (_, _, h2) = >>=-eq-ok before_commit _ h1 in
      let (_, same_db) = ok-pair h2 refl in
      subst P (sym same_db) (seal-keeps host draw input db made_db made sealed p)

  -- The transaction with its hook.
  pub seal_execution-keeps :
      (host : Host) (draw : Draw) (input : SealExecutionInput) (before_commit : Throws (Unit {0}))
      (db : Db)
      → P db
      → P ((seal_execution n host draw input before_commit db).1)
  unfolding seal_execution in_transaction
  seal_execution-keeps host draw input before_commit db p =
      transaction-keeps P
        (seal_execution_in_transaction n host draw input db >>= λ r. before_commit >> ok r) db p
        (λ result db' h. hooked-keeps host draw input before_commit db db' result h p)
