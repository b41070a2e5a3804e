-- ===== src/Kernel/Seal.antt =====
-- execution/finalize.ts: sealing an execution with its last events, its graph and its ledger entry.
pub mod Steps
pub mod Rebuild
pub mod Keeps
use verity_os_v.Base.{
  Str, codes, str_eq, sort_by, Bool, true, false, ◌&&◌, List, [], ◌∷◌, ◌++◌, Option, none, some, ok,
  or_throw, ◌>>=◌, ◌>>◌, select, ltb,
}
use verity_os_v.Contracts.{
  ExecutionStatus, LedgerEntryType, request_opened, approval_requested, action_completed, final,
  failure, entry_type_text, status_text,
}
use verity_os_v.Kernel.Error.{Throws, execution_not_found}
use verity_os_v.Kernel.Noble.{Noble}
use verity_os_v.Kernel.Canonicalize.{Value, string}
use verity_os_v.Kernel.Rows.{LedgerEntryRow, ExecutionRow, Db}
use verity_os_v.Kernel.Executions.{get_execution}
use verity_os_v.Kernel.Ledger.{
  Host, AppendLedgerInput, append_ledger_entry_in_transaction, in_transaction,
}
use verity_os_v.Kernel.Events.{
  AppendExecutionEventInput, append_execution_event_in_transaction, list_execution_events,
}
use verity_os_v.Kernel.Graph.{
  ExecutionGraphV2, build_execution_graph_v2, compute_execution_graph_hash,
}

-- What the append of one event takes from outside: a fresh id and the clock.
pub record Draw : Type 0 where
  pub id : Str
  pub now : Str

-- An event without its organization and execution; `parent_event_ids` is empty where it is absent.
pub record PreludeEvent : Type 0 where
  pub draw : Draw
  pub event_type : Str
  pub status : Str
  pub parent_event_ids : List Str
  pub input_hash : Option Str
  pub output_hash : Option Str
  pub metadata : List (Str × Value)
  pub occurred_at_canonical : Option Str

-- `entry_type` is `final` or `failure`. The source reads no `requestHash` of the input.
pub record SealExecutionInput : Type 0 where
  pub organization_id : Str
  pub execution_id : Str
  pub entry_type : LedgerEntryType
  pub execution_status : ExecutionStatus
  pub response_hash : Option Str
  pub parent_event_ids : List Str
  pub prelude_events : List PreludeEvent

pub record SealExecutionResult : Type 0 where
  pub entry : LedgerEntryRow
  pub graph : ExecutionGraphV2
  pub graph_hash : Str

-- The request hash of the first row, or null.
unfoldable pub first_request_hash : List LedgerEntryRow → Option Str
first_request_hash [] = none
first_request_hash (row ∷ rows) = row.request_hash

unfoldable pub is_opening : LedgerEntryType → Bool
is_opening request_opened = true
is_opening approval_requested = false
is_opening action_completed = false
is_opening final = false
is_opening failure = false

unfoldable pub load_request_opened_hash : Db → Str → Str → Option Str
unfolding first_request_hash is_opening
load_request_opened_hash db org execution = first_request_hash (
    sort_by (λ a b. ltb a.organization_sequence b.organization_sequence)
      (select
        (λ e.
          str_eq e.organization_id org
          && (str_eq e.execution_id execution && is_opening e.entry_type))
        db.ledger_entries))

abbrev pub own_or : List Str → List Str → List Str
own_or [] parents = parents
own_or (id ∷ ids) parents = id ∷ ids

unfoldable pub prelude_input : Str → Str → List Str → PreludeEvent → AppendExecutionEventInput
prelude_input org execution parents e = record {
  organization_id = org;
  execution_id = execution;
  event_type = e.event_type;
  status = e.status;
  parent_event_ids = own_or e.parent_event_ids parents;
  input_hash = e.input_hash;
  output_hash = e.output_hash;
  metadata = e.metadata;
  occurred_at_canonical = e.occurred_at_canonical;
}

-- The loop over the prelude: each event is the parent of the next.
unfoldable pub append_preludes :
    Str → Str → List Str → List PreludeEvent → Db → Throws (List Str × Db)
append_preludes org execution parents [] db = ok (parents, db)
append_preludes org execution parents (e ∷ es) db = do
  recorded ←
      append_execution_event_in_transaction e.draw.id e.draw.now
        (prelude_input org execution parents e) db
  append_preludes org execution (recorded.0.id ∷ []) es recorded.1

unfoldable pub seal_event_input : SealExecutionInput → List Str → Str → AppendExecutionEventInput
seal_event_input input parents hash = record {
  organization_id = input.organization_id;
  execution_id = input.execution_id;
  event_type = codes "audit.checkpoint.sealed";
  status = codes "ok";
  parent_event_ids = parents;
  input_hash = none;
  output_hash = some hash;
  metadata =
      (codes "entry_type", string (entry_type_text input.entry_type))
      ∷ (codes "execution_status", string (status_text input.execution_status))
      ∷ [];
  occurred_at_canonical = none;
}

unfoldable pub seal_entry_input : SealExecutionInput → Option Str → Str → AppendLedgerInput
seal_entry_input input request_hash sealed_hash = record {
  organization_id = input.organization_id;
  execution_id = input.execution_id;
  entry_type = input.entry_type;
  request_hash = request_hash;
  response_hash = input.response_hash;
  execution_graph_hash = some sealed_hash;
  merkle_snapshot_interval = none;
  created_at_canonical = none;
  kernel_version = none;
  execution_status = some input.execution_status;
}

-- `{ ...execution, status: input.executionStatus }`
abbrev pub closed : SealExecutionInput → ExecutionRow → ExecutionRow
closed input execution = record execution { status = input.execution_status }

-- The part from the recorded prelude on: the graph before the seal, the seal and the entry.
unfoldable pub seal_from :
    Noble
    → Host
    → Draw
    → SealExecutionInput
    → ExecutionRow
    → List Str
    → Db
    → Throws (SealExecutionResult × Db)
seal_from n host draw input execution parents db = do
  let events = list_execution_events db input.organization_id input.execution_id
  pre_seal ← build_execution_graph_v2 (closed input execution) events
  pre_seal_hash ← compute_execution_graph_hash n pre_seal
  sealed ←
      append_execution_event_in_transaction draw.id draw.now
        (seal_event_input input parents pre_seal_hash) db
  graph ← build_execution_graph_v2 (closed input execution) (events ++ sealed.0 ∷ [])
  graph_hash ← compute_execution_graph_hash n graph
  let request_hash = load_request_opened_hash sealed.1 input.organization_id input.execution_id
  entry ←
      append_ledger_entry_in_transaction n host (seal_entry_input input request_hash graph_hash)
        sealed.1
  ok (record { entry = entry.0; graph = graph; graph_hash = graph_hash }, entry.1)

unfoldable pub seal_execution_in_transaction :
    Noble → Host → Draw → SealExecutionInput → Db → Throws (SealExecutionResult × Db)
seal_execution_in_transaction n host draw input db = do
  execution ←
      or_throw execution_not_found (get_execution input.organization_id input.execution_id db)
  recorded ←
      append_preludes input.organization_id input.execution_id input.parent_event_ids
        input.prelude_events db
  seal_from n host draw input execution recorded.0 recorded.1

-- `before_commit` is the hook, which may throw.
unfoldable pub seal_execution :
    Noble
    → Host
    → Draw
    → SealExecutionInput
    → Throws (Unit {0})
    → Db
    → Throws SealExecutionResult × Db
seal_execution n host draw input before_commit =
    in_transaction (λ db. do
      result ← seal_execution_in_transaction n host draw input db
      before_commit
      ok result)
