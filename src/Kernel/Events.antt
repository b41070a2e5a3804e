-- ===== src/Kernel/Events.antt =====
-- execution/events.ts: the events of an execution, each with the earlier events that it follows.
pub mod Parents
pub mod Timeline
use verity_os_v.Base.{
  ℕ, ◌+◌, Str, str_eq, str_lt, sort_by, includes, not, ◌&&◌, List, [], ◌∷◌, ◌++◌, Option, none,
  some, ok, throw, ◌>>=◌, ◌>>◌, or_throw, if◌then◌else◌, find?, select, ltb,
}
use verity_os_v.Contracts.{execution_event_types}
use verity_os_v.Kernel.Error.{
  Throws, execution_not_found, unknown_event_type, parent_not_found, parent_cross_organization,
  parent_cross_execution, parent_sequence, invalid_evidence_input, input_hash, output_hash,
  metadata, occurred_at_canonical,
}
use verity_os_v.Kernel.Canonicalize.{Value, object, canonicalize}
use verity_os_v.Kernel.Canonicalize.Normal.{to_fields}
use verity_os_v.Kernel.Evidence.{assert_sha256_hex, assert_canonical_utc_timestamp}
use verity_os_v.Kernel.Hash.{or_default}
use verity_os_v.Kernel.Rows.{ExecutionEventRow, Db}
use verity_os_v.Kernel.Executions.{get_execution}
use verity_os_v.Kernel.Ledger.{in_transaction}

-- Absent parents and metadata are the empty ones, as the code takes them.
pub record AppendExecutionEventInput : Type 0 where
  pub organization_id : Str
  pub execution_id : Str
  pub event_type : Str
  pub status : Str
  pub parent_event_ids : List Str
  pub input_hash : Option Str
  pub output_hash : Option Str
  pub metadata : List (Str × Value)
  pub occurred_at_canonical : Option Str

-- [...new Set(ids)]
unfoldable pub unique : List Str → List Str
unique [] = []
unique (x ∷ xs) = x ∷ select (λ y. not (str_eq y x)) (unique xs)

unfoldable pub unique_sorted_ids : List Str → List Str
unfolding unique
unique_sorted_ids ids = sort_by str_lt (unique ids)

-- An error of `canonicalize` is raised as invalid metadata.
unfoldable pub assert_metadata : List (Str × Value) → Throws (Unit {0})
assert_metadata entries = elim (canonicalize (object (to_fields entries))) [
  | ok text ↦ ok tt
  | throw e ↦ throw (invalid_evidence_input metadata)
]

unfoldable pub assert_event_evidence : AppendExecutionEventInput → Throws (Unit {0})
unfolding assert_metadata
assert_event_evidence input =
    if not (includes execution_event_types input.event_type) then throw unknown_event_type else (do
      assert_sha256_hex input_hash input.input_hash
      assert_sha256_hex output_hash input.output_hash
      assert_metadata input.metadata)

abbrev pub events_of : Str → Str → List ExecutionEventRow → List ExecutionEventRow
events_of org execution =
    select (λ e. str_eq e.organization_id org && str_eq e.execution_id execution)

-- COALESCE(MAX(event_sequence), 0)
unfoldable pub max_sequence : List ExecutionEventRow → ℕ
max_sequence [] = 0
max_sequence (e ∷ es) =
    let rest = max_sequence es in if ltb rest e.event_sequence then e.event_sequence else rest

unfoldable pub find_event : Str → List ExecutionEventRow → Option ExecutionEventRow
find_event id = find? (λ e. str_eq e.id id)

-- The loop over the parents.
unfoldable pub check_parents : Str → Str → ℕ → List ExecutionEventRow → List Str → Throws (Unit {0})
unfolding find_event
check_parents org execution next events [] = ok tt
check_parents org execution next events (id ∷ ids) =
    let rest = check_parents org execution next events ids in
    elim (find_event id events) [
      | none ↦ throw parent_not_found
      | some parent ↦
          if not (str_eq parent.organization_id org)
          then throw parent_cross_organization
          else if not (str_eq parent.execution_id execution)
          then throw parent_cross_execution
          else if not (ltb parent.event_sequence next)
          then throw parent_sequence
          else rest
    ]

-- The row that is inserted.
unfoldable pub new_event : Str → AppendExecutionEventInput → Str → ℕ → List Str → ExecutionEventRow
new_event id input occurred next parents = record {
  id = id;
  organization_id = input.organization_id;
  execution_id = input.execution_id;
  event_sequence = next;
  event_type = input.event_type;
  status = input.status;
  parent_event_ids = parents;
  input_hash = input.input_hash;
  output_hash = input.output_hash;
  metadata = input.metadata;
  occurred_at_canonical = occurred;
}

-- `id` is drawn at random and `now` is the clock.
unfoldable pub append_execution_event_in_transaction :
    (id now : Str) → AppendExecutionEventInput → Db → Throws (ExecutionEventRow × Db)
append_execution_event_in_transaction id now input db = do
  assert_event_evidence input
  let occurred = or_default input.occurred_at_canonical now
  assert_canonical_utc_timestamp occurred_at_canonical occurred
  let parents = unique_sorted_ids input.parent_event_ids
  locked ← or_throw execution_not_found (get_execution input.organization_id input.execution_id db)
  let next =
      max_sequence (events_of input.organization_id input.execution_id db.execution_events) + 1
  check_parents input.organization_id input.execution_id next db.execution_events parents
  let row = new_event id input occurred next parents
  ok (row, record db { execution_events = db.execution_events ++ row ∷ [] })

unfoldable pub append_execution_event :
    (id now : Str) → AppendExecutionEventInput → Db → Throws ExecutionEventRow × Db
append_execution_event id now input =
    in_transaction (append_execution_event_in_transaction id now input)

-- ORDER BY event_sequence ASC
unfoldable pub list_execution_events : Db → Str → Str → List ExecutionEventRow
list_execution_events db org execution =
    sort_by (λ a b. ltb a.event_sequence b.event_sequence)
      (events_of org execution db.execution_events)
