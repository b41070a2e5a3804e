-- ===== src/Kernel/Seal/Steps.antt =====
-- The steps of sealExecutionInTransaction: its prelude, the event of the seal, the closing status.
use verity_os_v.Base.{
  Str, true, List, [], ◌∷◌, ◌++◌, some, ok, >>=-eq-ok, sort-id, ◌≡◌, refl, sym, ap, ◌∙◌,
}
use verity_os_v.Contracts.{
  ExecutionStatus, LedgerEntryType, request_opened, approval_requested, action_completed, final,
  failure,
}
use verity_os_v.Kernel.Rows.{LedgerEntryRow, ExecutionEventRow, Db}
use verity_os_v.Kernel.Executions.{StatusExtra}
use verity_os_v.Kernel.Executions.Transitions.{IsStatusChange, set_status-IsStatusChange}
use verity_os_v.Kernel.Ledger.{AppendLedgerInput, follow_up}
use verity_os_v.Kernel.Events.{
  append_execution_event_in_transaction, list_execution_events, events_of,
}
use verity_os_v.Kernel.Events.Parents.{IsTimeline, events_of-own}
use verity_os_v.Kernel.Events.Timeline
use verity_os_v.Kernel.Events.Timeline.{append_event-Appended, Appended-IsTimeline}
use verity_os_v.Kernel.Graph.{event_lt}
use verity_os_v.Kernel.Graph.Forward.{Numbered-Sorted}
use verity_os_v.Kernel.Bundle.{closes}
use verity_os_v.Kernel.Seal.{PreludeEvent, append_preludes, prelude_input}

abbrev pub OnlyEvents : Db → Db → Type 0
OnlyEvents db db' = db' ≡ record db { execution_events = db'.execution_events }

pub OnlyEvents-trans : (a b c : Db) → OnlyEvents a b → OnlyEvents b c → OnlyEvents a c
OnlyEvents-trans a b c first second =
    second ∙ ap (λ (d : Db). record d { execution_events = c.execution_events }) first

pub append_event-OnlyEvents :
    {org execution : Str} (db db' : Db) (row : ExecutionEventRow)
    → Timeline.Appended org execution db row db'
    → OnlyEvents db db'
append_event-OnlyEvents db db' row a =
    a.db_is ∙ ap (λ es. record db { execution_events = es }) (sym a.events)

-- The prelude adds events, and keeps the timeline of the execution.
pub append_preludes-ok :
    (org execution : Str) (parents : List Str) (es : List PreludeEvent) (db db' : Db)
    (last : List Str)
    → append_preludes org execution parents es db ≡ ok (last, db')
    → IsTimeline org execution db
    → IsTimeline org execution db' × OnlyEvents db db'
unfolding append_preludes prelude_input
append_preludes-ok org execution parents [] db db' last h t =
    let same : db' ≡ db = cc in rw same (t, refl)
append_preludes-ok org execution parents (e ∷ es) db db' last h t =
    let ((row, db1), recorded, rest) =
      >>=-eq-ok
        (append_execution_event_in_transaction e.draw.id e.draw.now
          (prelude_input org execution parents e) db)
        _ h in
    let a =
      append_event-Appended e.draw.id e.draw.now (prelude_input org execution parents e) db row db1
        recorded in
    let t1 = Appended-IsTimeline org execution db row db1 org execution a t in
    let (t', only) = append_preludes-ok org execution (row.id ∷ []) es db1 db' last rest t1 in
    (t', OnlyEvents-trans db db1 db' (append_event-OnlyEvents db db1 row a) only)

unfoldable pub closing_extra : AppendLedgerInput → LedgerEntryRow → StatusExtra
closing_extra input row = record {
  organization_id = some input.organization_id;
  final_entry_id = some row.id;
  completed_at = some row.created_at_canonical;
}

pub closing-IsStatusChange :
    (t : LedgerEntryType) (input : AppendLedgerInput) (row : LedgerEntryRow) (db db' : Db)
    (status : ExecutionStatus)
    → closes t ≡ true
    → input.execution_status ≡ some status
    → follow_up t input row db ≡ ok db'
    → IsStatusChange input.organization_id input.execution_id status
        (closing_extra input row)
        db
        db'
unfolding closes follow_up closing_extra
closing-IsStatusChange request_opened input row db db' status c s h = cc
closing-IsStatusChange approval_requested input row db db' status c s h = cc
closing-IsStatusChange action_completed input row db db' status c s h = cc
closing-IsStatusChange final input row db db' status c s h =
    set_status-IsStatusChange input.organization_id input.execution_id status _ db db' refl
      (rw s at h)
closing-IsStatusChange failure input row db db' status c s h =
    set_status-IsStatusChange input.organization_id input.execution_id status _ db db' refl
      (rw s at h)

list-IsTimeline :
    (org execution : Str) (db : Db)
    → IsTimeline org execution db
    → list_execution_events db org execution ≡ events_of org execution db.execution_events
unfolding list_execution_events
list-IsTimeline org execution db t =
    sort-id event_lt (events_of org execution db.execution_events)
      (Numbered-Sorted 1 (events_of org execution db.execution_events) t.numbered)

-- One more event at the end of the list.
pub list-append :
    (org execution : Str) (db db' : Db) (row : ExecutionEventRow)
    → IsTimeline org execution db
    → Timeline.Appended org execution db row db'
    → list_execution_events db' org execution ≡ list_execution_events db org execution ++ row ∷ []
list-append org execution db db' row t a =
    list-IsTimeline org execution db'
      (Appended-IsTimeline org execution db row db' org execution a t)
    ∙ ap (events_of org execution) a.events
    ∙ events_of-own org execution db.execution_events row a.organization_is a.execution_is
    ∙ ap (λ l. l ++ row ∷ []) (sym (list-IsTimeline org execution db t))
