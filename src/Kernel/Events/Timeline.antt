-- ===== src/Kernel/Events/Timeline.antt =====
-- appendExecutionEvent of execution/events.ts, and the timeline of an execution.
use verity_os_v.Base.{
  ◌+◌, Str, str_eq, str_eq_iff, false, ◌&&◌, &&-true, List, [], ◌∷◌, ◌++◌, ok, >>=-eq-ok, ok-pair,
  All, Bool-cases, ◌≡◌, refl, sym, subst, ap, ◌∙◌, inl, inr, or_throw, All-append,
}
use verity_os_v.Kernel.Error.{execution_not_found, occurred_at_canonical}
use verity_os_v.Kernel.Evidence.{assert_canonical_utc_timestamp}
use verity_os_v.Kernel.Hash.{or_default}
use verity_os_v.Kernel.Rows.{ExecutionEventRow, Db}
use verity_os_v.Kernel.Executions.{get_execution}
use verity_os_v.Kernel.Ledger.{in_transaction}
use verity_os_v.Kernel.Ledger.Invariant.{transaction-keeps}
use verity_os_v.Kernel.Events.{
  AppendExecutionEventInput, unique_sorted_ids, assert_event_evidence, events_of, max_sequence,
  check_parents, new_event, append_execution_event_in_transaction, append_execution_event,
}
use verity_os_v.Kernel.Events.Parents.{
  IsParent, HasParents, Numbered, IsTimeline, check_parents-IsParent, HasParents-append,
  Numbered-append, next-Numbered, events_of-own, events_of-other,
}

-- What an append that does not throw has added.
pub record Appended (org execution : Str) (db : Db) (row : ExecutionEventRow) (db' : Db)
    : Type 0 where
  pub organization_is : row.organization_id ≡ org
  pub execution_is : row.execution_id ≡ execution
  pub sequence_is :
      row.event_sequence ≡ max_sequence (events_of org execution db.execution_events) + 1
  pub parents : HasParents org execution db.execution_events row
  pub events : db'.execution_events ≡ db.execution_events ++ row ∷ []
  pub db_is : db' ≡ record db { execution_events = db.execution_events ++ row ∷ [] }

made-Appended :
    (id : Str) (input : AppendExecutionEventInput) (occurred : Str) (ids : List Str) (db : Db)
    (row : ExecutionEventRow) (db' : Db)
    → All
        (IsParent input.organization_id input.execution_id db.execution_events (
          max_sequence (events_of input.organization_id input.execution_id db.execution_events)
          + 1))
        ids
    → row
      ≡ new_event id input occurred
          (max_sequence (events_of input.organization_id input.execution_id db.execution_events)
            + 1)
          ids
    → db' ≡ record db {
      execution_events =
          db.execution_events
          ++ new_event id input occurred
              (max_sequence (events_of input.organization_id input.execution_id db.execution_events)
                + 1)
              ids
            ∷ [];
    }
    → Appended input.organization_id input.execution_id db row db'
unfolding new_event
made-Appended id input occurred ids db row db' parents same_row same_db = record {
  organization_is = ap (λ r. r.organization_id) same_row;
  execution_is = ap (λ r. r.execution_id) same_row;
  sequence_is = ap (λ r. r.event_sequence) same_row;
  parents =
      subst (HasParents input.organization_id input.execution_id db.execution_events) (sym same_row)
        parents;
  events =
      ap (λ d. d.execution_events) same_db ∙ ap (λ r. db.execution_events ++ r ∷ []) (sym same_row);
  db_is =
      same_db
      ∙ ap
          (λ (r : ExecutionEventRow). record db {
            execution_events = db.execution_events ++ r ∷ [];
          })
          (sym same_row);
}

pub append_event-Appended :
    (id now : Str) (input : AppendExecutionEventInput) (db : Db) (row : ExecutionEventRow)
    (db' : Db)
    → append_execution_event_in_transaction id now input db ≡ ok (row, db')
    → Appended input.organization_id input.execution_id db row db'
unfolding append_execution_event_in_transaction
append_event-Appended id now input db row db' h =
    let occurred : Str = or_default input.occurred_at_canonical now in
    let ids : List Str = unique_sorted_ids input.parent_event_ids in
    let (_, _, h1) = >>=-eq-ok (assert_event_evidence input) _ h in
    let (_, _, h2) =
      >>=-eq-ok (assert_canonical_utc_timestamp occurred_at_canonical occurred) _ h1 in
    let (_, _, h3) =
      >>=-eq-ok
        (or_throw execution_not_found (get_execution input.organization_id input.execution_id db)) _
        h2 in
    let (_, checked, h4) =
      >>=-eq-ok
        (check_parents input.organization_id input.execution_id
          (max_sequence (events_of input.organization_id input.execution_id db.execution_events)
            + 1)
          db.execution_events ids)
        _ h3 in
    let (same_row, same_db) = ok-pair h4 refl in
    made-Appended id input occurred ids db row db'
      (check_parents-IsParent input.organization_id input.execution_id _ db.execution_events ids
        checked)
      same_row same_db

module _ (org execution : Str) (db : Db) (row : ExecutionEventRow) (db' : Db) where
  own-IsTimeline :
      Appended org execution db row db' → IsTimeline org execution db → IsTimeline org execution db'
  own-IsTimeline a t =
      let es = events_of org execution db.execution_events in
      let grown : events_of org execution db'.execution_events ≡ es ++ row ∷ [] =
        ap (events_of org execution) a.events
        ∙ events_of-own org execution db.execution_events row a.organization_is a.execution_is in
      record {
        numbered =
            subst (Numbered 1) (sym grown)
              (Numbered-append 1 es row t.numbered (a.sequence_is ∙ next-Numbered es t.numbered));
        parents =
            subst
              (λ all.
                All (HasParents org execution all) (events_of org execution db'.execution_events))
              (sym a.events)
              (subst (All (HasParents org execution (db.execution_events ++ row ∷ []))) (sym grown)
                (HasParents-append org execution db.execution_events (row ∷ []) (es ++ row ∷ []) (
                  All-append (HasParents org execution db.execution_events) es (row ∷ []) t.parents
                    (a.parents, tt))));
      }

  other-IsTimeline :
      (org' execution' : Str)
      → Appended org execution db row db'
      → (str_eq org org' && str_eq execution execution') ≡ false
      → IsTimeline org' execution' db
      → IsTimeline org' execution' db'
  other-IsTimeline org' execution' a differ t =
      let miss : (str_eq row.organization_id org' && str_eq row.execution_id execution') ≡ false =
        rw (a.organization_is, a.execution_is) differ in
      let kept : events_of org' execution' db'.execution_events
          ≡ events_of org' execution' db.execution_events =
        ap (events_of org' execution') a.events
        ∙ events_of-other org' execution' db.execution_events row miss in
      record {
        numbered = subst (Numbered 1) (sym kept) t.numbered;
        parents =
            subst
              (λ all.
                All (HasParents org' execution' all)
                  (events_of org' execution' db'.execution_events))
              (sym a.events)
              (subst (All (HasParents org' execution' (db.execution_events ++ row ∷ []))) (sym kept)
                (HasParents-append org' execution' db.execution_events (row ∷ [])
                  (events_of org' execution' db.execution_events) t.parents));
      }

  pub Appended-IsTimeline :
      (org' execution' : Str)
      → Appended org execution db row db'
      → IsTimeline org' execution' db
      → IsTimeline org' execution' db'
  Appended-IsTimeline org' execution' a t =
      elim (Bool-cases (str_eq org org' && str_eq execution execution')) [
        | inl same ↦
            let (so, se) = &&-true (str_eq org org') (str_eq execution execution') same in
            let eo = (str_eq_iff org org').0 so in
            let ee = (str_eq_iff execution execution').0 se in
            subst (λ o. IsTimeline o execution' db') eo
              (subst (λ x. IsTimeline org x db') ee
                (own-IsTimeline a (
                  subst (λ x. IsTimeline org x db) (sym ee)
                    (subst (λ o. IsTimeline o execution' db) (sym eo) t))))
        | inr differ ↦ other-IsTimeline org' execution' a differ t
      ]

-- Appending an event, whether it commits or throws, keeps the timeline of every execution: its
-- events are numbered from 1 without a gap, and each follows only earlier events of it.
pub append_event-IsTimeline :
    (id now : Str) (input : AppendExecutionEventInput) (db : Db) (org execution : Str)
    → IsTimeline org execution db
    → IsTimeline org execution ((append_execution_event id now input db).1)
unfolding append_execution_event in_transaction
append_event-IsTimeline id now input db org execution t =
    transaction-keeps (IsTimeline org execution)
      (append_execution_event_in_transaction id now input db) db t
      (λ row db' e.
        Appended-IsTimeline input.organization_id input.execution_id db row db' org execution
          (append_event-Appended id now input db row db' e) t)
