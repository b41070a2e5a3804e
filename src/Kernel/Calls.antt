-- ===== src/Kernel/Calls.antt =====
-- The calls of packages/audit-kernel/src that change its tables, in any order: openExecution,
-- setExecutionStatus, appendExecutionEvent, appendLedgerEntry and sealExecution.
use verity_os_v.Base.{
  Str, List, [], ◌∷◌, ok, throw, ◌>>=◌, ◌≡◌, refl, ap, ◌∙◌, Option-cases, inl, inr,
}
use verity_os_v.Contracts.{ExecutionStatus}
use verity_os_v.Kernel.Error.{Throws}
use verity_os_v.Kernel.Noble.{Noble}
use verity_os_v.Kernel.Rows.{ExecutionRow, Db}
use verity_os_v.Kernel.Executions.{
  assert_execution_transition, current_execution, StatusExtra, OpenExecutionInput, open_execution,
  set_execution_status,
}
use verity_os_v.Kernel.Ledger.{
  Host, AppendLedgerInput, append_ledger_entry, append_ledger_entry_in_transaction, in_transaction,
}
use verity_os_v.Kernel.Ledger.Append.{append-Appended, follow_up-KeepsEvents}
use verity_os_v.Kernel.Ledger.Invariant.{IsChained, Appended-IsChained, transaction-keeps}
use verity_os_v.Kernel.Events.{
  AppendExecutionEventInput, append_execution_event, append_execution_event_in_transaction,
}
use verity_os_v.Kernel.Events.Parents.{IsTimeline}
use verity_os_v.Kernel.Events.Timeline.{append_event-Appended, Appended-IsTimeline}
use verity_os_v.Kernel.Seal.{Draw, SealExecutionInput, seal_execution}
use verity_os_v.Kernel.Seal.Keeps.{IsKept, seal_execution-keeps}

-- The hash chain of an organization and the timeline of an execution.
pub record IsSound (n : Noble) (org execution : Str) (db : Db) : Type 0 where
  pub chain : IsChained n org db
  pub timeline : IsTimeline org execution db

-- Tables that agree on all that the invariants speak of.
pub record SameEvidence (db db' : Db) : Type 0 where
  pub chain_state : db'.chain_state ≡ db.chain_state
  pub ledger_entries : db'.ledger_entries ≡ db.ledger_entries
  pub execution_events : db'.execution_events ≡ db.execution_events

same-IsChained :
    (n : Noble) (org : Str) (db db' : Db)
    → db'.chain_state ≡ db.chain_state
    → db'.ledger_entries ≡ db.ledger_entries
    → IsChained n org db
    → IsChained n org db'
same-IsChained n org db db' states entries c = record {
  chained = rw entries c.chained;
  sequence_is = rw (states, entries) c.sequence_is;
  hash_is = rw (states, entries) c.hash_is;
}

same-IsTimeline :
    (org execution : Str) (db db' : Db)
    → db'.execution_events ≡ db.execution_events
    → IsTimeline org execution db
    → IsTimeline org execution db'
same-IsTimeline org execution db db' events t = record {
  numbered = rw events t.numbered;
  parents = rw events t.parents;
}

pub same-IsSound :
    (n : Noble) (org execution : Str) (db db' : Db)
    → SameEvidence db db'
    → IsSound n org execution db
    → IsSound n org execution db'
same-IsSound n org execution db db' e s = record {
  chain = same-IsChained n org db db' e.chain_state e.ledger_entries s.chain;
  timeline = same-IsTimeline org execution db db' e.execution_events s.timeline;
}

pub kernel-IsKept : (n : Noble) (org execution : Str) → IsKept n (IsSound n org execution)
kernel-IsKept n org execution = record {
  by_event = λ id now input db db' row h s.
      let a = append_event-Appended id now input db row db' h in
      record {
        chain =
            same-IsChained n org db db' (ap (λ d. d.chain_state) a.db_is)
              (ap (λ d. d.ledger_entries) a.db_is) s.chain;
        timeline =
            Appended-IsTimeline input.organization_id input.execution_id db row db' org execution a
              s.timeline;
      };
  by_entry = λ host input db db' row h s.
      let a = append-Appended n host input db row db' h in
      record {
        chain = Appended-IsChained n host input db row db' a org s.chain;
        timeline =
            same-IsTimeline org execution db db'
              (follow_up-KeepsEvents input.entry_type input row a.base db' a.followed
                ∙ a.base_events)
              s.timeline;
      };
}

-- A status change that throws changes nothing.
abbrev pub after_status : Throws Db → Db → Db
after_status (ok db') db = db'
after_status (throw e) db = db

checked-SameEvidence :
    (checked : Throws (Unit {0})) (db : Db) (es : List ExecutionRow)
    → SameEvidence db (after_status (checked >>= λ _. ok (record db { executions = es })) db)
checked-SameEvidence (ok _) db es = record {
  chain_state = refl;
  ledger_entries = refl;
  execution_events = refl;
}
checked-SameEvidence (throw e) db es = record {
  chain_state = refl;
  ledger_entries = refl;
  execution_events = refl;
}

pub status-SameEvidence :
    (id : Str) (status : ExecutionStatus) (extra : StatusExtra) (db : Db)
    → SameEvidence db (after_status (set_execution_status id status extra db) db)
unfolding set_execution_status
status-SameEvidence id status extra db =
    elim (Option-cases (current_execution id extra.organization_id db)) [
      | inl e ↦ rw e unchanged
      | inr (cur, e) ↦
          rw e (checked-SameEvidence (assert_execution_transition cur.status status) db _)
    ]
  where
    unchanged : SameEvidence db db
    unchanged = record { chain_state = refl; ledger_entries = refl; execution_events = refl }

-- The calls, with what each draws at random and the clock.
pub data Call : Type 0 where
  opens : (id verity_record_id now : Str) → OpenExecutionInput → Call
  sets_status : Str → ExecutionStatus → StatusExtra → Call
  records : (id now : Str) → AppendExecutionEventInput → Call
  enters : Host → AppendLedgerInput → Call
  seals : Host → Draw → SealExecutionInput → Throws (Unit {0}) → Call

abbrev pub step : Noble → Call → Db → Db
step n (opens id verity_record_id now input) db =
    (open_execution id verity_record_id now input db).1
step n (sets_status id status extra) db = after_status (set_execution_status id status extra db) db
step n (records id now input) db = (append_execution_event id now input db).1
step n (enters host input) db = (append_ledger_entry n host input db).1
step n (seals host draw input before_commit) db =
    (seal_execution n host draw input before_commit db).1

abbrev pub run_calls : Noble → List Call → Db → Db
run_calls n [] db = db
run_calls n (call ∷ calls) db = run_calls n calls (step n call db)

module _ (n : Noble) (org execution : Str) where
  pub step-IsSound :
      (call : Call) (db : Db)
      → IsSound n org execution db
      → IsSound n org execution (step n call db)
  unfolding open_execution append_execution_event append_ledger_entry in_transaction
  step-IsSound (opens id verity_record_id now input) db s =
      same-IsSound n org execution db _
        (record { chain_state = refl; ledger_entries = refl; execution_events = refl }) s
  step-IsSound (sets_status id status extra) db s =
      same-IsSound n org execution db _ (status-SameEvidence id status extra db) s
  step-IsSound (records id now input) db s =
      transaction-keeps (IsSound n org execution)
        (append_execution_event_in_transaction id now input db) db s
        (λ row db' h. (kernel-IsKept n org execution).by_event id now input db db' row h s)
  step-IsSound (enters host input) db s =
      transaction-keeps (IsSound n org execution)
        (append_ledger_entry_in_transaction n host input db) db s
        (λ row db' h. (kernel-IsKept n org execution).by_entry host input db db' row h s)
  step-IsSound (seals host draw input before_commit) db s =
      seal_execution-keeps n (IsSound n org execution) (kernel-IsKept n org execution) host draw
        input before_commit db s

  -- Any sequence of calls, whether each commits or throws, keeps the hash chain of every
  -- organization and the timeline of every execution.
  pub run_calls-IsSound :
      (calls : List Call) (db : Db)
      → IsSound n org execution db
      → IsSound n org execution (run_calls n calls db)
  run_calls-IsSound [] db s = s
  run_calls-IsSound (call ∷ calls) db s =
      run_calls-IsSound calls (step n call db) (step-IsSound call db s)
