-- ===== src/Service/Stable.antt =====
-- What every call of the execution service keeps: a predicate on the database that each call of
-- the kernel which the service makes keeps.
use verity_os_v.Base.{
  Str, Bool, List, [], ◌∷◌, ◌++◌, some, ok, ◌≡◌, refl, ap, ◌∙◌, find?, subst, Bool-cases, inl, inr,
}
use verity_os_v.Contracts.{
  ExecutionStatus, LedgerEntryType, request_opened, approval_requested, action_completed, final,
  failure,
}
use verity_os_v.Kernel.Noble.{Noble}
use verity_os_v.Kernel.Rows.{ExecutionRow, LedgerEntryRow, Db}
use verity_os_v.Kernel.Executions.{
  get_execution, StatusExtra, OpenExecutionInput, open_execution, set_execution_status,
}
use verity_os_v.Kernel.Executions.Transitions.{scoped, set_status-IsStatusChange}
use verity_os_v.Kernel.Executions.Finality.{IsTerminal, HasStatus, change-HasStatus}
use verity_os_v.Kernel.Ledger.{AppendLedgerInput, follow_up}
use verity_os_v.Kernel.Ledger.Append.{append-Appended}
use verity_os_v.Kernel.Events.Timeline.{append_event-Appended}
use verity_os_v.Kernel.Seal.Keeps.{IsKept}
use verity_os_v.Kernel.Calls.{
  IsSound, after_status, same-IsSound, kernel-IsKept, status-SameEvidence,
}

pub record IsStable (n : Noble) (P : Db → Type 0) : Type 0 where
  pub kept : IsKept n P
  pub by_open :
      (id verity_record_id now : Str) (input : OpenExecutionInput) (db : Db)
      → P db
      → P ((open_execution id verity_record_id now input db).1)
  pub by_status :
      (org id : Str) (status : ExecutionStatus) (extra : StatusExtra) (db db' : Db)
      → extra.organization_id ≡ some org
      → set_execution_status id status extra db ≡ ok db'
      → P db
      → P db'

-- The hash chain of an organization and the timeline of an execution.
pub IsSound-IsStable : (n : Noble) (org execution : Str) → IsStable n (IsSound n org execution)
unfolding open_execution
IsSound-IsStable n org execution = record {
  kept = kernel-IsKept n org execution;
  by_open = λ id verity_record_id now input db s.
      same-IsSound n org execution db _
        (record { chain_state = refl; ledger_entries = refl; execution_events = refl }) s;
  by_status = λ o id status extra db db' eo h s.
      subst (λ (r : Db). IsSound n org execution r) (ap (λ r. after_status r db) h)
        (same-IsSound n org execution db _ (status-SameEvidence id status extra db) s);
}

find-snoc :
    (p : ExecutionRow → Bool) (es : List ExecutionRow) (e x : ExecutionRow)
    → find? p es ≡ some e
    → find? p (es ++ x ∷ []) ≡ some e
find-snoc p [] e x h = cc
find-snoc p (y ∷ es) e x h = elim (Bool-cases (p y)) [
  | inl t ↦ rw t (rw t at h)
  | inr t ↦ rw t (find-snoc p es e x (rw t at h))
]

module _ (n : Noble) (org id : Str) (s : ExecutionStatus) (t : IsTerminal s) where
  same-HasStatus :
      (db db' : Db)
      → db'.executions ≡ db.executions
      → HasStatus org id s db
      → HasStatus org id s db'
  unfolding get_execution
  same-HasStatus db db' same (e, found, is) = (e, ap (find? (scoped org id)) same ∙ found, is)

  status-HasStatus :
      (o i : Str) (status : ExecutionStatus) (extra : StatusExtra) (db db' : Db)
      → extra.organization_id ≡ some o
      → set_execution_status i status extra db ≡ ok db'
      → HasStatus org id s db
      → HasStatus org id s db'
  status-HasStatus o i status extra db db' eo h =
      change-HasStatus org id s o i status extra db db' t
        (set_status-IsStatusChange o i status extra db db' eo h)

  follow_up-HasStatus :
      (kind : LedgerEntryType) (input : AppendLedgerInput) (row : LedgerEntryRow) (db db' : Db)
      → follow_up kind input row db ≡ ok db'
      → HasStatus org id s db
      → HasStatus org id s db'
  unfolding follow_up
  follow_up-HasStatus request_opened input row db db' h =
      status-HasStatus input.organization_id _ _ _ db db' refl h
  follow_up-HasStatus approval_requested input row db db' h =
      status-HasStatus input.organization_id _ _ _ db db' refl h
  follow_up-HasStatus action_completed input row db db' h =
      let same : db ≡ db' = cc in subst (HasStatus org id s) same
  follow_up-HasStatus final input row db db' h =
      status-HasStatus input.organization_id _ _ _ db db' refl h
  follow_up-HasStatus failure input row db db' h =
      status-HasStatus input.organization_id _ _ _ db db' refl h

  -- The terminal status of an execution.
  pub HasStatus-IsStable : IsStable n (HasStatus org id s)
  unfolding open_execution get_execution
  HasStatus-IsStable = record {
    kept = record {
      by_event = λ i now input db db' row h.
          same-HasStatus db db'
            (ap (λ (d : Db). d.executions) (append_event-Appended i now input db row db' h).db_is);
      by_entry = λ host input db db' row h is.
          let a = append-Appended n host input db row db' h in
          follow_up-HasStatus input.entry_type input row a.base db' a.followed
            (same-HasStatus db a.base a.base_executions is);
    };
    by_open = λ i verity_record_id now input db (e, found, is).
        (e, find-snoc (scoped org id) db.executions e _ found, is);
    by_status = status-HasStatus;
  }
