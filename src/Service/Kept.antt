-- ===== src/Service/Kept.antt =====
-- What the kernel's calls keep, each call of apps/core-api/src/execution keeps, also where it
-- throws part of the way.
use verity_os_v.Base.{Str, Bool, true, false, Option, Result, ok, throw, ◌≡◌, refl}
use verity_os_v.Base.Stateful.{
  ◌>>=◌, query, lift, transaction, Keeps, bind-Keeps, transaction-Keeps,
}
use verity_os_v.Kernel.Error.{Throws}
use verity_os_v.Kernel.Noble.{Noble}
use verity_os_v.Kernel.Rows.{ExecutionRow, Db}
use verity_os_v.Kernel.Executions.{set_execution_status, open_execution}
use verity_os_v.Kernel.Ledger.{
  Host, AppendLedgerInput, append_ledger_entry, append_ledger_entry_in_transaction, in_transaction,
}
use verity_os_v.Kernel.Events.{
  AppendExecutionEventInput, append_execution_event, append_execution_event_in_transaction,
}
use verity_os_v.Kernel.Seal.{Draw}
use verity_os_v.Kernel.Ledger.Invariant.{transaction-keeps}
use verity_os_v.Kernel.Seal.Keeps.{seal_execution-keeps}
use verity_os_v.Service.Stable.{IsStable}
use verity_os_v.Contracts.{running}
use verity_os_v.Command.Rows.{CommandDb, Surroundings}
use verity_os_v.Command.Approvals.{ApprovalError}
use verity_os_v.Service.World.{
  World, ServiceError, Action, kernel_call, kernel_step, status_call, command_call, with_kernel,
  in_kernel, with_command, after_status_change,
}
use verity_os_v.Service.Skills.{SkillEventInput, record_skill_lifecycle_event}
use verity_os_v.Service.Lifecycle.{
  RequestApprovalInput, insert_approval, request_in_transaction, request_execution_approval,
  DecideInput, resume_if, decide_accepted, decide_from, decide_execution_approval,
}
use verity_os_v.Service.Outcome.{Draws}
use verity_os_v.Service.Governed.{
  OpenInput, open_governed_execution, FinalizeInput, finalize_governed_execution, always,
}

module _ (n : Noble) (P : Db → Type 0) (k : IsStable n P) where
  abbrev pub Holds : World → Type 0
  Holds w = P w.kernel

  abbrev pub Safe : {A : Type 0} → Action A → Type 0
  Safe m = Keeps Holds m

  query-then :
      {A B : Type 0} (f : World → A) (next : A → Action B)
      → ((a : A) → Safe (next a))
      → Safe (query f >>= next)
  query-then f next h = bind-Keeps Holds (query f) next (λ w s. s) h

  lift-then :
      {A B : Type 0} (r : Result ServiceError A) (next : A → Action B)
      → ((a : A) → Safe (next a))
      → Safe (lift r >>= next)
  lift-then r next h = bind-Keeps Holds (lift r) next (λ w s. s) h

  then-Safe :
      {A B : Type 0} (m : Action A) (next : A → Action B)
      → Safe m
      → ((a : A) → Safe (next a))
      → Safe (m >>= next)
  then-Safe m next h rest = bind-Keeps Holds m next h rest

  with_kernel-Holds :
      {A : Type 0} (w : World) (r : Throws A × Db) → P (r.1) → Holds ((with_kernel w r).1)
  with_kernel-Holds w (ok a, db) s = s
  with_kernel-Holds w (throw e, db) s = s

  kernel_call-Safe :
      {A : Type 0} (f : Db → Throws A × Db)
      → ((db : Db) → P db → P ((f db).1))
      → Safe (kernel_call f)
  unfolding kernel_call
  kernel_call-Safe f h w s = with_kernel-Holds w (f w.kernel) (h w.kernel s)

  in_kernel-Holds :
      {A : Type 0} (w : World) (r : Throws (A × Db))
      → Holds w
      → ((a : A) (db : Db) → r ≡ ok (a, db) → P db)
      → Holds ((in_kernel w r).1)
  in_kernel-Holds w (ok (a, db)) s h = h a db refl
  in_kernel-Holds w (throw e) s h = s

  kernel_step-Safe :
      {A : Type 0} (f : Db → Throws (A × Db))
      → ((db db' : Db) (a : A) → f db ≡ ok (a, db') → P db → P db')
      → Safe (kernel_step f)
  unfolding kernel_step
  kernel_step-Safe f h w s = in_kernel-Holds w (f w.kernel) s (λ a db e. h w.kernel db a e s)

  status-Holds :
      (w : World) (r : Throws Db)
      → Holds w
      → ((db : Db) → r ≡ ok db → P db)
      → Holds ((after_status_change w r).1)
  status-Holds w (ok db) s h = h db refl
  status-Holds w (throw e) s h = s

  with_command-Holds :
      {A : Type 0} (w : World) (r : Result ApprovalError A × CommandDb)
      → Holds w
      → Holds ((with_command w r).1)
  with_command-Holds w (ok a, db) s = s
  with_command-Holds w (throw e, db) s = s

  command_call-Safe :
      {A : Type 0} (f : CommandDb → Result ApprovalError A × CommandDb) → Safe (command_call f)
  unfolding command_call
  command_call-Safe f w s = with_command-Holds w (f w.command) s

  event-Keeps :
      (draw : Draw) (input : AppendExecutionEventInput) (db : Db)
      → P db
      → P ((append_execution_event draw.id draw.now input db).1)
  unfolding append_execution_event in_transaction
  event-Keeps draw input db s =
      transaction-keeps P (append_execution_event_in_transaction draw.id draw.now input db) db s
        (λ row db' h. k.kept.by_event draw.id draw.now input db db' row h s)

  entry-Keeps :
      (host : Host) (input : AppendLedgerInput) (db : Db)
      → P db
      → P ((append_ledger_entry n host input db).1)
  unfolding append_ledger_entry in_transaction
  entry-Keeps host input db s =
      transaction-keeps P (append_ledger_entry_in_transaction n host input db) db s
        (λ row db' h. k.kept.by_entry host input db db' row h s)

  event-Safe :
      (draw : Draw) (input : AppendExecutionEventInput)
      → Safe (kernel_call (append_execution_event draw.id draw.now input))
  event-Safe draw input = kernel_call-Safe _ (event-Keeps draw input)

  pub skill-Safe :
      (draw : Draw) (input : SkillEventInput) → Safe (record_skill_lifecycle_event draw input)
  unfolding record_skill_lifecycle_event
  skill-Safe draw input = query-then _ _ λ found. lift-then _ _ λ e. lift-then _ _ λ known.
      lift-then _ _ λ config. lift-then _ _ λ artifact.
        query-then _ _ λ parent. then-Safe (kernel_call _) _ (event-Safe draw _) λ row w s. s

  request_in_transaction-Safe :
      (host : Host) (draw : Draw) (id now : Str) (e : ExecutionRow) (input : RequestApprovalInput)
      (artifact : Str) (parent : Option Str)
      → Safe (request_in_transaction n host draw id now e input artifact parent)
  unfolding request_in_transaction insert_approval
  request_in_transaction-Safe host draw id now e input artifact parent =
      then-Safe (command_call _) _ (command_call-Safe _) λ opened.
        then-Safe (kernel_step _) _
          (kernel_step-Safe _ (λ db db' row h s. k.kept.by_event draw.id draw.now _ db db' row h s))
          λ event.
            query-then _ _ λ request.
              kernel_step-Safe _ (λ db db' row h s. k.kept.by_entry host _ db db' row h s)

  pub request-Safe :
      (host : Host) (draw : Draw) (id now : Str) (input : RequestApprovalInput)
      → Safe (request_execution_approval n host draw id now input)
  unfolding request_execution_approval
  request-Safe host draw id now input = query-then _ _ λ found. lift-then _ _ λ e.
      lift-then _ _ λ checked. lift-then _ _ λ artifact. query-then _ _ λ member.
        lift-then _ _ λ known. query-then _ _ λ parent.
          then-Safe (transaction _) _
            (transaction-Keeps Holds _
              (request_in_transaction-Safe host draw id now e input artifact parent))
            λ entry w s. s

  resume_if-Safe : (resumes : Bool) (e : ExecutionRow) → Safe (resume_if resumes e)
  unfolding resume_if status_call
  resume_if-Safe false e w s = s
  resume_if-Safe true e w s =
      status-Holds w (set_execution_status _ _ _ w.kernel) s
        (λ db h. k.by_status e.organization_id e.id running _ w.kernel db refl h s)

  pub decide-Safe :
      (around : Surroundings) (draw : Draw) (now : Str) (input : DecideInput)
      → Safe (decide_execution_approval around draw now input)
  unfolding decide_execution_approval decide_from decide_accepted
  decide-Safe around draw now input = query-then _ _ λ row. lift-then _ _ λ e.
      query-then _ _ λ asked. lift-then _ _ λ approval. lift-then _ _ λ is_hash.
        lift-then _ _ λ bound. query-then _ _ λ checked. lift-then _ _ λ may.
          then-Safe (command_call _) _ (command_call-Safe _) λ decided. query-then _ _ λ parent.
            then-Safe (kernel_call _) _ (event-Safe draw _)
              λ event. then-Safe (resume_if _ e) _ (resume_if-Safe _ e) λ resumed w s. s

  always-Holds : {A : Type 0} (r : A × Db) → P (r.1) → P ((always r).1)
  always-Holds (a, db) s = s

  pub open-Safe :
      (host : Host) (draw : Draws) (id verity_record_id now : Str) (input : OpenInput)
      → Safe (open_governed_execution n host draw id verity_record_id now input)
  unfolding open_governed_execution
  open-Safe host draw id verity_record_id now input =
      then-Safe (kernel_call _) _
        (kernel_call-Safe _ (λ db s.
          always-Holds (open_execution id verity_record_id now _ db)
            (k.by_open id verity_record_id now _ db s)))
        λ e. then-Safe (kernel_call _) _ (event-Safe (draw 0) _) λ made.
          then-Safe (kernel_call _) _ (event-Safe (draw 1) _) λ known.
            then-Safe (kernel_call _) _ (kernel_call-Safe _ (entry-Keeps host _))
              λ entry. query-then _ _ λ running w s. s

  pub finalize-Safe :
      (host : Host) (draw : Draws) (seal_draw : Draw) (input : FinalizeInput)
      (before_commit : Throws (Unit {0}))
      → Safe (finalize_governed_execution n host draw seal_draw input before_commit)
  unfolding finalize_governed_execution
  finalize-Safe host draw seal_draw input before_commit = query-then _ _ λ row. lift-then _ _ λ e.
      query-then _ _ λ parent. query-then _ _ λ events.
        kernel_call-Safe _ (seal_execution-keeps n P k.kept host seal_draw _ before_commit)
