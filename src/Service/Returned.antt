-- ===== src/Service/Returned.antt =====
-- Calls of the packages from apps/core-api/src/execution that returned.
use verity_os_v.Base.{Str, Result, ok, throw, ◌++◌, [], ◌∷◌, ◌≡◌, ap, ◌∙◌}
use verity_os_v.Kernel.Error.{Throws}
use verity_os_v.Kernel.Rows.{ExecutionEventRow, Db}
use verity_os_v.Kernel.Ledger.{in_transaction, commit_or_rollback}
use verity_os_v.Kernel.Events.{
  AppendExecutionEventInput, append_execution_event, append_execution_event_in_transaction,
}
use verity_os_v.Kernel.Events.Timeline.{append_event-Appended}
use verity_os_v.Command.Rows.{CommandDb}
use verity_os_v.Command.Approvals.{ApprovalError}
use verity_os_v.Service.World.{World, kernel_call, with_kernel, command_call, with_command}

with_kernel-ok :
    {A : Type 0} (w w' : World) (r : Throws A × Db) (a : A)
    → with_kernel w r ≡ (ok a, w')
    → (db : Db) × (r ≡ (ok a, db)) × (w' ≡ record w { kernel = db })
with_kernel-ok w w' (ok b, db) a h = (db, cc, cc)
with_kernel-ok w w' (throw e, db) a h = cc

pub kernel_call-ok :
    {A : Type 0} (f : Db → Throws A × Db) (w w' : World) (a : A)
    → kernel_call f w ≡ (ok a, w')
    → (db : Db) × (f w.kernel ≡ (ok a, db)) × (w' ≡ record w { kernel = db })
unfolding kernel_call
kernel_call-ok f w w' a h = with_kernel-ok w w' (f w.kernel) a h

pub committed_body :
    {A : Type 0} (r : Throws (A × Db)) (db db' : Db) (a : A)
    → commit_or_rollback r db ≡ (ok a, db')
    → r ≡ ok (a, db')
unfolding commit_or_rollback
committed_body (ok (b, db1)) db db' a h = cc
committed_body (throw e) db db' a h = cc

with_command-ok :
    {A : Type 0} (w w' : World) (r : Result ApprovalError A × CommandDb) (a : A)
    → with_command w r ≡ (ok a, w')
    → (db : CommandDb) × (r ≡ (ok a, db)) × (w' ≡ record w { command = db })
with_command-ok w w' (ok b, db) a h = (db, cc, cc)
with_command-ok w w' (throw e, db) a h = cc

pub command_call-ok :
    {A : Type 0} (f : CommandDb → Result ApprovalError A × CommandDb) (w w' : World) (a : A)
    → command_call f w ≡ (ok a, w')
    → (db : CommandDb) × (f w.command ≡ (ok a, db)) × (w' ≡ record w { command = db })
unfolding command_call
command_call-ok f w w' a h = with_command-ok w w' (f w.command) a h

-- An event that was appended stands at the end of the table.
pub event_call-ok :
    (id now : Str) (input : AppendExecutionEventInput) (w w' : World) (row : ExecutionEventRow)
    → kernel_call (append_execution_event id now input) w ≡ (ok row, w')
    → w' ≡ record w {
      kernel = record w.kernel { execution_events = w.kernel.execution_events ++ row ∷ [] };
    }
unfolding append_execution_event in_transaction
event_call-ok id now input w w' row h =
    let (db, appended, world) = kernel_call-ok (append_execution_event id now input) w w' row h in
    let body =
      committed_body (append_execution_event_in_transaction id now input w.kernel) w.kernel db row
        appended in
    world
    ∙ ap (λ (d : Db). record w { kernel = d })
        ((append_event-Appended id now input w.kernel row db body).db_is)
