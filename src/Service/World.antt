-- ===== src/Service/World.antt =====
-- The state and the errors of apps/core-api/src/execution/service.ts and lifecycle.ts, and the
-- queries that both use.
use verity_os_v.Base.{
  Str, Bool, true, false, List, [], ◌∷◌, Option, none, some, Result, ok, throw, find?, get_last?,
  if◌then◌else◌,
}
use verity_os_v.Base.Stateful.{Stateful}
use verity_os_v.Contracts.{
  ExecutionStatus, created, running, waiting_approval, completed, failed, blocked, cancelled,
  PolicyDecisionValue, allow, deny, approval_required,
}
use verity_os_v.Kernel.Error.{Throws, Error}
use verity_os_v.Kernel.Rows.{ExecutionRow, ExecutionEventRow, Db}
use verity_os_v.Kernel.Executions.{get_execution}
use verity_os_v.Kernel.Events.{list_execution_events}
use verity_os_v.Command.Rows.{CommandDb}
use verity_os_v.Command.Approvals.{ApprovalError}
use verity_os_v.Identity.Rows.{AuthDb, MembershipRow, is_membership}

-- The schemas audit, command and auth of one database.
pub record World : Type 0 where
  pub kernel : Db
  pub command : CommandDb
  pub auth : AuthDb

-- The codes of ExecutionError, of which a denial carries the reason of the policy, and the errors
-- of the packages that are raised again.
pub data ServiceError : Type 0 where
  not_found invalid_execution_transition invalid_input unknown_skill not_a_member : ServiceError
  artifact_hash_mismatch approval_pending : ServiceError
  policy_denied : Str → ServiceError
  kernel_error : Error → ServiceError
  approval_error : ApprovalError → ServiceError

abbrev pub Action : Type 0 → Type 0
Action A = Stateful ServiceError World A

-- A call of the kernel that commits by itself.
abbrev pub with_kernel : {A : Type 0} → World → Throws A × Db → Result ServiceError A × World
with_kernel w (ok a, db) = (ok a, record w { kernel = db })
with_kernel w (throw e, db) = (throw (kernel_error e), record w { kernel = db })

unfoldable pub kernel_call : {A : Type 0} → (Db → Throws A × Db) → Action A
kernel_call f w = with_kernel w (f w.kernel)

-- A call of the kernel inside a transaction of the caller.
abbrev pub in_kernel : {A : Type 0} → World → Throws (A × Db) → Result ServiceError A × World
in_kernel w (ok (a, db)) = (ok a, record w { kernel = db })
in_kernel w (throw e) = (throw (kernel_error e), w)

unfoldable pub kernel_step : {A : Type 0} → (Db → Throws (A × Db)) → Action A
kernel_step f w = in_kernel w (f w.kernel)

abbrev pub after_status_change : World → Throws Db → Result ServiceError (Unit {0}) × World
after_status_change w (ok db) = (ok tt, record w { kernel = db })
after_status_change w (throw e) = (throw (kernel_error e), w)

unfoldable pub status_call : (Db → Throws Db) → Action (Unit {0})
status_call f w = after_status_change w (f w.kernel)

abbrev pub with_command :
    {A : Type 0} → World → Result ApprovalError A × CommandDb → Result ServiceError A × World
with_command w (ok a, db) = (ok a, record w { command = db })
with_command w (throw e, db) = (throw (approval_error e), record w { command = db })

unfoldable pub command_call :
    {A : Type 0} → (CommandDb → Result ApprovalError A × CommandDb) → Action A
command_call f w = with_command w (f w.command)

abbrev pub event_id : Option ExecutionEventRow → Option Str
event_id none = none
event_id (some e) = some e.id

-- events.at(-1)?.id
unfoldable pub last_event_id : World → Str → Str → Option Str
last_event_id w org execution = event_id (get_last? (list_execution_events w.kernel org execution))

-- parent ? [parent] : []
abbrev pub as_parents : Option Str → List Str
as_parents none = []
as_parents (some id) = id ∷ []

unfoldable pub is_terminal : ExecutionStatus → Bool
is_terminal created = false
is_terminal running = false
is_terminal waiting_approval = false
is_terminal completed = true
is_terminal failed = true
is_terminal blocked = true
is_terminal cancelled = true

unfoldable pub is_waiting : ExecutionStatus → Bool
is_waiting created = false
is_waiting running = false
is_waiting waiting_approval = true
is_waiting completed = false
is_waiting failed = false
is_waiting blocked = false
is_waiting cancelled = false

unfoldable pub is_allow : PolicyDecisionValue → Bool
is_allow allow = true
is_allow deny = false
is_allow approval_required = false

unfoldable pub found_open : Option ExecutionRow → Result ServiceError ExecutionRow
unfolding is_terminal
found_open none = throw not_found
found_open (some e) = if is_terminal e.status then throw invalid_execution_transition else ok e

unfoldable pub require_scoped_open : World → Str → Str → Result ServiceError ExecutionRow
unfolding found_open
require_scoped_open w org execution = found_open (get_execution org execution w.kernel)

-- SELECT … FROM auth.memberships WHERE user_id = $1 AND organization_id = $2
unfoldable pub membership_of : World → Str → Str → Option MembershipRow
membership_of w user org = find? (is_membership org user) w.auth.memberships
