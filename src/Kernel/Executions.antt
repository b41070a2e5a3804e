-- ===== src/Kernel/Executions.antt =====
-- execution/executions.ts: the states of an execution, and the queries on audit.executions.
pub mod Transitions
pub mod Finality
use verity_os_v.Base.{
  Str, str_eq, Bool, true, false, ◌&&◌, List, [], ◌∷◌, ◌++◌, Option, none, some, ok, throw, ◌>>=◌,
  ◌>>◌, or_throw, if◌then◌else◌, find?, any,
}
use verity_os_v.Contracts.{
  ExecutionStatus, created, running, waiting_approval, completed, failed, blocked, cancelled,
  RiskTier, low,
}
use verity_os_v.Kernel.Error.{Throws, execution_not_found, invalid_execution_transition}
use verity_os_v.Kernel.Rows.{ExecutionRow, Db}

-- ===, on statuses
unfoldable pub status_eq : ExecutionStatus → ExecutionStatus → Bool
status_eq created created = true
status_eq running running = true
status_eq waiting_approval waiting_approval = true
status_eq completed completed = true
status_eq failed failed = true
status_eq blocked blocked = true
status_eq cancelled cancelled = true
status_eq _ _ = false

-- TRANSITIONS
unfoldable pub transitions : ExecutionStatus → List ExecutionStatus
transitions created = running ∷ blocked ∷ failed ∷ cancelled ∷ []
transitions running = waiting_approval ∷ completed ∷ blocked ∷ failed ∷ cancelled ∷ []
transitions waiting_approval = running ∷ completed ∷ blocked ∷ failed ∷ cancelled ∷ []
transitions completed = []
transitions failed = []
transitions blocked = []
transitions cancelled = []

unfoldable pub assert_execution_transition : ExecutionStatus → ExecutionStatus → Throws (Unit {0})
assert_execution_transition from to =
    if status_eq from to
    then ok tt
    else if any (status_eq to) (transitions from)
    then ok tt
    else throw (invalid_execution_transition from to)

pub record OpenExecutionInput : Type 0 where
  pub organization_id : Str
  pub actor_id : Option Str
  pub session_id : Option Str
  pub skill_id : Option Str
  pub risk_tier : Option RiskTier
  pub policy_version : Option Str
  pub retention_mode : Option Str

unfoldable pub default_risk : Option RiskTier → RiskTier
default_risk none = low
default_risk (some t) = t

-- `id` and `verity_record_id` are drawn at random, `now` is the clock of the database.
unfoldable pub open_execution :
    (id verity_record_id now : Str) → OpenExecutionInput → Db → ExecutionRow × Db
unfolding default_risk
open_execution id verity_record_id now input db =
    let row : ExecutionRow = record {
      id = id;
      verity_record_id = verity_record_id;
      organization_id = input.organization_id;
      actor_id = input.actor_id;
      session_id = input.session_id;
      skill_id = input.skill_id;
      status = created;
      risk_tier = default_risk input.risk_tier;
      policy_version = input.policy_version;
      retention_mode = input.retention_mode;
      started_at = now;
      completed_at = none;
      final_entry_id = none;
    } in
    (row, record db { executions = db.executions ++ row ∷ [] })

unfoldable pub get_execution : Str → Str → Db → Option ExecutionRow
get_execution organization_id execution_id db =
    find? (λ e. str_eq e.id execution_id && str_eq e.organization_id organization_id) db.executions

unfoldable pub get_execution_by_record : Str → Str → Db → Option ExecutionRow
get_execution_by_record organization_id verity_record_id db =
    find?
      (λ e. str_eq e.verity_record_id verity_record_id && str_eq e.organization_id organization_id)
      db.executions

unfoldable pub get_execution_by_id : Str → Db → Option ExecutionRow
get_execution_by_id execution_id db = find? (λ e. str_eq e.id execution_id) db.executions

-- The optional third argument of setExecutionStatus.
pub record StatusExtra : Type 0 where
  pub organization_id : Option Str
  pub final_entry_id : Option Str
  pub completed_at : Option Str

-- COALESCE(a, b)
unfoldable pub coalesce : Option Str → Option Str → Option Str
coalesce none b = b
coalesce (some a) b = some a

-- WHERE id = $1 AND ($5::uuid IS NULL OR organization_id = $5)
unfoldable pub is_status_target : Str → Option Str → ExecutionRow → Bool
is_status_target execution_id none e = str_eq e.id execution_id
is_status_target execution_id (some org) e =
    str_eq e.id execution_id && str_eq e.organization_id org

unfoldable pub update_status :
    Str → ExecutionStatus → StatusExtra → List ExecutionRow → List ExecutionRow
unfolding coalesce is_status_target
update_status execution_id status extra [] = []
update_status execution_id status extra (e ∷ es) =
    (if is_status_target execution_id extra.organization_id e
      then record e {
        status = status;
        final_entry_id = coalesce extra.final_entry_id e.final_entry_id;
        completed_at = coalesce extra.completed_at e.completed_at;
      }
      else e)
    ∷ update_status execution_id status extra es

-- The id of an organization is a uuid, never the empty text, which the source takes for no
-- organization.
unfoldable pub current_execution : Str → Option Str → Db → Option ExecutionRow
current_execution execution_id none db = get_execution_by_id execution_id db
current_execution execution_id (some org) db = get_execution org execution_id db

-- `id` is the primary key, so the update meets the one row that was read, and `rowCount !== 1`
-- cannot arise behind the first check.
unfoldable pub set_execution_status : Str → ExecutionStatus → StatusExtra → Db → Throws Db
set_execution_status execution_id status extra db = do
  current ← or_throw execution_not_found (current_execution execution_id extra.organization_id db)
  assert_execution_transition current.status status
  ok (record db { executions = update_status execution_id status extra db.executions })
