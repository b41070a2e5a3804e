-- ===== src/Kernel/Executions/Transitions.antt =====
-- setExecutionStatus of execution/executions.ts: one change of a status.
use verity_os_v.Base.{
  or_throw-ok, Str, str_eq, str_eq_iff, Bool, true, ◌&&◌, List, [], ◌∷◌, Option, none, some, ok,
  >>=-eq-ok, or_throw, if◌then◌else◌, find?, any, ◌≡◌, refl, arith, ◌⊎◌, inl, inr, Bool-cases,
  Member,
}
use verity_os_v.Contracts.{ExecutionStatus}
use verity_os_v.Kernel.Error.{execution_not_found}
use verity_os_v.Kernel.Rows.{ExecutionRow, Db}
use verity_os_v.Kernel.Executions.{
  status_eq, transitions, assert_execution_transition, get_execution, StatusExtra, coalesce,
  update_status, current_execution, set_execution_status,
}

-- The row that a call writes in place of an execution that it targets.
abbrev pub written : ExecutionStatus → StatusExtra → ExecutionRow → ExecutionRow
written status extra e = record e {
  status = status;
  final_entry_id = coalesce extra.final_entry_id e.final_entry_id;
  completed_at = coalesce extra.completed_at e.completed_at;
}

abbrev pub map_option {ℓ κ} : {A : Type ℓ} {B : Type κ} → (A → B) → Option A → Option B
map_option f none = none
map_option f (some a) = some (f a)

abbrev pub scoped : Str → Str → ExecutionRow → Bool
scoped org id e = str_eq e.id id && str_eq e.organization_id org

find-update_status :
    (org id org' id' : Str) (status : ExecutionStatus) (extra : StatusExtra)
    (es : List ExecutionRow)
    → extra.organization_id ≡ some org'
    → find? (scoped org id) (update_status id' status extra es) ≡ (
        if str_eq id id' && str_eq org org'
        then map_option (written status extra) (find? (scoped org id) es)
        else find? (scoped org id) es)
unfolding update_status
find-update_status org id org' id' status extra [] h = ground arith
find-update_status org id org' id' status extra (e ∷ es) h = ground (
  arith,
  h,
  find-update_status org id org' id' status extra es h,
  str_eq_iff e.id id,
  str_eq_iff e.id id',
  str_eq_iff id id',
  str_eq_iff e.organization_id org,
  str_eq_iff e.organization_id org',
  str_eq_iff org org',
)

status_eq_sound : (a b : ExecutionStatus) → status_eq a b ≡ true → a ≡ b
unfolding status_eq
status_eq_sound a b h = ground arith

any-Member :
    (s : ExecutionStatus) (l : List ExecutionStatus) → any (status_eq s) l ≡ true → Member s l
any-Member s [] h = cc
any-Member s (x ∷ l) h = elim (Bool-cases (status_eq s x)) [
  | inl e ↦ inl (status_eq_sound s x e)
  | inr e ↦ inr (any-Member s l (rw e at h))
]

-- An accepted change keeps the status or follows the table.
pub assert_transition-ok :
    (from to : ExecutionStatus)
    → assert_execution_transition from to ≡ ok tt
    → (from ≡ to) ⊎ Member to (transitions from)
unfolding assert_execution_transition
assert_transition-ok from to h = elim (Bool-cases (status_eq from to)) [
  | inl e ↦ inl (status_eq_sound from to e)
  | inr e ↦ elim (Bool-cases (any (status_eq to) (transitions from))) [
    | inl m ↦ inr (any-Member to (transitions from) m)
    | inr m ↦ absurd (ground arith)
  ]
]

-- What a successful change does: it read an execution of that organization, the change was allowed
-- from its status, every lookup shows the change exactly at that execution, and no other table is
-- touched.
pub record IsStatusChange (org id : Str) (status : ExecutionStatus) (extra : StatusExtra)
    (db db' : Db) : Type 0 where
  pub before : ExecutionRow
  pub found : get_execution org id db ≡ some before
  pub allowed : (before.status ≡ status) ⊎ Member status (transitions before.status)
  pub lookups :
      (o i : Str)
      → get_execution o i db' ≡ (
          if str_eq i id && str_eq o org
          then map_option (written status extra) (get_execution o i db)
          else get_execution o i db)
  pub chain_state : db'.chain_state ≡ db.chain_state
  pub ledger_entries : db'.ledger_entries ≡ db.ledger_entries
  pub merkle_checkpoints : db'.merkle_checkpoints ≡ db.merkle_checkpoints
  pub execution_events : db'.execution_events ≡ db.execution_events

-- A change of the status of an execution of `org` that does not throw is a status change.
pub set_status-IsStatusChange :
    (org id : Str) (status : ExecutionStatus) (extra : StatusExtra) (db db' : Db)
    → extra.organization_id ≡ some org
    → set_execution_status id status extra db ≡ ok db'
    → IsStatusChange org id status extra db db'
unfolding set_execution_status current_execution get_execution
set_status-IsStatusChange org id status extra db db' eo h =
    let h' = rw eo at h in
    let (cur, ec, h1) = >>=-eq-ok (or_throw execution_not_found (get_execution org id db)) _ h' in
    let (u, ea, h2) = >>=-eq-ok (assert_execution_transition cur.status status) _ h1 in
    let same : db' ≡ record db { executions = update_status id status extra db.executions } = cc in
    rw same (record {
      before = cur;
      found = or_throw-ok execution_not_found (get_execution org id db) ec;
      allowed = assert_transition-ok cur.status status ea;
      lookups = λ o i. find-update_status o i org id status extra db.executions eo;
      chain_state = refl;
      ledger_entries = refl;
      merkle_checkpoints = refl;
      execution_events = refl;
    })
