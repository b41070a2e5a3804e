-- ===== src/Kernel/Executions/Finality.antt =====
-- Executions under any sequence of status changes, failed ones included.
use verity_os_v.Base.{
  Str, str_eq, str_eq_iff, &&-true, List, [], ◌∷◌, Option, none, some, ok, throw, ◌≡◌, refl, sym,
  inl, inr, Bool-cases, Member, ◌∙◌, ap, ◌&&◌, subst, All, All-Member, find?, true, ◌⊎◌, or_throw,
  >>=-eq-ok, or_throw-ok,
}
use verity_os_v.Base.Distinct.{find-Member}
use verity_os_v.Contracts.{ExecutionStatus, completed, failed, blocked, cancelled}
use verity_os_v.Kernel.Error.{Throws, execution_not_found}
use verity_os_v.Kernel.Rows.{ExecutionRow, Db}
use verity_os_v.Kernel.Executions.{
  transitions, get_execution, get_execution_by_id, StatusExtra, set_execution_status,
  current_execution, update_status, assert_execution_transition, is_status_target,
}
use verity_os_v.Kernel.Executions.Transitions.{
  IsStatusChange, assert_transition-ok, written, scoped,
}

-- One call of setExecutionStatus, for an organization or by the execution's id alone.
pub record StatusCall : Type 0 where
  pub organization_id : Option Str
  pub execution_id : Str
  pub status : ExecutionStatus
  pub final_entry_id : Option Str
  pub completed_at : Option Str

abbrev pub extra_of : StatusCall → StatusExtra
extra_of c = record {
  organization_id = c.organization_id;
  final_entry_id = c.final_entry_id;
  completed_at = c.completed_at;
}

-- A call that throws leaves the database as it was.
abbrev pub after : Db → Throws Db → Db
after db (ok db') = db'
after db (throw e) = db

pub run_calls : List StatusCall → Db → Db
run_calls [] db = db
run_calls (c ∷ cs) db =
    run_calls cs (after db (set_execution_status c.execution_id c.status (extra_of c) db))

-- The four statuses that close an execution.
abbrev pub IsTerminal : ExecutionStatus → Type 0
IsTerminal s = (s ≡ completed) ⊎ (s ≡ failed) ⊎ (s ≡ blocked) ⊎ (s ≡ cancelled)

terminal-transitions : (s : ExecutionStatus) → IsTerminal s → transitions s ≡ []
unfolding transitions
terminal-transitions s (inl e) = rw e refl
terminal-transitions s (inr (inl e)) = rw e refl
terminal-transitions s (inr (inr (inl e))) = rw e refl
terminal-transitions s (inr (inr (inr e))) = rw e refl

-- A change from a terminal status is to the same status.
from_terminal :
    (a b s : ExecutionStatus) → IsTerminal s → a ≡ s → (a ≡ b) ⊎ Member b (transitions a) → b ≡ s
from_terminal a b s t e (inl k) = sym k ∙ e
from_terminal a b s t e (inr m) =
    absurd (subst (Member b) (ap transitions e ∙ terminal-transitions s t) m)

-- The execution is there with the status.
abbrev pub HasStatus : Str → Str → ExecutionStatus → Db → Type 0
HasStatus org id s db = (e : ExecutionRow) × (get_execution org id db ≡ some e) × (e.status ≡ s)

-- A change that names an organization keeps an execution in its terminal status.
pub change-HasStatus :
    (org id : Str) (s : ExecutionStatus) (org' id' : Str) (status : ExecutionStatus)
    (extra : StatusExtra) (db db' : Db)
    → IsTerminal s
    → IsStatusChange org' id' status extra db db'
    → HasStatus org id s db
    → HasStatus org id s db'
change-HasStatus org id s org' id' status extra db db' t ch (e, here, es) =
    elim (Bool-cases (str_eq id id' && str_eq org org')) [
      | inl hit ↦
          let (hi, ho) = &&-true (str_eq id id') (str_eq org org') hit in
          let ei = (str_eq_iff id id').0 hi in
          let eo = (str_eq_iff org org').0 ho in
          let there : get_execution org' id' db ≡ some e = rw (← ei, ← eo) here in
          let same : ch.before ≡ e = cc (ch.found, there) in
          (
            written status extra e,
            ch.lookups org id ∙ rw (hit, here),
            from_terminal ch.before.status status s t
                (ap (λ (r : ExecutionRow). r.status) same ∙ es) ch.allowed,
          )
      | inr miss ↦ (e, ch.lookups org id ∙ rw (miss, here), es)
    ]

-- The execution of the organization is there, and every row with its id, which is the primary key,
-- has the status.
pub record IsAt (org id : Str) (s : ExecutionStatus) (db : Db) : Type 0 where
  pub there : HasStatus org id s db
  pub all : All (λ e. str_eq e.id id ≡ true → e.status ≡ s) db.executions

current-Member :
    (id : Str) (org : Option Str) (db : Db) (e : ExecutionRow)
    → current_execution id org db ≡ some e
    → Member e db.executions × (str_eq e.id id ≡ true)
unfolding current_execution get_execution get_execution_by_id
current-Member id none db e h = find-Member (λ x. str_eq x.id id) db.executions e h
current-Member id (some org) db e h =
    let (m, p) = find-Member (scoped org id) db.executions e h in
    (m, (&&-true (str_eq e.id id) (str_eq e.organization_id org) p).0)

target-id :
    (id : Str) (org : Option Str) (e : ExecutionRow) → is_status_target id org e ≡ true → e.id ≡ id
unfolding is_status_target
target-id id none e h = (str_eq_iff e.id id).0 h
target-id id (some org) e h =
    (str_eq_iff e.id id).0 ((&&-true (str_eq e.id id) (str_eq e.organization_id org) h).0)

update-All :
    (id id' : Str) (s status : ExecutionStatus) (extra : StatusExtra) (es : List ExecutionRow)
    → (id ≡ id' → status ≡ s)
    → All (λ e. str_eq e.id id ≡ true → e.status ≡ s) es
    → All (λ e. str_eq e.id id ≡ true → e.status ≡ s) (update_status id' status extra es)
unfolding update_status
update-All id id' s status extra [] same h = tt
update-All id id' s status extra (e ∷ es) same h =
    let rest = update-All id id' s status extra es same h.1 in
    elim (Bool-cases (is_status_target id' extra.organization_id e)) [
      | inl hit ↦ (
        rw hit (λ k.
            same (sym ((str_eq_iff e.id id).0 k) ∙ target-id id' extra.organization_id e hit)),
        rest,
      )
      | inr miss ↦ (rw miss h.0, rest)
    ]

update-find :
    (org id id' : Str) (status : ExecutionStatus) (extra : StatusExtra) (es : List ExecutionRow)
    (e : ExecutionRow)
    → find? (scoped org id) es ≡ some e
    → (e' : ExecutionRow) × (find? (scoped org id) (update_status id' status extra es) ≡ some e')
unfolding update_status
update-find org id id' status extra [] e h = cc
update-find org id id' status extra (x ∷ es) e h =
    let rest = update-find org id id' status extra es e in
    elim (Bool-cases (scoped org id x)) [
      | inl this ↦ elim (Bool-cases (is_status_target id' extra.organization_id x)) [
        | inl hit ↦ (written status extra x, rw (hit, this) refl)
        | inr miss ↦ (x, rw (miss, this) refl)
      ]
      | inr other ↦
          let (e', found) = rest (rw other at h) in
          elim (Bool-cases (is_status_target id' extra.organization_id x)) [
            | inl hit ↦ (e', rw (hit, other) found)
            | inr miss ↦ (e', rw (miss, other) found)
          ]
    ]

call-IsAt :
    (org id : Str) (s : ExecutionStatus) (c : StatusCall) (db : Db) (r : Throws Db)
    → IsTerminal s
    → set_execution_status c.execution_id c.status (extra_of c) db ≡ r
    → IsAt org id s db
    → IsAt org id s (after db r)
unfolding set_execution_status get_execution
call-IsAt org id s c db (ok db') t e h =
    let (cur, ec, h1) =
      >>=-eq-ok
        (or_throw execution_not_found (current_execution c.execution_id c.organization_id db)) _
        e in
    let (u, ea, h2) = >>=-eq-ok (assert_execution_transition cur.status c.status) _ h1 in
    let found = or_throw-ok execution_not_found _ ec in
    let (m, is_id) = current-Member c.execution_id c.organization_id db cur found in
    let kept : id ≡ c.execution_id → c.status ≡ s = λ same.
      from_terminal cur.status c.status s t (All-Member _ cur db.executions h.all m (rw same is_id))
        (assert_transition-ok cur.status c.status ea) in
    let all = update-All id c.execution_id s c.status (extra_of c) db.executions kept h.all in
    let (e', found') =
      update-find org id c.execution_id c.status (extra_of c) db.executions h.there.0 h.there.1 in
    let (m', p') = find-Member (scoped org id) _ e' found' in
    let same_db : record db {
      executions = update_status c.execution_id c.status (extra_of c) db.executions;
    }
        ≡ db' =
      cc in
    subst (IsAt org id s) same_db (record {
      there = (
        e',
        found',
        All-Member _ e' _ all m' ((&&-true (str_eq e'.id id) (str_eq e'.organization_id org) p').0),
      );
      all = all;
    })
call-IsAt org id s c db (throw x) t e h = h

-- An execution whose status is completed, failed, blocked or cancelled, as that of every row with
-- its id, keeps it through any sequence of calls of setExecutionStatus, those that throw and those
-- that name no organization included.
pub run_calls-terminal :
    (calls : List StatusCall) (org id : Str) (s : ExecutionStatus) (db : Db)
    → IsTerminal s
    → IsAt org id s db
    → IsAt org id s (run_calls calls db)
unfolding run_calls
run_calls-terminal [] org id s db t h = h
run_calls-terminal (c ∷ cs) org id s db t h =
    run_calls-terminal cs org id s _ t (call-IsAt org id s c db _ t refl h)
