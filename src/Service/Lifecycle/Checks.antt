-- ===== src/Service/Lifecycle/Checks.antt =====
-- The steps of decideExecutionApproval: its checks, and what it writes.
use verity_os_v.Base.{
  Str, str_eq, str_eq_iff, Bool, true, false, [], ◌∷◌, ◌++◌, length, Option, none, some, ok, throw,
  ok-injective, select, ◌≡◌, refl, sym, ap, ◌∙◌, arith, Bool-cases, inl, inr,
}
use verity_os_v.Base.Stateful.{lift, query, pure, >>=-ok, lift-ok, pure-ok}
use verity_os_v.Base.Stateful
use verity_os_v.Contracts.{PolicyDecisionValue, allow, deny, approval_required}
use verity_os_v.Kernel.Error.{Throws}
use verity_os_v.Kernel.Rows.{ExecutionRow, ExecutionEventRow, Db}
use verity_os_v.Kernel.Executions.{set_execution_status}
use verity_os_v.Kernel.Seal.{Draw}
use verity_os_v.Kernel.Calls.{SameEvidence, status-SameEvidence, after_status}
use verity_os_v.Command.Rows.{ApprovalRow, CommandDb, Surroundings}
use verity_os_v.Command.Policy.{approval_decide, evaluate_policy}
use verity_os_v.Command.Policy.Ceilings.{asks}
use verity_os_v.Command.Approvals.{DecideApprovalInput, is_pending, update_pending, decide_approval}
use verity_os_v.Identity.Rows.{MembershipRow}
use verity_os_v.Service.World.{
  World, kernel_call, status_call, command_call, after_status_change, is_allow, not_found,
}
use verity_os_v.Service.Returned.{command_call-ok, event_call-ok}
use verity_os_v.Service.Lifecycle.{
  DecideInput, approval_of, bound_hash, check_decision, resume_if, decide_accepted,
}

abbrev pub choice : DecideInput → ExecutionRow → DecideApprovalInput
choice input e = record {
  organization_id = e.organization_id;
  approval_id = input.approval_id;
  decided_by = input.actor_id;
  allow = input.allow;
}

pub approval_of-ok :
    (o : Option ApprovalRow) (e : ExecutionRow) (a : ApprovalRow)
    → approval_of o e ≡ ok a
    → (o ≡ some a) × (a.execution_id ≡ e.id)
unfolding approval_of
approval_of-ok none e a h = cc
approval_of-ok (some b) e a h = elim (Bool-cases (str_eq b.execution_id e.id)) [
  | inl t ↦
      let same : b ≡ a = ok-injective (rw t at h) in
      (
        ap some same,
        ap (λ (x : ApprovalRow). x.execution_id) (sym same) ∙ (str_eq_iff b.execution_id e.id).0 t,
      )
  | inr f ↦ let bad : throw not_found ≡ ok a = rw f at h in cc
]

pub bound_hash-ok : (o : Option Str) (s : Str) → bound_hash o s ≡ true → o ≡ some s
bound_hash-ok none s h = cc
bound_hash-ok (some a) s h = ground (arith, str_eq_iff a s)

is_allow-ok : (d : PolicyDecisionValue) → is_allow d ≡ true → d ≡ allow
unfolding is_allow
is_allow-ok allow h = refl
is_allow-ok deny h = cc
is_allow-ok approval_required h = cc

pub check_decision-ok :
    (around : Surroundings) (db : CommandDb) (input : DecideInput) (e : ExecutionRow)
    (o : Option MembershipRow)
    → check_decision around db input e o ≡ ok tt
    → (m : MembershipRow) × (o ≡ some m)
      × ((evaluate_policy around db (
            asks e.organization_id input.actor_id m.role_id
              (approval_decide input.approval_id))).decision
          ≡ allow)
unfolding check_decision
check_decision-ok around db input e none h = cc
check_decision-ok around db input e (some m) h = (m, refl, is_allow-ok _ (ground arith))

decide_approval-ok :
    (now : Str) (input : DecideApprovalInput) (db db' : CommandDb)
    → decide_approval now input db ≡ (ok tt, db')
    → (length (select (is_pending input) db.approvals) ≡ 1)
      × (db'.approvals ≡ update_pending now input db.approvals)
unfolding decide_approval
decide_approval-ok now input db db' h = (ground arith, ground arith)

changed-events :
    (w w' : World) (r : Throws Db)
    → after_status_change w r ≡ (ok tt, w')
    → SameEvidence w.kernel (after_status r w.kernel)
    → (w'.kernel.execution_events ≡ w.kernel.execution_events) × (w'.command ≡ w.command)
changed-events w w' (ok db) h s =
    let world : w' ≡ record w { kernel = db } = cc in
    (ap (λ v. v.kernel.execution_events) world ∙ s.execution_events, ap (λ v. v.command) world)
changed-events w w' (throw e) h s = cc

resumed-events :
    (resumes : Bool) (e : ExecutionRow) (w w' : World)
    → resume_if resumes e w ≡ (ok tt, w')
    → (w'.kernel.execution_events ≡ w.kernel.execution_events) × (w'.command ≡ w.command)
unfolding resume_if status_call
resumed-events false e w w' h =
    let same : w' ≡ w = cc in (ap (λ v. v.kernel.execution_events) same, ap (λ v. v.command) same)
resumed-events true e w w' h =
    changed-events w w' (set_execution_status _ _ _ w.kernel) h (status-SameEvidence _ _ _ w.kernel)

-- The decision, its event and the change of the status.
pub accepted-writes :
    (draw : Draw) (now : Str) (input : DecideInput) (e : ExecutionRow) (approval : ApprovalRow)
    (w w' : World) (row : ExecutionEventRow)
    → decide_accepted draw now input e approval w ≡ (ok row, w')
    → (length (select (is_pending (choice input e)) w.command.approvals) ≡ 1)
      × (w'.command.approvals ≡ update_pending now (choice input e) w.command.approvals)
      × (w'.kernel.execution_events ≡ w.kernel.execution_events ++ row ∷ [])
unfolding decide_accepted Stateful.◌>>=◌
accepted-writes draw now input e approval w w' row h =
    let (u, w1, o1, h1) = >>=-ok (command_call (decide_approval now (choice input e))) _ w h in
    let (db, decided, world1) = command_call-ok (decide_approval now (choice input e)) w w1 u o1 in
    let (pending, approvals) = decide_approval-ok now (choice input e) w.command db decided in
    let (event, w2, o2, h2) = >>=-ok (kernel_call _) _ w1 h1 in
    let world2 = event_call-ok draw.id draw.now _ w1 w2 event o2 in
    let (v, w3, o3, h3) = >>=-ok (resume_if _ e) _ w2 h2 in
    let (events, command) = resumed-events _ e w2 w3 o3 in
    let (same_row, same_world) = pure-ok event row w3 w' h3 in
    written w w1 w2 w3 w' db event row world1 approvals pending world2 events command same_row
      same_world
  where
    written :
        (w w1 w2 w3 w' : World) (db : CommandDb) (event row : ExecutionEventRow)
        → w1 ≡ record w { command = db }
        → db.approvals ≡ update_pending now (choice input e) w.command.approvals
        → length (select (is_pending (choice input e)) w.command.approvals) ≡ 1
        → w2 ≡ record w1 {
          kernel = record w1.kernel { execution_events = w1.kernel.execution_events ++ event ∷ [] };
        }
        → w3.kernel.execution_events ≡ w2.kernel.execution_events
        → w3.command ≡ w2.command
        → row ≡ event
        → w' ≡ w3
        → (length (select (is_pending (choice input e)) w.command.approvals) ≡ 1)
          × (w'.command.approvals ≡ update_pending now (choice input e) w.command.approvals)
          × (w'.kernel.execution_events ≡ w.kernel.execution_events ++ row ∷ [])
    written w w1 w2 w3 w' db event row world1 approvals pending world2 events command same_row
          same_world =
        (
          pending,
          ap (λ (x : World). x.command.approvals) same_world
              ∙ ap (λ (x : CommandDb). x.approvals) command
              ∙ ap (λ (x : World). x.command.approvals) world2
              ∙ ap (λ (x : World). x.command.approvals) world1
              ∙ approvals,
          ap (λ (x : World). x.kernel.execution_events) same_world
              ∙ events
              ∙ ap (λ (x : World). x.kernel.execution_events) world2
              ∙ ap (λ (x : World). x.kernel.execution_events ++ event ∷ []) world1
              ∙ ap (λ r. w.kernel.execution_events ++ r ∷ []) (sym same_row),
        )
