-- ===== src/Service/Lifecycle/Decide.antt =====
-- decideExecutionApproval of apps/core-api/src/execution/lifecycle.ts: what it has checked and done
-- where it returns.
use verity_os_v.Base.{
  List, Str, [], ◌∷◌, ◌++◌, length, some, ok, guard, guard-ok, or_throw, or_throw-ok, select, ◌≡◌,
  ◌≢◌, sym, ap, ◌∙◌, subst,
}
use verity_os_v.Base.Stateful.{lift, query, pure, >>=-ok, lift-ok, pure-ok}
use verity_os_v.Base.Stateful
use verity_os_v.Contracts.{allow}
use verity_os_v.Kernel.Noble.{is_sha256_hex}
use verity_os_v.Kernel.Rows.{ExecutionRow, ExecutionEventRow}
use verity_os_v.Kernel.Executions.{get_execution}
use verity_os_v.Kernel.Seal.{Draw}
use verity_os_v.Command.Rows.{ApprovalRow, Surroundings}
use verity_os_v.Command.Policy.{approval_decide, evaluate_policy, find_approval}
use verity_os_v.Command.Policy.Ceilings.{asks, evaluate-self_approval}
use verity_os_v.Command.Approvals.{get_approval, is_pending}
use verity_os_v.Identity.Rows.{MembershipRow}
use verity_os_v.Service.World.{World, membership_of, not_found}
use verity_os_v.Command.Approvals.Writes.{IsJudged, update_pending-IsJudged}
use verity_os_v.Service.Lifecycle.{
  DecideInput, approval_of, bound_hash, check_decision, decide_accepted, decide_from,
  decide_execution_approval,
}
use verity_os_v.Service.Lifecycle.Checks.{
  choice, approval_of-ok, bound_hash-ok, check_decision-ok, accepted-writes,
}

-- What a decision that returned has checked, and what it has written.
pub record IsDecided (around : Surroundings) (now : Str) (input : DecideInput) (w : World)
    (row : ExecutionEventRow) (w' : World) : Type 0 where
  pub execution : ExecutionRow
  pub approval : ApprovalRow
  pub member : MembershipRow
  pub found : get_execution input.organization_id input.execution_id w.kernel ≡ some execution
  pub asked : get_approval w.command execution.organization_id input.approval_id ≡ some approval
  pub of_execution : approval.execution_id ≡ execution.id
  pub bound : approval.artifact_hash ≡ some input.artifact_hash
  pub is_member : membership_of w input.actor_id execution.organization_id ≡ some member
  pub allowed :
      (evaluate_policy around w.command (
        asks execution.organization_id input.actor_id member.role_id
          (approval_decide input.approval_id))).decision
      ≡ allow
  pub by_other :
      (r : ApprovalRow)
      → find_approval w.command input.approval_id ≡ some r
      → r.requested_by ≢ input.actor_id
  pub was_pending : length (select (is_pending (choice input execution)) w.command.approvals) ≡ 1
  pub approvals_are : IsJudged now (choice input execution) w.command.approvals w'.command.approvals
  pub events_are : w'.kernel.execution_events ≡ w.kernel.execution_events ++ row ∷ []

-- The parts of a decision, its checks passed.
module _ (around : Surroundings) (draw : Draw) (now : Str) (input : DecideInput) (w w' : World)
    (row : ExecutionEventRow) (e : ExecutionRow) where
  from-IsDecided :
      get_execution input.organization_id input.execution_id w.kernel ≡ some e
      → decide_from around draw now input e w ≡ (ok row, w')
      → IsDecided around now input w row w'
  unfolding decide_from Stateful.◌>>=◌
  from-IsDecided found h =
      let (a, w1, o1, h1) =
        >>=-ok (lift (approval_of (get_approval w.command e.organization_id input.approval_id) e)) _
          w h in
      let (is_own, same1) = lift-ok _ w w1 a o1 in
      let (asked, of_execution) = approval_of-ok _ e a is_own in
      let (u, w2, o2, h2) = >>=-ok (lift (guard (is_sha256_hex input.artifact_hash) _)) _ w1 h1 in
      let (_, same2) = lift-ok _ w1 w2 u o2 in
      let (v, w3, o3, h3) =
        >>=-ok (lift (guard (bound_hash a.artifact_hash input.artifact_hash) _)) _ w2 h2 in
      let (is_bound, same3) = lift-ok _ w2 w3 v o3 in
      let (x, w4, o4, h4) =
        >>=-ok
          (lift (
            check_decision around w3.command input e
              (membership_of w3 input.actor_id e.organization_id)))
          _ w3 h3 in
      let (checked, same4) = lift-ok _ w3 w4 x o4 in
      let back : w3 ≡ w = same3 ∙ same2 ∙ same1 in
      parts a w4 asked of_execution
        (bound_hash-ok a.artifact_hash input.artifact_hash (guard-ok _ _ v is_bound))
        (check_decision-ok around w.command input e
          (membership_of w input.actor_id e.organization_id)
          (ap
              (λ (y : World).
                check_decision around y.command input e
                  (membership_of y input.actor_id e.organization_id))
              (sym back)
            ∙ checked))
        (ap (decide_accepted draw now input e a) (sym (same4 ∙ back)) ∙ h4)
    where
      parts :
          (a : ApprovalRow) (w4 : World)
          → get_approval w.command e.organization_id input.approval_id ≡ some a
          → a.execution_id ≡ e.id
          → a.artifact_hash ≡ some input.artifact_hash
          → (m : MembershipRow) × (membership_of w input.actor_id e.organization_id ≡ some m)
            × ((evaluate_policy around w.command (
                  asks e.organization_id input.actor_id m.role_id
                    (approval_decide input.approval_id))).decision
                ≡ allow)
          → decide_accepted draw now input e a w ≡ (ok row, w')
          → IsDecided around now input w row w'
      parts a w4 asked of_execution bound (m, is_member, allowed) h =
          let (pending, approvals, events) = accepted-writes draw now input e a w w' row h in
          record {
            execution = e;
            approval = a;
            member = m;
            found = found;
            asked = asked;
            of_execution = of_execution;
            bound = bound;
            is_member = is_member;
            allowed = allowed;
            by_other = λ r is_row same.
                evaluate-self_approval around w.command e.organization_id m.role_id
                  input.approval_id r is_row
                  (subst
                    (λ actor.
                      (evaluate_policy around w.command (
                        asks e.organization_id actor m.role_id
                          (approval_decide input.approval_id))).decision
                      ≡ allow)
                    (sym same) allowed);
            was_pending = pending;
            approvals_are =
                subst
                  (λ (l : List ApprovalRow). IsJudged now (choice input e) w.command.approvals l)
                  (sym approvals)
                  (update_pending-IsJudged now (choice input e) w.command.approvals);
            events_are = events;
          }

-- A decision that returns was made on a pending approval of the execution that binds the submitted
-- artifact, by a member whose role the policy allows to decide and who had not requested it; it has
-- given that approval the verdict, with its decider, its time and its reason code, left every other
-- one as it was, and appended one event.
pub decide-IsDecided :
    (around : Surroundings) (draw : Draw) (now : Str) (input : DecideInput) (w w' : World)
    (row : ExecutionEventRow)
    → decide_execution_approval around draw now input w ≡ (ok row, w')
    → IsDecided around now input w row w'
unfolding decide_execution_approval Stateful.◌>>=◌
decide-IsDecided around draw now input w w' row h =
    let stored = get_execution input.organization_id input.execution_id w.kernel in
    let (e, w1, o1, h1) = >>=-ok (lift (or_throw not_found stored)) _ w h in
    let (is_found, same1) = lift-ok _ w w1 e o1 in
    from-IsDecided around draw now input w w' row e (or_throw-ok not_found stored is_found)
      (ap (decide_from around draw now input e) (sym same1) ∙ h1)
