-- ===== src/Service/Lifecycle.antt =====
-- apps/core-api/src/execution/lifecycle.ts: approvals of an execution.
pub mod Checks
pub mod Decide
use verity_os_v.Base.{
  Str, codes, str_eq, is_empty, Bool, true, false, not, ◌&&◌, ◌||◌, [], ◌∷◌, ◌++◌, Option, none,
  some, Result, ok, throw, guard, or_throw, if◌then◌else◌, any,
}
use verity_os_v.Base.Stateful.{◌>>=◌, ◌>>◌, pure, query, lift, transaction}
use verity_os_v.Contracts.{waiting_approval, running, approval_requested}
use verity_os_v.Kernel.Noble.{Noble, is_sha256_hex}
use verity_os_v.Kernel.Canonicalize.{string}
use verity_os_v.Kernel.Rows.{ExecutionRow, ExecutionEventRow, LedgerEntryRow}
use verity_os_v.Kernel.Executions.{get_execution, set_execution_status}
use verity_os_v.Kernel.Ledger.{Host, append_ledger_entry_in_transaction}
use verity_os_v.Kernel.Events.{append_execution_event, append_execution_event_in_transaction}
use verity_os_v.Kernel.Seal.{Draw, load_request_opened_hash}
use verity_os_v.Command.Rows.{ApprovalRow, CommandDb, Surroundings}
use verity_os_v.Command.Policy.{approval_decide, evaluate_policy}
use verity_os_v.Command.Approvals.{create_approval, get_approval, decide_approval}
use verity_os_v.Identity.Rows.{MembershipRow, is_user}
use verity_os_v.Service.World.{
  World, ServiceError, Action, kernel_call, kernel_step, status_call, command_call, last_event_id,
  as_parents, is_waiting, is_allow, require_scoped_open, membership_of, not_found, invalid_input,
  not_a_member, artifact_hash_mismatch, policy_denied,
}
use verity_os_v.Service.Skills.{assert_sha256}

pub record RequestApprovalInput : Type 0 where
  pub organization_id : Str
  pub execution_id : Str
  pub skill_id : Str
  pub requested_by : Str
  pub artifact_hash : Str

-- auth.users joined with auth.memberships: the user exists and is a member.
unfoldable pub is_known_member : World → Str → Str → Bool
is_known_member w user org =
    any (is_user user) w.auth.users
    && any (λ m. str_eq m.user_id user && str_eq m.organization_id org) w.auth.memberships

-- INSERT INTO command.approvals … 'pending'
unfoldable pub insert_approval :
    (id now : Str) → ExecutionRow → RequestApprovalInput → Str → Action Str
insert_approval id now execution input artifact = command_call (λ db.
    let opened =
      create_approval id now
        (record {
          organization_id = execution.organization_id;
          execution_id = execution.id;
          skill_id = input.skill_id;
          requested_by = input.requested_by;
          artifact_hash = some artifact;
        })
        db in
    (ok (opened.0), opened.1))

-- The transaction: the approval, its event and its ledger entry. The parent of the event is read
-- through the pool, that is in the state before the transaction.
unfoldable pub request_in_transaction :
    Noble
    → Host
    → Draw
    → (id now : Str) → ExecutionRow
    → RequestApprovalInput
    → Str
    → Option Str
    → Action LedgerEntryRow
request_in_transaction n host draw id now execution input artifact parent = do
  opened ← insert_approval id now execution input artifact
  event ← kernel_step (
      append_execution_event_in_transaction draw.id draw.now (record {
        organization_id = execution.organization_id;
        execution_id = execution.id;
        event_type = codes "approval.requested";
        status = codes "started";
        parent_event_ids = as_parents parent;
        input_hash = none;
        output_hash = some artifact;
        metadata =
            (codes "approval_id", string id)
            ∷ (codes "skill_id", string input.skill_id)
            ∷ (codes "artifact_hash", string artifact)
            ∷ [];
        occurred_at_canonical = none;
      }))
  request ← query (λ w. load_request_opened_hash w.kernel execution.organization_id execution.id)
  kernel_step (
      append_ledger_entry_in_transaction n host (record {
        organization_id = execution.organization_id;
        execution_id = execution.id;
        entry_type = approval_requested;
        request_hash = request;
        response_hash = none;
        execution_graph_hash = none;
        merkle_snapshot_interval = none;
        created_at_canonical = none;
        kernel_version = none;
        execution_status = some waiting_approval;
      }))

-- The artifact hash, which must not be empty.
unfoldable pub required_hash : Option Str → Result ServiceError Str
required_hash none = throw invalid_input
required_hash (some hash) = if is_empty hash then throw invalid_input else ok hash

-- `id` is drawn at random; it is what the call returns with the execution and the hash.
unfoldable pub request_execution_approval :
    Noble → Host → Draw → (id now : Str) → RequestApprovalInput → Action Str
request_execution_approval n host draw id now input = do
  found ← query (λ w. require_scoped_open w input.organization_id input.execution_id)
  execution ← lift found
  checked ← lift (assert_sha256 (some input.artifact_hash))
  artifact ← lift (required_hash checked)
  member ← query (λ w. is_known_member w input.requested_by execution.organization_id)
  lift (guard member not_a_member)
  parent ← query (λ w. last_event_id w execution.organization_id execution.id)
  entry ← transaction (request_in_transaction n host draw id now execution input artifact parent)
  pure id

pub record DecideInput : Type 0 where
  pub organization_id : Str
  pub execution_id : Str
  pub approval_id : Str
  pub actor_id : Str
  pub allow : Bool
  pub artifact_hash : Str

-- The approval, if it is one of the execution.
unfoldable pub approval_of : Option ApprovalRow → ExecutionRow → Result ServiceError ApprovalRow
approval_of none execution = throw not_found
approval_of (some a) execution =
    if not (str_eq a.execution_id execution.id) then throw not_found else ok a

abbrev pub bound_hash : Option Str → Str → Bool
bound_hash none submitted = false
bound_hash (some hash) submitted = not (is_empty hash) && str_eq hash submitted

abbrev pub or_empty : Option Str → Str
or_empty none = []
or_empty (some s) = s

-- setExecutionStatus(…, "running", …), where the test holds
unfoldable pub resume_if : Bool → ExecutionRow → Action (Unit {0})
resume_if false execution = pure tt
resume_if true execution = status_call (
    set_execution_status execution.id running (record {
      organization_id = some execution.organization_id;
      final_entry_id = none;
      completed_at = none;
    }))

-- The actor's membership, and what the policy says of the actor in that role.
unfoldable pub check_decision :
    Surroundings
    → CommandDb
    → DecideInput
    → ExecutionRow
    → Option MembershipRow
    → Result ServiceError (Unit {0})
check_decision around db input execution none = throw not_a_member
check_decision around db input execution (some m) =
    let policy = evaluate_policy around db (record {
      organization_id = execution.organization_id;
      actor_id = input.actor_id;
      role_id = m.role_id;
      action = approval_decide input.approval_id;
    }) in
    if is_allow policy.decision then ok tt else throw (policy_denied policy.reason_code)

-- From the accepted decision on: the approval, its event and the status.
unfoldable pub decide_accepted :
    Draw → Str → DecideInput → ExecutionRow → ApprovalRow → Action ExecutionEventRow
decide_accepted draw now input execution approval = do
  command_call (
      decide_approval now (record {
        organization_id = execution.organization_id;
        approval_id = input.approval_id;
        decided_by = input.actor_id;
        allow = input.allow;
      }))
  parent ← query (λ w. last_event_id w execution.organization_id execution.id)
  row ← kernel_call (
      append_execution_event draw.id draw.now (record {
        organization_id = execution.organization_id;
        execution_id = execution.id;
        event_type = if input.allow then codes "approval.approved" else codes "approval.rejected";
        status = if input.allow then codes "ok" else codes "denied";
        parent_event_ids = as_parents parent;
        input_hash = none;
        output_hash = approval.artifact_hash;
        metadata =
            (codes "approval_id", string input.approval_id)
            ∷ (codes "artifact_hash", string (or_empty approval.artifact_hash))
            ∷ (codes "decided_by", string input.actor_id)
            ∷ [];
        occurred_at_canonical = none;
      }))
  resume_if (input.allow && is_waiting execution.status) execution
  pure row

-- The checks on the approval, the artifact and the actor, and the decision.
unfoldable pub decide_from :
    Surroundings → Draw → Str → DecideInput → ExecutionRow → Action ExecutionEventRow
decide_from around draw now input execution = do
  asked ← query (λ w. get_approval w.command execution.organization_id input.approval_id)
  approval ← lift (approval_of asked execution)
  lift (guard (is_sha256_hex input.artifact_hash) invalid_input)
  lift (guard (bound_hash approval.artifact_hash input.artifact_hash) artifact_hash_mismatch)
  checked ← query (λ w.
      check_decision around w.command input execution
        (membership_of w input.actor_id execution.organization_id))
  lift checked
  decide_accepted draw now input execution approval

-- The event is what tells the outcome; `now` is the clock of the database.
unfoldable pub decide_execution_approval :
    Surroundings → Draw → Str → DecideInput → Action ExecutionEventRow
decide_execution_approval around draw now input = do
  row ← query (λ w. get_execution input.organization_id input.execution_id w.kernel)
  execution ← lift (or_throw not_found row)
  decide_from around draw now input execution
