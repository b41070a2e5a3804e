-- ===== src/Command/Approvals.antt =====
-- createApproval, decideApproval and the queries on approvals of packages/command/src/index.ts.
pub mod Once
pub mod Writes
use verity_os_v.Base.{
  Str, codes, str_eq, sort_by, Bool, ◌&&◌, List, [], ◌∷◌, ◌++◌, length, Option, none, some, Result,
  select, ok, throw, if◌then◌else◌, find?, ◌==◌, str_lt,
}
use verity_os_v.Command.Rows.{PolicyRow, ApprovalRow, CommandDb}
use verity_os_v.Command.Policy.{first_row}

pub record CreateApprovalInput : Type 0 where
  pub organization_id : Str
  pub execution_id : Str
  pub skill_id : Str
  pub requested_by : Str
  pub artifact_hash : Option Str

-- The id is fresh and `created_at` is now().
unfoldable pub create_approval : Str → Str → CreateApprovalInput → CommandDb → Str × CommandDb
create_approval id now input db = (
  id,
  record db {
    approvals =
        db.approvals
        ++ record {
          id = id;
          organization_id = input.organization_id;
          execution_id = input.execution_id;
          skill_id = input.skill_id;
          requested_by = input.requested_by;
          decided_by = none;
          status = codes "pending";
          reason_code = none;
          artifact_hash = input.artifact_hash;
          created_at = now;
          decided_at = none;
        }
          ∷ [];
  },
)

unfoldable pub get_approval : CommandDb → Str → Str → Option ApprovalRow
get_approval db org approval =
    find? (λ a. str_eq a.id approval && str_eq a.organization_id org) db.approvals

-- ORDER BY created_at DESC LIMIT 1
unfoldable pub get_pending_approval_for_execution : CommandDb → Str → Str → Option ApprovalRow
unfolding first_row
get_pending_approval_for_execution db org execution = first_row (
    sort_by (λ a b. str_lt b.created_at a.created_at)
      (select (λ a. str_eq a.organization_id org && str_eq a.execution_id execution) db.approvals))

unfoldable pub get_policy : CommandDb → Str → Str → Option PolicyRow
get_policy db org policy =
    find? (λ p. str_eq p.organization_id org && str_eq p.id policy) db.policies

pub record DecideApprovalInput : Type 0 where
  pub organization_id : Str
  pub approval_id : Str
  pub decided_by : Str
  pub allow : Bool

abbrev pub is_pending : DecideApprovalInput → ApprovalRow → Bool
is_pending input a =
    str_eq a.id input.approval_id
    && (str_eq a.organization_id input.organization_id && str_eq a.status (codes "pending"))

unfoldable pub decided : Str → DecideApprovalInput → ApprovalRow → ApprovalRow
decided now input a = record a {
  status = if input.allow then codes "approved" else codes "denied";
  decided_by = some input.decided_by;
  decided_at = some now;
  reason_code = some (if input.allow then codes "APPROVED" else codes "DENIED");
}

-- UPDATE command.approvals … WHERE id = $1 AND organization_id = $2 AND status = 'pending'
unfoldable pub update_pending : Str → DecideApprovalInput → List ApprovalRow → List ApprovalRow
unfolding decided
update_pending now input [] = []
update_pending now input (a ∷ approvals) =
    (if is_pending input a then decided now input a else a) ∷ update_pending now input approvals

pub data ApprovalError : Type 0 where
  approval_not_pending : ApprovalError

-- The update is committed by itself: an error after it does not undo it.
unfoldable pub decide_approval :
    Str → DecideApprovalInput → CommandDb → Result ApprovalError (Unit {0}) × CommandDb
decide_approval now input db = (
  (if length (select (is_pending input) db.approvals) == 1
      then ok tt
      else throw approval_not_pending),
  record db { approvals = update_pending now input db.approvals },
)
