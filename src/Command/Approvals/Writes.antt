-- ===== src/Command/Approvals/Writes.antt =====
-- decideApproval of packages/command/src/index.ts: what its UPDATE leaves of every approval.
use verity_os_v.Base.{
  Str, codes, str_eq, str_eq_iff, &&-true, true, List, [], ◌∷◌, some, if◌then◌else◌, ◌≡◌, refl, ◌⊎◌,
  inl, inr, Bool-cases, arith,
}
use verity_os_v.Command.Rows.{ApprovalRow}
use verity_os_v.Command.Approvals.{DecideApprovalInput, is_pending, decided, update_pending}

-- The row is the pending one of the organization.
pub record IsTarget (input : DecideApprovalInput) (a : ApprovalRow) : Type 0 where
  pub id_is : a.id ≡ input.approval_id
  pub organization_is : a.organization_id ≡ input.organization_id
  pub was_pending : a.status ≡ codes "pending"

-- The row with the verdict, its decider, its time and its reason code.
abbrev pub judged : Str → DecideApprovalInput → ApprovalRow → ApprovalRow
judged now input a = record {
  id = a.id;
  organization_id = a.organization_id;
  execution_id = a.execution_id;
  skill_id = a.skill_id;
  requested_by = a.requested_by;
  decided_by = some input.decided_by;
  status = if input.allow then codes "approved" else codes "denied";
  reason_code = some (if input.allow then codes "APPROVED" else codes "DENIED");
  artifact_hash = a.artifact_hash;
  created_at = a.created_at;
  decided_at = some now;
}

-- The pending approval is judged and every other one is left as it was, in the same order.
pub IsJudged : Str → DecideApprovalInput → List ApprovalRow → List ApprovalRow → Type 0
IsJudged now input [] [] = Unit
IsJudged now input (a ∷ before) (b ∷ later) =
    ((IsTarget input a × (b ≡ judged now input a)) ⊎ (¬ IsTarget input a × (b ≡ a)))
    × IsJudged now input before later
IsJudged now input _ _ = ⊥

is_pending-IsTarget :
    (input : DecideApprovalInput) (a : ApprovalRow) → is_pending input a ≡ true → IsTarget input a
is_pending-IsTarget input a h =
    let (i, rest) = &&-true (str_eq a.id input.approval_id) _ h in
    let (o, p) = &&-true (str_eq a.organization_id input.organization_id) _ rest in
    record {
      id_is = (str_eq_iff a.id input.approval_id).0 i;
      organization_is = (str_eq_iff a.organization_id input.organization_id).0 o;
      was_pending = (str_eq_iff a.status (codes "pending")).0 p;
    }

IsTarget-is_pending :
    (input : DecideApprovalInput) (a : ApprovalRow) → IsTarget input a → is_pending input a ≡ true
IsTarget-is_pending input a t =
    rw
      (
        (str_eq_iff a.id input.approval_id).1 t.id_is,
        (str_eq_iff a.organization_id input.organization_id).1 t.organization_is,
        (str_eq_iff a.status (codes "pending")).1 t.was_pending,
      )
      refl

pub update_pending-IsJudged :
    (now : Str) (input : DecideApprovalInput) (approvals : List ApprovalRow)
    → IsJudged now input approvals (update_pending now input approvals)
unfolding update_pending IsJudged decided
update_pending-IsJudged now input [] = tt
update_pending-IsJudged now input (a ∷ approvals) =
    let rest = update_pending-IsJudged now input approvals in
    elim (Bool-cases (is_pending input a)) [
      | inl hit ↦ (inl (is_pending-IsTarget input a hit, rw hit refl), rest)
      | inr miss ↦ (
        inr (λ t. let bad = IsTarget-is_pending input a t in absurd (ground arith), rw miss refl),
        rest,
      )
    ]
