-- ===== src/Command/Policy/Ceilings.antt =====
-- evaluatePolicy of packages/command/src/index.ts: ceilings and approvers.
use verity_os_v.Base.{◌≤◌, Str, some, ◌≡◌, ◌≢◌, arith}
use verity_os_v.Contracts.{RiskTier, DataClassification, allow, classification_rank, risk_rank}
use verity_os_v.Command.Rows.{ApprovalRow, CommandDb, Surroundings}
use verity_os_v.Command.Policy.{
  PolicyAction, skill_use, approval_decide, EvaluateInput, skill_of, find_approval, evaluate_policy,
}
use verity_os_v.Command.Policy.Allow.{Permits, InForce, evaluate-allow}

abbrev pub asks : Str → Str → Str → PolicyAction → EvaluateInput
asks org actor role action = record {
  organization_id = org;
  actor_id = actor;
  role_id = role;
  action = action;
}

-- A role that may use a skill at some classification and risk may use it at any lower ones: the
-- ceilings are the only bounds.
pub evaluate-lower :
    (around : Surroundings) (db : CommandDb) (org actor role skill : Str)
    (classification classification' : DataClassification) (risk risk' : RiskTier)
    → classification_rank classification' ≤ classification_rank classification
    → risk_rank risk' ≤ risk_rank risk
    → (evaluate_policy around db
        (asks org actor role (skill_use skill classification risk))).decision
      ≡ allow
    → (evaluate_policy around db
        (asks org actor role (skill_use skill classification' risk'))).decision
      ≡ allow
unfolding Permits skill_of InForce
evaluate-lower around db org actor role skill c c' r r' hc hr h =
    let (policy, force, s) =
      (evaluate-allow around db (asks org actor role (skill_use skill c r))).0 h in
    (evaluate-allow around db (asks org actor role (skill_use skill c' r'))).1 (
      policy,
      force,
      record {
        row = s.row;
        granted = s.granted;
        classification_within = let w = s.classification_within in omega (arith, w, hc);
        risk_within = let w = s.risk_within in omega (arith, w, hr);
        approval_is = s.approval_is;
      },
    )

-- Nobody is allowed to decide an approval that they requested, in whatever role.
pub evaluate-self_approval :
    (around : Surroundings) (db : CommandDb) (org role approval : Str) (row : ApprovalRow)
    → find_approval db approval ≡ some row
    → (evaluate_policy around db
        (asks org row.requested_by role (approval_decide approval))).decision
      ≢ allow
unfolding Permits
evaluate-self_approval around db org role approval row found h =
    let (policy, force, m) =
      (evaluate-allow around db (asks org row.requested_by role (approval_decide approval))).0 h in
    let same : m.row ≡ row = let g = m.found in cc in m.by_other (cc)
