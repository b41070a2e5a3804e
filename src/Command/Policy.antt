-- ===== src/Command/Policy.antt =====
-- evaluatePolicy of packages/command/src/index.ts.
pub mod Granted
pub mod Allow
pub mod Ceilings
use verity_os_v.Base.{
  Str, codes, str_eq, sort_by, Bool, true, false, not, ◌&&◌, List, [], ◌∷◌, ◌++◌, Option, none,
  some, if◌then◌else◌, find?, any, ltb,
}
use verity_os_v.Contracts.{
  RiskTier, low, DataClassification, PolicyDecisionValue, allow, deny, approval_required,
  DeploymentType, local, private, cloud, classification_rank, risk_rank,
}
use verity_os_v.Kernel.Canonicalize.{boolean, string, Fields, end, field, decimal}
use verity_os_v.Command.Rows.{
  PolicyRow, PolicyBindingRow, SkillPolicyRow, ConnectorRow, ApprovalRow, CommandDb, Surroundings,
  PolicyDecision,
}

pub data PolicyAction : Type 0 where
  skill_use :
      (skill_id : Str) (classification : DataClassification) (risk_tier : RiskTier) → PolicyAction
  knowledge_read : (classification : DataClassification) → PolicyAction
  model_process :
      (classification : DataClassification) (deployment_type : DeploymentType)
      (model_risk_ceiling requested_risk : RiskTier)
      → PolicyAction
  data_leave_device : (classification : DataClassification) → PolicyAction
  connector_use : (connector_key : Str) (classification : DataClassification) → PolicyAction
  approval_decide : (approval_id : Str) → PolicyAction

pub record EvaluateInput : Type 0 where
  pub organization_id : Str
  pub actor_id : Str
  pub role_id : Str
  pub action : PolicyAction

pub record PolicyRef : Type 0 where
  pub id : Option Str
  pub version : Option Str

unfoldable pub decision : Str → PolicyDecisionValue → Str → PolicyRef → Fields → PolicyDecision
decision now value reason policy constraints = record {
  decision = value;
  reason_code = reason;
  policy_id = policy.id;
  policy_version = policy.version;
  evaluated_at = now;
  constraints = constraints;
}

-- command.policy_bindings joined with the active ones of command.policies
unfoldable pub bound_policies :
    Str
    → (Option Str → Bool)
    → List PolicyRow
    → List PolicyBindingRow
    → List (Option Str × PolicyRow)
bound_policies org wanted policies [] = []
bound_policies org wanted policies (b ∷ bindings) =
    let rest = bound_policies org wanted policies bindings in
    if str_eq b.organization_id org && wanted b.skill_id
    then elim (find? (λ p. str_eq p.id b.policy_id && str_eq p.status (codes "active")) policies) [
      | none ↦ rest
      | some p ↦ (b.skill_id, p) ∷ rest
    ]
    else rest

-- ORDER BY b.skill_id NULLS LAST
unfoldable pub nulls_last :
    (Str → Str → Bool) → Option Str × PolicyRow → Option Str × PolicyRow → Bool
nulls_last lt (none, p) b = false
nulls_last lt (some s, p) (none, q) = true
nulls_last lt (some s, p) (some t, q) = lt s t

unfoldable pub first_row {ℓ} : {A : Type ℓ} → List A → Option A
first_row [] = none
first_row (x ∷ xs) = some x

unfoldable pub policy_of : List (Option Str × PolicyRow) → Option PolicyRow
policy_of [] = none
policy_of ((s, p) ∷ rest) = some p

-- b.skill_id = $2 OR b.skill_id IS NULL
unfoldable pub is_bound : Option Str → Option Str → Bool
is_bound skill none = true
is_bound none (some s) = false
is_bound (some skill) (some s) = str_eq s skill

unfoldable pub load_active_policy : Surroundings → CommandDb → Str → Option Str → Option PolicyRow
unfolding is_bound
load_active_policy around db org skill = policy_of (
    sort_by (nulls_last around.collate_lt)
      (bound_policies org (is_bound skill) db.policies db.policy_bindings))

-- The skill whose policy an action is checked under.
unfoldable pub skill_of : PolicyAction → Option Str
skill_of (skill_use skill classification risk) = some skill
skill_of (knowledge_read classification) = some (codes "knowledge.retrieve")
skill_of (model_process classification deployment ceiling risk) = some (codes "models.route")
skill_of (data_leave_device classification) = none
skill_of (connector_use key classification) = some (codes "connector." ++ key)
skill_of (approval_decide approval) = some (codes "approvals.decide")

unfoldable pub policy_ref : PolicyRow → PolicyRef
policy_ref p = record { id = some p.id; version = some (decimal p.version) }

-- command.skill_policies joined with command.skill_policy_roles on a role: the first row
unfoldable pub granted_skill : CommandDb → Str → Str → Str → Option SkillPolicyRow
granted_skill db org skill role =
    find?
      (λ s.
        str_eq s.organization_id org
        && (str_eq s.skill_id skill
            && any (λ r. str_eq r.skill_policy_id s.id && str_eq r.role_id role)
                db.skill_policy_roles))
      db.skill_policies

unfoldable pub find_connector : CommandDb → Str → Str → Option ConnectorRow
find_connector db org key =
    find? (λ c. str_eq c.organization_id org && str_eq c.connector_key key) db.connectors

unfoldable pub class_eq : DataClassification → DataClassification → Bool
class_eq a b =
    not (ltb (classification_rank a) (classification_rank b))
    && not (ltb (classification_rank b) (classification_rank a))

-- Array.prototype.includes on classifications
unfoldable pub has_class : List DataClassification → DataClassification → Bool
has_class classes c = any (λ d. class_eq d c) classes

abbrev pub allowed_reason : Str
allowed_reason = codes "ROLE_AND_CLASSIFICATION_ALLOWED"

unfoldable pub evaluate_leave_device : Str → PolicyRow → DataClassification → PolicyDecision
unfolding policy_ref decision
evaluate_leave_device now policy classification =
    if not (policy.rules.leave_device classification)
    then decision now deny (codes "CLASSIFICATION_DENIED") (policy_ref policy)
        (field (codes "leave_device") (boolean false) end)
    else decision now allow allowed_reason (policy_ref policy) end

unfoldable pub evaluate_connector :
    Str → CommandDb → PolicyRow → Str → Str → DataClassification → PolicyDecision
unfolding policy_ref decision
evaluate_connector now db policy org key classification = elim (find_connector db org key) [
  | none ↦ decision now deny (codes "CONNECTOR_DISABLED") (policy_ref policy) end
  | some row ↦
      if not row.enabled
      then decision now deny (codes "CONNECTOR_DISABLED") (policy_ref policy) end
      else if not (has_class row.allowed_data_classes_json classification)
      then decision now deny (codes "CLASSIFICATION_BLOCKED") (policy_ref policy) end
      else decision now allow (codes "CONNECTOR_ALLOWED") (policy_ref policy) end
]

unfoldable pub find_approval : CommandDb → Str → Option ApprovalRow
find_approval db approval = find? (λ a. str_eq a.id approval) db.approvals

unfoldable pub evaluate_approval :
    Str → CommandDb → PolicyRow → Str → Str → Str → Str → PolicyDecision
unfolding policy_ref decision
evaluate_approval now db policy org actor role approval =
    elim (granted_skill db org (codes "approvals.decide") role) [
      | none ↦ decision now deny (codes "APPROVER_UNAUTHORIZED") (policy_ref policy) end
      | some s ↦ elim (find_approval db approval) [
        | none ↦ decision now deny (codes "CROSS_ORGANIZATION_DENIED") (policy_ref policy) end
        | some row ↦
            if not (str_eq row.organization_id org)
            then decision now deny (codes "CROSS_ORGANIZATION_DENIED") (policy_ref policy) end
            else if str_eq row.requested_by actor
            then decision now deny (codes "APPROVER_UNAUTHORIZED") (policy_ref policy)
                (field (codes "self_approval") (boolean false) end)
            else decision now allow allowed_reason (policy_ref policy) end
      ]
    ]

unfoldable pub is_cloud : DeploymentType → Bool
is_cloud local = false
is_cloud private = false
is_cloud cloud = true

unfoldable pub evaluate_model :
    Str → PolicyRow → DataClassification → DeploymentType → RiskTier → RiskTier → PolicyDecision
unfolding policy_ref decision
evaluate_model now policy classification deployment ceiling risk =
    if ltb (risk_rank ceiling) (risk_rank risk)
    then decision now deny (codes "MODEL_DENIED") (policy_ref policy)
        (field (codes "reason") (string (codes "MODEL_RISK_CEILING_EXCEEDED")) end)
    else if is_cloud deployment && not (policy.rules.cloud_models classification)
    then decision now deny (codes "CLASSIFICATION_DENIED") (policy_ref policy)
        (field (codes "cloud_models") (boolean false) end)
    else decision now allow allowed_reason (policy_ref policy) end

unfoldable pub evaluate_skill :
    Str → CommandDb → PolicyRow → Str → Str → Str → DataClassification → RiskTier → PolicyDecision
unfolding policy_ref decision
evaluate_skill now db policy org role skill classification risk =
    elim (granted_skill db org skill role) [
      | none ↦ decision now deny (codes "ROLE_DENIED") (policy_ref policy) end
      | some s ↦
          if ltb (classification_rank s.classification_ceiling) (classification_rank classification)
          then decision now deny (codes "CLASSIFICATION_DENIED") (policy_ref policy) end
          else if ltb (risk_rank s.risk_ceiling) (risk_rank risk)
          then decision now deny (codes "SKILL_DENIED") (policy_ref policy) end
          else if s.requires_approval
          then decision now approval_required (codes "APPROVAL_REQUIRED") (policy_ref policy)
              (field (codes "skill_id") (string skill) end)
          else decision now allow allowed_reason (policy_ref policy) end
    ]

unfoldable pub evaluate_under :
    Str → CommandDb → PolicyRow → Str → Str → Str → PolicyAction → PolicyDecision
evaluate_under now db policy org actor role (skill_use skill classification risk) =
    evaluate_skill now db policy org role skill classification risk
evaluate_under now db policy org actor role (knowledge_read classification) =
    evaluate_skill now db policy org role (codes "knowledge.retrieve") classification low
evaluate_under now db policy org actor role (model_process classification deployment ceiling risk) =
    evaluate_model now policy classification deployment ceiling risk
evaluate_under now db policy org actor role (data_leave_device classification) =
    evaluate_leave_device now policy classification
evaluate_under now db policy org actor role (connector_use key classification) =
    evaluate_connector now db policy org key classification
evaluate_under now db policy org actor role (approval_decide approval) =
    evaluate_approval now db policy org actor role approval

unfoldable pub evaluate_policy : Surroundings → CommandDb → EvaluateInput → PolicyDecision
unfolding decision
evaluate_policy around db input =
    elim (load_active_policy around db input.organization_id (skill_of input.action)) [
      | none ↦
          decision around.now deny (codes "DENY_DEFAULT") (record { id = none; version = none }) end
      | some policy ↦
          evaluate_under around.now db policy input.organization_id input.actor_id input.role_id
            input.action
    ]
