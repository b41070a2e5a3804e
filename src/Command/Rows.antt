-- ===== src/Command/Rows.antt =====
-- The rows of the command schema that packages/command reads and writes. A table is the list of its
-- rows, oldest first.
use verity_os_v.Base.{ℕ, Str, Bool, List, Option}
use verity_os_v.Contracts.{
  RiskTier, DataClassification, PolicyDecisionValue, DeploymentType, ModelProvider,
}
use verity_os_v.Kernel.Canonicalize.{Value, Fields}

pub record PolicyRules : Type 0 where
  pub leave_device : DataClassification → Bool
  pub cloud_models : DataClassification → Bool

pub record PolicyRow : Type 0 where
  pub id : Str
  pub organization_id : Str
  pub name : Str
  pub version : ℕ
  pub status : Str
  pub rules : PolicyRules

pub record PolicyBindingRow : Type 0 where
  pub id : Str
  pub organization_id : Str
  pub policy_id : Str
  pub skill_id : Option Str

pub record SkillPolicyRow : Type 0 where
  pub id : Str
  pub organization_id : Str
  pub skill_id : Str
  pub requires_approval : Bool
  pub classification_ceiling : DataClassification
  pub risk_ceiling : RiskTier

pub record SkillPolicyRoleRow : Type 0 where
  pub skill_policy_id : Str
  pub role_id : Str
  pub organization_id : Str

pub record ModelRow : Type 0 where
  pub id : Str
  pub organization_id : Str
  pub model_key : Str
  pub provider : ModelProvider
  pub deployment_type : DeploymentType
  pub endpoint : Option Str
  pub capabilities_json : List Str
  pub allowed_data_classes_json : List DataClassification
  pub risk_ceiling : RiskTier
  pub requires_internet : Bool
  pub enabled : Bool

pub record ConnectorRow : Type 0 where
  pub id : Str
  pub organization_id : Str
  pub connector_key : Str
  pub connector_type : Str
  pub version : Str
  pub enabled : Bool
  pub allowed_data_classes_json : List DataClassification
  pub secret_ref : Option Str
  pub page_config : Value
  pub capabilities : List Str
  pub requires_approval : Bool

pub record SkillConnectorRow : Type 0 where
  pub organization_id : Str
  pub skill_id : Str
  pub connector_key : Str
  pub actions : List Str

pub record ApprovalRow : Type 0 where
  pub id : Str
  pub organization_id : Str
  pub execution_id : Str
  pub skill_id : Str
  pub requested_by : Str
  pub decided_by : Option Str
  pub status : Str
  pub reason_code : Option Str
  pub artifact_hash : Option Str
  pub created_at : Str
  pub decided_at : Option Str

pub record CommandDb : Type 0 where
  pub policies : List PolicyRow
  pub policy_bindings : List PolicyBindingRow
  pub skill_policies : List SkillPolicyRow
  pub skill_policy_roles : List SkillPolicyRoleRow
  pub models : List ModelRow
  pub connectors : List ConnectorRow
  pub skill_connectors : List SkillConnectorRow
  pub approvals : List ApprovalRow

-- The clock, and the order of text: the database's and that of `localeCompare`.
pub record Surroundings : Type 0 where
  pub now : Str
  pub collate_lt : Str → Str → Bool
  pub locale_lt : Str → Str → Bool

pub record PolicyDecision : Type 0 where
  pub decision : PolicyDecisionValue
  pub reason_code : Str
  pub policy_id : Option Str
  pub policy_version : Option Str
  pub evaluated_at : Str
  pub constraints : Fields
