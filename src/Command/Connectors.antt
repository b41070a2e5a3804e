-- ===== src/Command/Connectors.antt =====
-- packages/command/src/connectors.ts: the gate of the connectors.
pub mod Gate
use verity_os_v.Base.{
  Str, codes, str_eq, sort_by, Bool, true, false, not, ◌&&◌, List, [], ◌∷◌, Option, none, some, any,
  if◌then◌else◌, find?,
}
use verity_os_v.Contracts.{DataClassification, allow, deny}
use verity_os_v.Kernel.Canonicalize.{string, end, field}
use verity_os_v.Command.Rows.{
  ConnectorRow, SkillConnectorRow, CommandDb, Surroundings, PolicyDecision,
}
use verity_os_v.Command.Policy.{
  PolicyRef, decision, bound_policies, nulls_last, policy_of, policy_ref, granted_skill,
  find_connector, has_class,
}

pub record EvaluateConnectorInput : Type 0 where
  pub organization_id : Str
  pub actor_id : Str
  pub role_id : Str
  pub skill_id : Str
  pub connector_key : Str
  pub action : Str
  pub classification : DataClassification
  pub approval_status : Option Str
  pub approval_artifact_hash : Option Str
  pub requested_artifact_hash : Str

unfoldable pub get_connector : CommandDb → Str → Str → Option ConnectorRow
get_connector db org connector =
    find? (λ c. str_eq c.organization_id org && str_eq c.id connector) db.connectors

-- The policy of any binding of the organization names the decision.
unfoldable pub any_policy_ref : Surroundings → CommandDb → Str → PolicyRef
unfolding policy_ref
any_policy_ref around db org =
    elim (policy_of (
      sort_by (nulls_last around.collate_lt)
        (bound_policies org (λ s. true) db.policies db.policy_bindings))) [
          | none ↦ record { id = none; version = none }
          | some p ↦ policy_ref p
        ]

unfoldable pub find_binding : CommandDb → Str → Str → Str → Option SkillConnectorRow
find_binding db org skill key =
    find?
      (λ b. str_eq b.organization_id org && (str_eq b.skill_id skill && str_eq b.connector_key key))
      db.skill_connectors

-- A list of actions that is empty admits every action.
unfoldable pub admits : List Str → Str → Bool
admits [] action = true
admits (a ∷ actions) action = any (λ b. str_eq b action) (a ∷ actions)

unfoldable pub approved_hash : Option Str → Str → Bool
approved_hash none requested = false
approved_hash (some []) requested = false
approved_hash (some (u ∷ us)) requested = str_eq (u ∷ us) requested

unfoldable pub evaluate_approved :
    Str → ConnectorRow → PolicyRef → EvaluateConnectorInput → PolicyDecision
unfolding decision approved_hash
evaluate_approved now row ref input =
    let allowed = decision now allow (codes "CONNECTOR_ALLOWED") ref (
      field (codes "connector_id") (string row.id)
        (field (codes "action") (string input.action) end)) in
    if row.requires_approval
    then elim input.approval_status [
      | none ↦ decision now deny (codes "APPROVAL_MISSING") ref end
      | some status ↦
          if str_eq status []
          then decision now deny (codes "APPROVAL_MISSING") ref end
          else if not (str_eq status (codes "approved"))
          then decision now deny (codes "APPROVAL_MISSING") ref
              (field (codes "approval_status") (string status) end)
          else if not (approved_hash input.approval_artifact_hash input.requested_artifact_hash)
          then decision now deny (codes "APPROVAL_ARTIFACT_MISMATCH") ref end
          else allowed
    ]
    else allowed

unfoldable pub evaluate_connector_action :
    Surroundings → CommandDb → EvaluateConnectorInput → PolicyDecision
unfolding decision
evaluate_connector_action around db input =
    let ref = any_policy_ref around db input.organization_id in
    elim (find_connector db input.organization_id input.connector_key) [
      | none ↦ decision around.now deny (codes "CONNECTOR_DISABLED") ref end
      | some row ↦
          if not row.enabled
          then decision around.now deny (codes "CONNECTOR_DISABLED") ref
              (field (codes "connector_id") (string row.id) end)
          else if not (has_class row.allowed_data_classes_json input.classification)
          then decision around.now deny (codes "CLASSIFICATION_BLOCKED") ref
              (field (codes "connector_id") (string row.id) end)
          else elim (find_binding db input.organization_id input.skill_id input.connector_key) [
            | none ↦
                decision around.now deny (codes "CONNECTOR_NOT_ALLOWED_FOR_SKILL") ref
                  (field (codes "skill_id") (string input.skill_id) end)
            | some binding ↦
                if not (admits binding.actions input.action)
                then decision around.now deny (codes "CONNECTOR_NOT_ALLOWED_FOR_SKILL") ref
                    (field (codes "skill_id") (string input.skill_id) end)
                else elim (granted_skill db input.organization_id input.skill_id input.role_id) [
                  | none ↦ decision around.now deny (codes "ACTOR_NOT_AUTHORIZED") ref end
                  | some skill ↦ evaluate_approved around.now row ref input
                ]
          ]
    ]
