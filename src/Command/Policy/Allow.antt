-- ===== src/Command/Policy/Allow.antt =====
-- evaluatePolicy of packages/command/src/index.ts: the conditions of its decisions.
use verity_os_v.Base.{
  ◌≤◌, Str, codes, str_eq_iff, Bool, true, false, some, ltb_iff, Option-cases, ◌≡◌, ◌≢◌, ◌↔◌, inl,
  inr, subst, arith,
}
use verity_os_v.Contracts.{
  RiskTier, low, DataClassification, allow, approval_required, DeploymentType, classification_rank,
  risk_rank,
}
use verity_os_v.Command.Rows.{
  PolicyRow, SkillPolicyRow, ConnectorRow, ApprovalRow, CommandDb, Surroundings,
}
use verity_os_v.Command.Policy.{
  PolicyAction, skill_use, knowledge_read, model_process, data_leave_device, connector_use,
  approval_decide, EvaluateInput, decision, load_active_policy, skill_of, granted_skill,
  find_connector, has_class, find_approval, is_cloud, evaluate_leave_device, evaluate_connector,
  evaluate_approval, evaluate_model, evaluate_skill, evaluate_under, evaluate_policy,
}

-- The role has the skill, within the ceilings of the skill.
pub record HasSkill (db : CommandDb) (org role skill : Str) (classification : DataClassification)
    (risk : RiskTier) (approval : Bool) : Type 0 where
  pub row : SkillPolicyRow
  pub granted : granted_skill db org skill role ≡ some row
  pub classification_within :
      classification_rank classification ≤ classification_rank row.classification_ceiling
  pub risk_within : risk_rank risk ≤ risk_rank row.risk_ceiling
  pub approval_is : row.requires_approval ≡ approval

-- The connector is on, and takes the classification.
pub record HasConnector (db : CommandDb) (org key : Str) (classification : DataClassification)
    : Type 0 where
  pub row : ConnectorRow
  pub found : find_connector db org key ≡ some row
  pub enabled : row.enabled ≡ true
  pub takes : has_class row.allowed_data_classes_json classification ≡ true

-- The role may decide, and the approval is of the organization and was requested by another.
pub record MayDecide (db : CommandDb) (org actor role approval : Str) : Type 0 where
  pub skill : SkillPolicyRow
  pub granted : granted_skill db org (codes "approvals.decide") role ≡ some skill
  pub row : ApprovalRow
  pub found : find_approval db approval ≡ some row
  pub organization_is : row.organization_id ≡ org
  pub by_other : row.requested_by ≢ actor

pub record MayProcess (policy : PolicyRow) (classification : DataClassification)
    (deployment : DeploymentType) (ceiling risk : RiskTier) : Type 0 where
  pub risk_within : risk_rank risk ≤ risk_rank ceiling
  pub cloud_allowed : is_cloud deployment ≡ true → policy.rules.cloud_models classification ≡ true

-- What a policy permits, by the kind of the action.
unfoldable pub Permits : CommandDb → PolicyRow → Str → Str → Str → PolicyAction → Type 0
Permits db policy org actor role (skill_use skill classification risk) =
    HasSkill db org role skill classification risk false
Permits db policy org actor role (knowledge_read classification) =
    HasSkill db org role (codes "knowledge.retrieve") classification low false
Permits db policy org actor role (model_process classification deployment ceiling risk) =
    MayProcess policy classification deployment ceiling risk
Permits db policy org actor role (data_leave_device classification) =
    policy.rules.leave_device classification ≡ true
Permits db policy org actor role (connector_use key classification) =
    HasConnector db org key classification
Permits db policy org actor role (approval_decide approval) = MayDecide db org actor role approval

leave_device_iff :
    (now : Str) (policy : PolicyRow) (classification : DataClassification)
    → ((evaluate_leave_device now policy classification).decision ≡ allow)
      ↔ (policy.rules.leave_device classification ≡ true)
unfolding evaluate_leave_device decision
leave_device_iff now policy classification = ground (arith)

model_iff :
    (now : Str) (policy : PolicyRow) (classification : DataClassification)
    (deployment : DeploymentType) (ceiling risk : RiskTier)
    → ((evaluate_model now policy classification deployment ceiling risk).decision ≡ allow)
      ↔ MayProcess policy classification deployment ceiling risk
unfolding evaluate_model decision
model_iff now policy classification deployment ceiling risk = (
  λ h. record {
    risk_within = ground (arith, ltb_iff (risk_rank ceiling) (risk_rank risk));
    cloud_allowed = λ c. ground (arith);
  },
  λ m.
      let w = m.risk_within in
      let c = m.cloud_allowed in ground (arith, ltb_iff (risk_rank ceiling) (risk_rank risk), c),
)

module _ (now : Str) (db : CommandDb) (policy : PolicyRow) (org : Str) where
  skill_iff :
      (role skill : Str) (classification : DataClassification) (risk : RiskTier)
      → ((evaluate_skill now db policy org role skill classification risk).decision ≡ allow)
        ↔ HasSkill db org role skill classification risk false
  unfolding evaluate_skill decision
  skill_iff role skill classification risk = elim (Option-cases (granted_skill db org skill role)) [
    | inl e ↦ (λ h. ground (arith), λ s. let g = s.granted in ground (arith))
    | inr (row, e) ↦ (
      λ h. record {
        row = row;
        granted = e;
        classification_within = ground (
          arith,
          ltb_iff (classification_rank row.classification_ceiling)
              (classification_rank classification),
        );
        risk_within = ground (arith, ltb_iff (risk_rank row.risk_ceiling) (risk_rank risk));
        approval_is = ground (arith);
      },
      λ s.
          let same : row ≡ s.row = let g = s.granted in cc in
          let c = s.classification_within in
          let r = s.risk_within in
          let a = s.approval_is in
          ground (
            arith,
            ltb_iff (classification_rank row.classification_ceiling)
                (classification_rank classification),
            ltb_iff (risk_rank row.risk_ceiling) (risk_rank risk),
          ),
    )
  ]

  connector_iff :
      (key : Str) (classification : DataClassification)
      → ((evaluate_connector now db policy org key classification).decision ≡ allow)
        ↔ HasConnector db org key classification
  unfolding evaluate_connector decision
  connector_iff key classification = elim (Option-cases (find_connector db org key)) [
    | inl e ↦ (λ h. ground (arith), λ s. let g = s.found in ground (arith))
    | inr (row, e) ↦ (
      λ h. record { row = row; found = e; enabled = ground (arith); takes = ground (arith) },
      λ s.
          let same : row ≡ s.row = let g = s.found in cc in
          let c = s.enabled in let r = s.takes in ground (arith),
    )
  ]

  approval_iff :
      (actor role approval : Str)
      → ((evaluate_approval now db policy org actor role approval).decision ≡ allow)
        ↔ MayDecide db org actor role approval
  unfolding evaluate_approval decision
  approval_iff actor role approval =
      elim (Option-cases (granted_skill db org (codes "approvals.decide") role)) [
        | inl e ↦ (λ h. ground (arith), λ s. let g = s.granted in ground (arith))
        | inr (skill, es) ↦ elim (Option-cases (find_approval db approval)) [
          | inl e ↦ (λ h. ground (arith), λ s. let g = s.found in ground (arith))
          | inr (row, e) ↦ (
            λ h. record {
              skill = skill;
              granted = es;
              row = row;
              found = e;
              organization_is = ground (arith, str_eq_iff row.organization_id org);
              by_other = ground (arith, str_eq_iff row.requested_by actor);
            },
            λ s.
                let same : row ≡ s.row = let g = s.found in cc in
                let c = s.organization_is in
                let r = s.by_other in
                ground
                  (arith, str_eq_iff row.organization_id org, str_eq_iff row.requested_by actor),
          )
        ]
      ]

  under_iff :
      (actor role : Str) (action : PolicyAction)
      → ((evaluate_under now db policy org actor role action).decision ≡ allow)
        ↔ Permits db policy org actor role action
  unfolding evaluate_under Permits
  under_iff actor role (skill_use skill classification risk) =
      skill_iff role skill classification risk
  under_iff actor role (knowledge_read classification) =
      skill_iff role (codes "knowledge.retrieve") classification low
  under_iff actor role (model_process classification deployment ceiling risk) =
      model_iff now policy classification deployment ceiling risk
  under_iff actor role (data_leave_device classification) =
      leave_device_iff now policy classification
  under_iff actor role (connector_use key classification) = connector_iff key classification
  under_iff actor role (approval_decide approval) = approval_iff actor role approval

-- The policy in force for an action.
unfoldable pub InForce : Surroundings → CommandDb → EvaluateInput → PolicyRow → Type 0
InForce around db input p =
    load_active_policy around db input.organization_id (skill_of input.action) ≡ some p

-- An action is allowed exactly when a policy is in force for it and what that policy asks of the
-- kind of action holds: the ceilings of the role's skill with no approval due, the ceiling and the
-- cloud rule of the model, the rule on leaving the device, the connector's switch and classes, or
-- an approver other than the requester in the approval's own organization.
pub evaluate-allow :
    (around : Surroundings) (db : CommandDb) (input : EvaluateInput)
    → ((evaluate_policy around db input).decision ≡ allow) ↔ (
        (p : PolicyRow) × InForce around db input p
        × Permits db p input.organization_id input.actor_id input.role_id input.action)
unfolding evaluate_policy decision InForce
evaluate-allow around db input =
    elim (Option-cases
      (load_active_policy around db input.organization_id (skill_of input.action))) [
        | inl e ↦ (λ h. ground (arith), λ s. let g = s.1 in ground (arith))
        | inr (policy, e) ↦
            let under =
              under_iff around.now db policy input.organization_id input.actor_id input.role_id
                input.action in
            (
              λ h. (policy, e, under.0 (ground (arith))),
              λ s.
                  let same : s.0 ≡ policy = let g = s.1 in cc in
                  let a = under.1 (
                    subst
                      (λ p.
                        Permits db p input.organization_id input.actor_id input.role_id
                          input.action)
                      same s.2) in
                  ground (arith),
            )
      ]

skill-approval :
    (now : Str) (db : CommandDb) (policy : PolicyRow) (org role skill : Str)
    (classification : DataClassification) (risk : RiskTier)
    → ((evaluate_skill now db policy org role skill classification risk).decision
        ≡ approval_required)
      ↔ HasSkill db org role skill classification risk true
unfolding evaluate_skill decision
skill-approval now db policy org role skill classification risk =
    elim (Option-cases (granted_skill db org skill role)) [
      | inl e ↦ (λ h. ground (arith), λ s. let g = s.granted in ground (arith))
      | inr (row, e) ↦ (
        λ h. record {
          row = row;
          granted = e;
          classification_within = ground (
            arith,
            ltb_iff (classification_rank row.classification_ceiling)
                (classification_rank classification),
          );
          risk_within = ground (arith, ltb_iff (risk_rank row.risk_ceiling) (risk_rank risk));
          approval_is = ground (arith);
        },
        λ s.
            let same : row ≡ s.row = let g = s.granted in cc in
            let c = s.classification_within in
            let r = s.risk_within in
            let a = s.approval_is in
            ground (
              arith,
              ltb_iff (classification_rank row.classification_ceiling)
                  (classification_rank classification),
              ltb_iff (risk_rank row.risk_ceiling) (risk_rank risk),
            ),
      )
    ]
