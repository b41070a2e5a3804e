-- ===== src/Command/Connectors/Gate.antt =====
-- evaluateConnectorAction of packages/command/src/connectors.ts: the conditions of its decisions.
use verity_os_v.Base.{
  Str, codes, str_eq, str_eq_iff, true, false, [], ◌∷◌, Option, none, some, Option-cases,
  Bool-cases, ◌≡◌, ◌≢◌, ◌↔◌, ◌⊎◌, List, Member, inl, inr, refl, subst, ap, ◌∙◌, arith,
}
use verity_os_v.Contracts.{allow}
use verity_os_v.Command.Rows.{ConnectorRow, SkillConnectorRow, CommandDb, Surroundings}
use verity_os_v.Command.Policy.{PolicyRef, decision, granted_skill, find_connector}
use verity_os_v.Command.Policy.Granted.{
  IsGranted, granted_skill-IsGranted, IsGranted-granted_skill, has_class_iff, any_str_iff,
}
use verity_os_v.Command.Connectors.{
  EvaluateConnectorInput, any_policy_ref, find_binding, admits, approved_hash, evaluate_approved,
  evaluate_connector_action,
}

-- What an artifact's approval has to say.
pub record IsApproved (input : EvaluateConnectorInput) : Type 0 where
  pub status_is : input.approval_status ≡ some (codes "approved")
  pub hash_is : input.approval_artifact_hash ≡ some input.requested_artifact_hash
  pub hash_given : input.requested_artifact_hash ≢ []

pub record IsCleared (db : CommandDb) (input : EvaluateConnectorInput) : Type 0 where
  pub row : ConnectorRow
  pub found : find_connector db input.organization_id input.connector_key ≡ some row
  pub enabled : row.enabled ≡ true
  pub takes : Member input.classification row.allowed_data_classes_json
  pub binding : SkillConnectorRow
  pub bound :
      find_binding db input.organization_id input.skill_id input.connector_key ≡ some binding
  pub admitted : (binding.actions ≡ []) ⊎ Member input.action binding.actions
  pub granted : IsGranted db input.organization_id input.skill_id input.role_id
  pub approved : row.requires_approval ≡ true → IsApproved input

admits_iff :
    (actions : List Str) (action : Str)
    → (admits actions action ≡ true) ↔ ((actions ≡ []) ⊎ Member action actions)
unfolding admits
admits_iff [] action = (λ h. inl refl, λ h. refl)
admits_iff (a ∷ actions) action = (
  λ h. inr ((any_str_iff (a ∷ actions) action).0 h),
  λ h. elim h [ inl none_listed ↦ cc | inr m ↦ (any_str_iff (a ∷ actions) action).1 m ],
)

approved_hash_iff :
    (hash : Option Str) (requested : Str)
    → (approved_hash hash requested ≡ true) ↔ ((hash ≡ some requested) × (requested ≢ []))
unfolding approved_hash
approved_hash_iff none requested = ground (arith)
approved_hash_iff (some []) requested = (λ h. cc, λ h. let e = h.0 in let f = h.1 in ground (arith))
approved_hash_iff (some (u ∷ us)) requested = (
  λ h. let e = (str_eq_iff (u ∷ us) requested).0 h in (ap some e, λ f. cc),
  λ h. (str_eq_iff (u ∷ us) requested).1 (let e = h.0 in cc),
)

IsApproved-iff :
    (now : Str) (row : ConnectorRow) (ref : PolicyRef) (input : EvaluateConnectorInput)
    → ((evaluate_approved now row ref input).decision ≡ allow)
      ↔ (row.requires_approval ≡ true → IsApproved input)
unfolding evaluate_approved decision
IsApproved-iff now row ref input = elim (Bool-cases row.requires_approval) [
  | inr off ↦ (λ h on. ground (arith), λ h. ground (arith))
  | inl on ↦ elim (Option-cases input.approval_status) [
    | inl e ↦ (λ h on'. ground (arith), λ h. let s = (h on).status_is in ground (arith))
    | inr (status, e) ↦
        let hash = approved_hash_iff input.approval_artifact_hash input.requested_artifact_hash in
        let approved = str_eq_iff status (codes "approved") in
        (
          λ h on'.
              let given = approved.0 (ground (arith)) in
              let matched = hash.0 (ground (arith)) in
              record { status_is = e ∙ ap some given; hash_is = matched.0; hash_given = matched.1 },
          λ h.
              let a = h on in
              let given : status ≡ codes "approved" = let g = a.status_is in cc in
              let eq = approved.1 given in
              let matched = hash.1 (a.hash_is, a.hash_given) in
              let filled : str_eq status [] ≡ false = rw given (unfold str_eq in refl) in
              ground (arith),
        )
  ]
]

-- An action through a connector is let through exactly when the connector is on and lists the
-- classification, the skill is bound to the connector by a binding that lists the action or no
-- action at all, a row of the organization for the skill is granted to the role, and, where the
-- connector asks for an approval, the approval is `approved` for this very artifact hash.
pub connector_action-allow :
    (around : Surroundings) (db : CommandDb) (input : EvaluateConnectorInput)
    → ((evaluate_connector_action around db input).decision ≡ allow) ↔ IsCleared db input
unfolding evaluate_connector_action decision
connector_action-allow around db input =
    elim (Option-cases (find_connector db input.organization_id input.connector_key)) [
      | inl e ↦ (λ h. ground (arith), λ s. let g = s.found in ground (arith))
      | inr (row, er) ↦
          elim (Option-cases
            (find_binding db input.organization_id input.skill_id input.connector_key)) [
              | inl e ↦ (λ h. ground (arith), λ s. let g = s.bound in ground (arith))
              | inr (binding, eb) ↦
                  elim (Option-cases
                    (granted_skill db input.organization_id input.skill_id input.role_id)) [
                      | inl e ↦ (
                        λ h. ground (arith),
                        λ s.
                            let (row', g) = IsGranted-granted_skill db _ _ _ s.granted in
                            ground (arith),
                      )
                      | inr (skill, es) ↦
                          let ref = any_policy_ref around db input.organization_id in
                          let gate = IsApproved-iff around.now row ref input in
                          (
                            λ h. record {
                              row = row;
                              found = er;
                              enabled = ground (arith);
                              takes = (has_class_iff _ _).0 (ground (arith));
                              binding = binding;
                              bound = eb;
                              admitted = (admits_iff _ _).0 (ground (arith));
                              granted = granted_skill-IsGranted db _ _ _ skill es;
                              approved = gate.0 (ground (arith));
                            },
                            λ s.
                                let same : s.row ≡ row = let g = s.found in cc in
                                let same' : s.binding ≡ binding = let g = s.bound in cc in
                                let a = s.enabled in
                                let b = (has_class_iff _ _).1 s.takes in
                                let c = (admits_iff _ _).1 s.admitted in
                                let d = gate.1 (
                                  subst (λ r. r.requires_approval ≡ true → IsApproved input) same
                                    s.approved) in
                                ground (arith),
                          )
                    ]
            ]
    ]
