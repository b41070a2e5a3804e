-- ===== src/Command/Seed.antt =====
-- seedDefaultCommand of packages/command/src/index.ts: the policy, the skills, the model and the
-- connector that an organization starts with.
pub mod Defaults
use verity_os_v.Base.{
  ℕ, suc, ◌+◌, Str, codes, str_eq, Bool, true, false, ◌&&◌, List, [], ◌∷◌, ◌++◌, map, none, any,
  if◌then◌else◌,
}
use verity_os_v.Contracts.{
  RiskTier, medium, high, DataClassification, public, internal, confidential, restricted, local,
  mock,
}
use verity_os_v.Kernel.Canonicalize.{object, end}
use verity_os_v.Command.Rows.{PolicyRules, ModelRow, ConnectorRow, SkillConnectorRow, CommandDb}

unfoldable pub default_allows : DataClassification → Bool
default_allows public = true
default_allows internal = true
default_allows confidential = false
default_allows restricted = false

unfoldable pub default_policy_rules : PolicyRules
default_policy_rules = record { leave_device = default_allows; cloud_models = default_allows }

pub record SeedInput : Type 0 where
  pub organization_id : Str
  pub admin_role_id : Str
  pub member_role_id : Str

pub record SkillSeed : Type 0 where
  pub skill_id : Str
  pub approval : Bool
  pub classification : DataClassification
  pub risk : RiskTier
  pub roles : List Str

abbrev pub skill_seed : Str → Bool → DataClassification → RiskTier → List Str → SkillSeed
skill_seed skill approval classification risk roles = record {
  skill_id = skill;
  approval = approval;
  classification = classification;
  risk = risk;
  roles = roles;
}

unfoldable pub seed_skills : SeedInput → List SkillSeed
seed_skills input =
    let both = input.admin_role_id ∷ input.member_role_id ∷ [] in
    let admin = input.admin_role_id ∷ [] in
    skill_seed (codes "knowledge.retrieve") false restricted high both
    ∷ skill_seed (codes "knowledge.manage") false restricted high admin
    ∷ skill_seed (codes "nova.use") false internal medium both
    ∷ skill_seed (codes "nova.social.draft") true internal medium both
    ∷ skill_seed (codes "nova.research") false internal medium both
    ∷ skill_seed (codes "nova.drafting") false internal medium both
    ∷ skill_seed (codes "models.route") false restricted high both
    ∷ skill_seed (codes "audit.export") true restricted high admin
    ∷ skill_seed (codes "approvals.decide") false restricted high admin
    ∷ []

-- The loop over the skills: the k-th id is the next fresh one.
unfoldable pub insert_skills : (ℕ → Str) → ℕ → Str → List SkillSeed → CommandDb → CommandDb
insert_skills fresh k org [] db = db
insert_skills fresh k org (s ∷ skills) db = insert_skills fresh (suc k) org skills (record db {
  skill_policies =
      db.skill_policies
      ++ record {
        id = fresh k;
        organization_id = org;
        skill_id = s.skill_id;
        requires_approval = s.approval;
        classification_ceiling = s.classification;
        risk_ceiling = s.risk;
      }
        ∷ [];
  skill_policy_roles =
      db.skill_policy_roles
      ++ map (λ r. record { skill_policy_id = fresh k; role_id = r; organization_id = org })
          s.roles;
})

unfoldable pub default_connector : Str → Str → ConnectorRow
default_connector id org = record {
  id = id;
  organization_id = org;
  connector_key = codes "meta.facebook";
  connector_type = codes "meta.facebook";
  version = codes "1.0.0";
  enabled = false;
  allowed_data_classes_json = public ∷ internal ∷ [];
  secret_ref = none;
  page_config = object end;
  capabilities = codes "publish_post" ∷ codes "schedule_post" ∷ codes "health" ∷ [];
  requires_approval = true;
}

unfoldable pub default_model : Str → Str → ModelRow
default_model id org = record {
  id = id;
  organization_id = org;
  model_key = codes "mock-local";
  provider = mock;
  deployment_type = local;
  endpoint = none;
  capabilities_json = codes "chat" ∷ codes "retrieve" ∷ [];
  allowed_data_classes_json = public ∷ internal ∷ confidential ∷ restricted ∷ [];
  risk_ceiling = high;
  requires_internet = false;
  enabled = true;
}

-- ON CONFLICT DO NOTHING
unfoldable pub insert_connector : ConnectorRow → List ConnectorRow → List ConnectorRow
insert_connector row connectors =
    if any
      (λ c.
        str_eq c.organization_id row.organization_id && str_eq c.connector_key row.connector_key)
      connectors
    then connectors
    else connectors ++ row ∷ []

unfoldable pub insert_binding : SkillConnectorRow → List SkillConnectorRow → List SkillConnectorRow
insert_binding row bindings =
    if any
      (λ b.
        str_eq b.organization_id row.organization_id
        && (str_eq b.skill_id row.skill_id && str_eq b.connector_key row.connector_key))
      bindings
    then bindings
    else bindings ++ row ∷ []

-- `fresh` gives the ids in the order that the code draws them in.
unfoldable pub seed_default_command : (ℕ → Str) → SeedInput → CommandDb → Str × CommandDb
unfolding seed_skills insert_skills default_model default_connector insert_connector insert_binding
    default_policy_rules
seed_default_command fresh input db =
    let org = input.organization_id in
    let bound : CommandDb = record db {
      policies =
          db.policies
          ++ record {
            id = fresh 0;
            organization_id = org;
            name = codes "default";
            version = 1;
            status = codes "active";
            rules = default_policy_rules;
          }
            ∷ [];
      policy_bindings =
          db.policy_bindings
          ++ record { id = fresh 1; organization_id = org; policy_id = fresh 0; skill_id = none }
            ∷ [];
    } in
    let skilled = insert_skills fresh 2 org (seed_skills input) bound in
    (
      fresh 0,
      record skilled {
        models = skilled.models ++ default_model (fresh 11) org ∷ [];
        connectors = insert_connector (default_connector (fresh 12) org) skilled.connectors;
        skill_connectors =
            insert_binding
              (record {
                organization_id = org;
                skill_id = codes "nova.social.draft";
                connector_key = codes "meta.facebook";
                actions = codes "publish_post" ∷ codes "schedule_post" ∷ [];
              })
              skilled.skill_connectors;
      },
    )

-- The schema before the first organization.
abbrev pub empty_command : CommandDb
empty_command = record {
  policies = [];
  policy_bindings = [];
  skill_policies = [];
  skill_policy_roles = [];
  models = [];
  connectors = [];
  skill_connectors = [];
  approvals = [];
}
