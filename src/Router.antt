-- ===== src/Router.antt =====
-- packages/model-router/src/index.ts: the registry of models and the choice of one for a request.
pub mod Choice
pub mod Route
use verity_os_v.Base.{
  ℕ, Str, codes, str_eq, sort_by, Bool, true, false, not, ◌&&◌, ◌||◌, List, [], ◌∷◌, ◌++◌, Option,
  none, some, if◌then◌else◌, find?, any, select, ltb, includes, length,
}
use verity_os_v.Contracts.{
  RiskTier, DataClassification, confidential, PolicyDecisionValue, allow, deny, approval_required,
  DeploymentType, local, private, cloud, ModelProvider, classification_rank, risk_rank,
}
use verity_os_v.Command.Rows.{ModelRow, CommandDb, Surroundings, PolicyDecision}
use verity_os_v.Command.Policy.{
  skill_use, model_process, data_leave_device, evaluate_policy, has_class, is_cloud,
}

unfoldable pub deploy_rank : DeploymentType → ℕ
deploy_rank local = 0
deploy_rank private = 1
deploy_rank cloud = 2

-- ORDER BY model_key
unfoldable pub list_models : Surroundings → CommandDb → Str → List ModelRow
list_models around db org =
    sort_by (λ a b. around.collate_lt a.model_key b.model_key)
      (select (λ m. str_eq m.organization_id org) db.models)

unfoldable pub get_model : Surroundings → CommandDb → Str → Str → Option ModelRow
unfolding list_models
get_model around db org model = find? (λ m. str_eq m.id model) (list_models around db org)

unfoldable pub register_model : ModelRow → CommandDb → Str × CommandDb
register_model m db = (m.id, record db { models = db.models ++ m ∷ [] })

pub record ModelRouteRequest : Type 0 where
  pub execution_id : Str
  pub task : Str
  pub risk_tier : RiskTier
  pub data_classification : DataClassification
  pub required_capabilities : List Str
  pub prefer_local : Bool

pub record RouteInput : Type 0 where
  pub organization_id : Str
  pub actor_id : Str
  pub role_id : Str
  pub request : ModelRouteRequest

pub record ModelRouteResult : Type 0 where
  pub model_id : Option Str
  pub provider : Option ModelProvider
  pub deployment_type : Option DeploymentType
  pub policy_version : Option Str
  pub selection_reason_code : Str

unfoldable pub is_deny : PolicyDecisionValue → Bool
is_deny allow = false
is_deny deny = true
is_deny approval_required = false

unfoldable pub is_local : DeploymentType → Bool
is_local local = true
is_local private = false
is_local cloud = false

unfoldable pub is_private : DeploymentType → Bool
is_private local = false
is_private private = true
is_private cloud = false

abbrev pub route_policy : Surroundings → CommandDb → RouteInput → PolicyDecision
route_policy around db input = evaluate_policy around db (record {
  organization_id = input.organization_id;
  actor_id = input.actor_id;
  role_id = input.role_id;
  action =
      skill_use (codes "models.route") input.request.data_classification input.request.risk_tier;
})

unfoldable pub local_required : Surroundings → CommandDb → RouteInput → Bool
local_required around db input =
    is_deny (
      (evaluate_policy around db (record {
        organization_id = input.organization_id;
        actor_id = input.actor_id;
        role_id = input.role_id;
        action = data_leave_device input.request.data_classification;
      })).decision)
    || not (
        ltb (classification_rank input.request.data_classification)
          (classification_rank confidential))

unfoldable pub cloud_denied : Surroundings → CommandDb → RouteInput → ModelRow → Bool
cloud_denied around db input m = is_deny (
    (evaluate_policy around db (record {
      organization_id = input.organization_id;
      actor_id = input.actor_id;
      role_id = input.role_id;
      action =
          model_process input.request.data_classification cloud m.risk_ceiling
            input.request.risk_tier;
    })).decision)

-- The loop body: whether it pushes the model.
unfoldable pub is_eligible : Surroundings → CommandDb → RouteInput → ModelRow → Bool
unfolding cloud_denied local_required
is_eligible around db input m =
    if not (has_class m.allowed_data_classes_json input.request.data_classification)
    then false
    else if ltb (risk_rank m.risk_ceiling) (risk_rank input.request.risk_tier)
    then false
    else if any (λ c. not (includes m.capabilities_json c)) input.request.required_capabilities
    then false
    else if local_required around db input && not (is_local m.deployment_type)
    then false
    else if is_cloud m.deployment_type && cloud_denied around db input m
    then false
    else true

unfoldable pub model_lt : Surroundings → ModelRow → ModelRow → Bool
unfolding deploy_rank
model_lt around a b =
    if ltb (deploy_rank a.deployment_type) (deploy_rank b.deployment_type)
    then true
    else if ltb (deploy_rank b.deployment_type) (deploy_rank a.deployment_type)
    then false
    else around.locale_lt a.model_key b.model_key

abbrev pub enabled_models : Surroundings → CommandDb → Str → List ModelRow
enabled_models around db org = select (λ m. m.enabled) (list_models around db org)

unfoldable pub eligible_models : Surroundings → CommandDb → RouteInput → List ModelRow
unfolding is_eligible model_lt list_models
eligible_models around db input =
    sort_by (model_lt around)
      (select (is_eligible around db input) (enabled_models around db input.organization_id))

abbrev pub locals : ModelRow → Bool
locals m = is_local m.deployment_type

unfoldable pub or_model : Option ModelRow → ModelRow → ModelRow
or_model none m = m
or_model (some l) m = l

-- The model of a non-empty list of eligible ones, and the reason of the choice.
unfoldable pub choose : Bool → Bool → ModelRow → List ModelRow → ModelRow × Str
unfolding or_model is_private
choose needs_local prefers_local first rest =
    let eligible = first ∷ rest in
    if needs_local
    then (or_model (find? locals eligible) first, codes "LOCAL_REQUIRED_CLASSIFICATION")
    else if prefers_local && any locals eligible
    then (or_model (find? locals eligible) first, codes "LOCAL_PREFERRED_AVAILABLE")
    else if is_private first.deployment_type
    then (first, codes "PRIVATE_REQUIRED_POLICY")
    else if is_cloud first.deployment_type
    then (first, codes "CLOUD_ALLOWED_FALLBACK")
    else (first, codes "MODEL_CAPABILITY_MATCH")

unfoldable pub no_model : Option Str → Str → ModelRouteResult
no_model version reason = record {
  model_id = none;
  provider = none;
  deployment_type = none;
  policy_version = version;
  selection_reason_code = reason;
}

unfoldable pub selected : Option Str → ModelRow × Str → ModelRouteResult
selected version (chosen, reason) = record {
  model_id = some chosen.id;
  provider = some chosen.provider;
  deployment_type = some chosen.deployment_type;
  policy_version = version;
  selection_reason_code = reason;
}

unfoldable pub risk_blocked : RouteInput → List ModelRow → Bool
risk_blocked input models =
    any (λ m. ltb (risk_rank m.risk_ceiling) (risk_rank input.request.risk_tier)) models
    && ltb 0 (length models)

unfoldable pub route_model : Surroundings → CommandDb → RouteInput → ModelRouteResult
unfolding no_model selected choose risk_blocked
route_model around db input =
    let policy = route_policy around db input in
    if is_deny policy.decision
    then no_model policy.policy_version policy.reason_code
    else elim (eligible_models around db input) [
      | [] ↦
          if risk_blocked input (enabled_models around db input.organization_id)
          then no_model policy.policy_version (codes "MODEL_RISK_CEILING_EXCEEDED")
          else no_model policy.policy_version (codes "NO_ALLOWED_MODEL")
      | first ∷ rest ↦
          selected policy.policy_version
            (choose (local_required around db input) input.request.prefer_local first rest)
    ]
