-- ===== src/Examples/Routing.antt =====
-- A request routed to the local model that an organization starts with.
use verity_os_v.Base.{
  Str, codes, str_eq, [], ◌∷◌, some, false, sort_by, includes, ◌≡◌, refl, arith, inl,
}
use verity_os_v.Contracts.{low, confidential, local, classification_rank, risk_rank}
use verity_os_v.Command.Rows.{ModelRow}
use verity_os_v.Command.Policy.{
  evaluate_policy, load_active_policy, bound_policies, is_bound, policy_of, evaluate_under,
  evaluate_skill, granted_skill, decision, has_class, class_eq, skill_of,
}
use verity_os_v.Command.Seed.{
  default_model, seed_skills, insert_skills, seed_default_command, default_policy_rules,
}
use verity_os_v.Command.Seed.Defaults.{seeded}
use verity_os_v.Router.{RouteInput, is_deny, route_policy, route_model}
use verity_os_v.Router.Choice.{IsFit}
use verity_os_v.Router.Route.{IsRouted, route-IsRouted, route_complete, route-confidential}
use verity_os_v.Examples.Policies.{around, started, fresh}

abbrev input : RouteInput
input = record {
  organization_id = codes "acme";
  actor_id = codes "ann";
  role_id = codes "member";
  request = record {
    execution_id = codes "e1";
    task = codes "draft";
    risk_tier = low;
    data_classification = confidential;
    required_capabilities = codes "chat" ∷ [];
    prefer_local = false;
  };
}

abbrev model : ModelRow
model = default_model (fresh 11) (codes "acme")

not_denied : is_deny (route_policy around started input).decision ≡ false
unfolding is_deny evaluate_policy seeded seed_default_command seed_skills insert_skills
    load_active_policy bound_policies sort_by policy_of default_policy_rules is_bound evaluate_under
    evaluate_skill granted_skill decision str_eq classification_rank risk_rank skill_of
not_denied = refl

model-IsFit : IsFit around started input model
unfolding seeded seed_default_command seed_skills insert_skills default_model has_class class_eq
    includes str_eq risk_rank classification_rank
model-IsFit = record {
  registered = inl refl;
  organization_is = refl;
  enabled = refl;
  takes = refl;
  risk_within = omega arith;
  capable = refl;
  stays_local = λ _. refl;
  cloud_allowed = λ h. ground (arith);
}

route_complete_example : (id : Str) × ((route_model around started input).model_id ≡ some id)
route_complete_example = route_complete around started input model not_denied model-IsFit

routed : (id : Str) × ((route_model around started input).model_id ≡ some id)
routed = route_complete around started input model not_denied model-IsFit

route-IsRouted_example : IsRouted around started input (route_model around started input)
route-IsRouted_example = route-IsRouted around started input routed.0 routed.1

route-confidential_example : (route_model around started input).deployment_type ≡ some local
route-confidential_example = route-confidential around started input routed.0 (omega arith) routed.1
