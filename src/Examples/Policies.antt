-- ===== src/Examples/Policies.antt =====
-- Decisions under the seeded policy of an organization.
use verity_os_v.Base.{
  ℕ, Str, codes, str_eq, List, All, [], ◌∷◌, none, some, ok, throw, true, false, sort_by, ◌≡◌, ◌≢◌,
  ◌↔◌, refl, arith,
}
use verity_os_v.Contracts.{low, medium, public, internal, allow, classification_rank, risk_rank}
use verity_os_v.Command.Rows.{PolicyRow, CommandDb, Surroundings}
use verity_os_v.Command.Policy.{
  PolicyAction, skill_use, approval_decide, find_approval, granted_skill, load_active_policy,
  evaluate_policy, bound_policies, is_bound, policy_of, evaluate_under, evaluate_skill, decision,
  skill_of,
}
use verity_os_v.Command.Policy.Allow.{Permits, InForce, evaluate-allow}
use verity_os_v.Command.Policy.Ceilings.{asks, evaluate-lower, evaluate-self_approval}
use verity_os_v.Command.Approvals.{
  CreateApprovalInput, create_approval, get_approval, approval_not_pending, decide_approval,
}
use verity_os_v.Command.Approvals.Once.{
  ApprovalCall, creates, decides, run_approvals, DrawsOther, decide-again, opened, settled,
  decision_on, create-decide,
}
use verity_os_v.Command.Connectors.{EvaluateConnectorInput, evaluate_connector_action}
use verity_os_v.Command.Connectors.Gate.{IsCleared, connector_action-allow}
use verity_os_v.Command.Seed.{
  SeedInput, seed_skills, insert_skills, seed_default_command, default_policy_rules,
}
use verity_os_v.Command.Seed.Defaults.{seeded, waits, seeded-waits}

-- The k-th fresh id is the text of one unit.
abbrev pub fresh : ℕ → Str
fresh k = k ∷ []

abbrev pub around : Surroundings
around = record { now = codes "2026-01-01"; collate_lt = λ a b. false; locale_lt = λ a b. false }

abbrev pub acme : SeedInput
acme = record {
  organization_id = codes "acme";
  admin_role_id = codes "admin";
  member_role_id = codes "member";
}

abbrev pub started : CommandDb
started = seeded fresh acme

abbrev drafting : PolicyAction
drafting = skill_use (codes "nova.drafting") internal medium

evaluate-allow_example :
    ((evaluate_policy around started
        (asks (codes "acme") (codes "ann") (codes "member") drafting)).decision
      ≡ allow)
    ↔ ((p : PolicyRow) × InForce around started
          (asks (codes "acme") (codes "ann") (codes "member") drafting)
          p
        × Permits started p (codes "acme") (codes "ann") (codes "member") drafting)
evaluate-allow_example =
    evaluate-allow around started (asks (codes "acme") (codes "ann") (codes "member") drafting)

drafting_allowed :
    (evaluate_policy around started
      (asks (codes "acme") (codes "ann") (codes "member") drafting)).decision
    ≡ allow
unfolding evaluate_policy seeded seed_default_command seed_skills insert_skills load_active_policy
    bound_policies sort_by policy_of default_policy_rules is_bound evaluate_under evaluate_skill
    granted_skill decision str_eq classification_rank risk_rank skill_of
drafting_allowed = refl

evaluate-lower_example :
    (evaluate_policy around started (
      asks
        (codes "acme")
        (codes "ann")
        (codes "member")
        (skill_use (codes "nova.drafting") public low))).decision
    ≡ allow
unfolding classification_rank risk_rank
evaluate-lower_example =
    evaluate-lower around started (codes "acme") (codes "ann") (codes "member")
      (codes "nova.drafting") internal public medium low (omega arith) (omega arith)
      drafting_allowed

-- A second organization.
abbrev beta : SeedInput
beta = record {
  organization_id = codes "beta";
  admin_role_id = codes "chief";
  member_role_id = codes "worker";
}

not_seeded : All (λ s. str_eq s.organization_id beta.organization_id ≡ false) started.skill_policies
unfolding seeded seed_default_command seed_skills insert_skills str_eq
not_seeded = (refl, (refl, (refl, (refl, (refl, (refl, (refl, (refl, (refl, tt)))))))))

seeded-waits_example :
    (evaluate_policy around ((seed_default_command fresh beta started).1) (
      asks
        (codes "beta")
        (codes "ann")
        (codes "chief")
        (skill_use (codes "audit.export") public low))).decision
    ≢ allow
seeded-waits_example =
    seeded-waits around fresh beta started (codes "ann") (codes "chief") (codes "audit.export")
      public low not_seeded (unfold waits str_eq in refl)

abbrev request : CreateApprovalInput
request = record {
  organization_id = codes "acme";
  execution_id = codes "e1";
  skill_id = codes "nova.social.draft";
  requested_by = codes "ann";
  artifact_hash = some (codes "ff");
}

-- The organization with ann's request for an approval.
abbrev requested : CommandDb
requested = (create_approval (codes "a1") (codes "2026-01-02") request started).1

no_approval : find_approval started (codes "a1") ≡ none
unfolding find_approval seeded seed_default_command seed_skills insert_skills
no_approval = refl

request_found :
    find_approval requested (codes "a1") ≡ some (opened (codes "a1") (codes "2026-01-02") request)
unfolding find_approval create_approval seeded seed_default_command seed_skills insert_skills str_eq
request_found = refl

evaluate-self_approval_example :
    (evaluate_policy around requested
      (asks (codes "acme") (codes "ann") (codes "admin") (approval_decide (codes "a1")))).decision
    ≢ allow
evaluate-self_approval_example =
    evaluate-self_approval around requested (codes "acme") (codes "admin") (codes "a1")
      (opened (codes "a1") (codes "2026-01-02") request) request_found

create-decide_example :
    ((decide_approval
        (codes "2026-01-03")
        (decision_on (codes "a1") request (codes "bob") true)
        ((create_approval (codes "a1") (codes "2026-01-02") request started).1)).0
      ≡ ok tt)
    × (get_approval
          ((decide_approval
            (codes "2026-01-03")
            (decision_on (codes "a1") request (codes "bob") true)
            ((create_approval (codes "a1") (codes "2026-01-02") request started).1)).1)
          (codes "acme")
          (codes "a1")
        ≡ some (
            settled
              (codes "a1")
              (codes "2026-01-02")
              (codes "2026-01-03")
              request
              (codes "bob")
              true))
create-decide_example =
    create-decide (codes "a1") (codes "2026-01-02") (codes "2026-01-03") request (codes "bob") true
      started no_approval

-- Eve decides on the same approval, and ann opens another one.
abbrev between : List ApprovalCall
between =
    decides (codes "2026-01-03") (decision_on (codes "a1") request (codes "eve") true)
    ∷ creates (codes "a2") (codes "2026-01-03") request
    ∷ []

abbrev refused_db : CommandDb
refused_db = run_approvals between (
    (decide_approval (codes "2026-01-03") (decision_on (codes "a1") request (codes "bob") false)
      requested).1)

others_drawn : All (DrawsOther (codes "a1")) between
unfolding str_eq
others_drawn = (tt, (refl, tt))

decide-again_example :
    decide_approval
      (codes "2026-01-04")
      (decision_on (codes "a1") request (codes "eve") true)
      refused_db
    ≡ (throw approval_not_pending, refused_db)
decide-again_example =
    decide-again (codes "2026-01-03") (codes "2026-01-04")
      (decision_on (codes "a1") request (codes "bob") false)
      (decision_on (codes "a1") request (codes "eve") true) between requested refl refl others_drawn

abbrev posting : EvaluateConnectorInput
posting = record {
  organization_id = codes "acme";
  actor_id = codes "ann";
  role_id = codes "member";
  skill_id = codes "nova.social.draft";
  connector_key = codes "meta.facebook";
  action = codes "publish_post";
  classification = public;
  approval_status = some (codes "approved");
  approval_artifact_hash = some (codes "ff");
  requested_artifact_hash = codes "ff";
}

connector_action-allow_example :
    ((evaluate_connector_action around started posting).decision ≡ allow)
    ↔ IsCleared started posting
connector_action-allow_example = connector_action-allow around started posting
