-- ===== src/Command/Seed/Defaults.antt =====
-- What an organization may do under its seeded policy.
use verity_os_v.Base.{
  ℕ, suc, ◌≤◌, Str, codes, str_eq, str_eq_iff, str_eq_refl, Bool, true, false, not, ◌||◌, List, [],
  ◌∷◌, ◌++◌, Option, none, some, find?, All, All-append, Bool-cases, sort_by, ◌≡◌, ◌≢◌, ◌↔◌, inl,
  inr, refl, sym, ◌∙◌, arith,
}
use verity_os_v.Contracts.{RiskTier, DataClassification, internal, allow, classification_rank}
use verity_os_v.Command.Rows.{PolicyRow, SkillPolicyRow, CommandDb, Surroundings}
use verity_os_v.Command.Policy.{
  skill_use, data_leave_device, skill_of, load_active_policy, bound_policies, is_bound, policy_of,
  granted_skill, evaluate_policy,
}
use verity_os_v.Command.Policy.Allow.{Permits, InForce, evaluate-allow}
use verity_os_v.Command.Policy.Ceilings.{asks}
use verity_os_v.Command.Seed.{
  SeedInput, SkillSeed, default_allows, default_policy_rules, seed_skills, insert_skills,
  seed_default_command, empty_command,
}

find?-All {ℓ κ} :
    {A : Type ℓ} (P : A → Type κ) (p : A → Bool) (xs : List A) (x : A)
    → All P xs
    → find? p xs ≡ some x
    → P x × (p x ≡ true)
find?-All P p [] x h e = cc
find?-All P p (y ∷ ys) x h e = elim (Bool-cases (p y)) [
  | inl found ↦ let same : y ≡ x = ground (arith) in rw⁻¹ same (h.0, found)
  | inr missed ↦ find?-All P p ys x h.1 (ground (arith))
]

-- An organization right after seedDefaultCommand.
unfoldable pub seeded : (ℕ → Str) → SeedInput → CommandDb
seeded fresh input = (seed_default_command fresh input empty_command).1

default_policy : (ℕ → Str) → SeedInput → PolicyRow
default_policy fresh input = record {
  id = fresh 0;
  organization_id = input.organization_id;
  name = codes "default";
  version = 1;
  status = codes "active";
  rules = default_policy_rules;
}

seeded-policy :
    (around : Surroundings) (fresh : ℕ → Str) (input : SeedInput) (skill : Option Str)
    → load_active_policy around (seeded fresh input) input.organization_id skill
      ≡ some (default_policy fresh input)
unfolding seeded seed_default_command seed_skills insert_skills load_active_policy bound_policies
    sort_by policy_of default_policy default_policy_rules is_bound
seeded-policy around fresh input none =
    rw (str_eq_refl input.organization_id, str_eq_refl (fresh 0)) (unfold str_eq in refl)
seeded-policy around fresh input (some s) =
    rw (str_eq_refl input.organization_id, str_eq_refl (fresh 0)) (unfold str_eq in refl)

leave-rank :
    (c : DataClassification)
    → (default_allows c ≡ true) ↔ (classification_rank c ≤ classification_rank internal)
unfolding default_allows classification_rank
leave-rank c = ground (arith)

leave-rules :
    (fresh : ℕ → Str) (input : SeedInput) (c : DataClassification) (policy : PolicyRow)
    → policy ≡ default_policy fresh input
    → policy.rules.leave_device c ≡ default_allows c
unfolding default_policy default_policy_rules
leave-rules fresh input c policy same = rw same refl

-- Under the seeded policy data may leave the device exactly up to `internal`.
pub seeded-leave_device :
    (around : Surroundings) (fresh : ℕ → Str) (input : SeedInput) (actor role : Str)
    (classification : DataClassification)
    → ((evaluate_policy around
          (seeded fresh input)
          (asks input.organization_id actor role (data_leave_device classification))).decision
        ≡ allow)
      ↔ (classification_rank classification ≤ classification_rank internal)
unfolding Permits skill_of InForce
seeded-leave_device around fresh input actor role classification =
    let allowed =
      evaluate-allow around (seeded fresh input)
        (asks input.organization_id actor role (data_leave_device classification)) in
    let load = seeded-policy around fresh input none in
    (
      λ h.
          let (policy, force, rule) = allowed.0 h in
          let same : policy ≡ default_policy fresh input = cc in
          (leave-rank classification).0
            (sym (leave-rules fresh input classification policy same) ∙ rule),
      λ h. allowed.1 (
        default_policy fresh input,
        load,
        leave-rules fresh input classification _ refl ∙ (leave-rank classification).1 h,
      ),
    )

-- The skills whose use waits for an approval.
unfoldable pub waits : Str → Bool
waits skill = str_eq skill (codes "nova.social.draft") || str_eq skill (codes "audit.export")

-- A row of such a skill asks for an approval.
asks_approval : SkillPolicyRow → Bool
unfolding waits
asks_approval s = not (waits s.skill_id) || s.requires_approval

-- Rows of an organization ask for an approval.
abbrev AsksFor : Str → SkillPolicyRow → Type 0
AsksFor org s = str_eq s.organization_id org ≡ true → asks_approval s ≡ true

insert-AsksFor :
    (fresh : ℕ → Str) (k : ℕ) (org : Str) (skills : List SkillSeed) (db : CommandDb)
    → All (λ s. (not (waits s.skill_id) || s.approval) ≡ true) skills
    → All (AsksFor org) db.skill_policies
    → All (AsksFor org) (insert_skills fresh k org skills db).skill_policies
unfolding insert_skills asks_approval
insert-AsksFor fresh k org [] db a h = h
insert-AsksFor fresh k org (s ∷ skills) db a h =
    insert-AsksFor fresh (suc k) org skills _ a.1
      (All-append (AsksFor org) db.skill_policies _ h ((λ own. a.0), tt))

seeds-ask :
    (input : SeedInput)
    → All (λ s. (not (waits s.skill_id) || s.approval) ≡ true) (seed_skills input)
unfolding seed_skills waits str_eq
seeds-ask input = (refl, (refl, (refl, (refl, (refl, (refl, (refl, (refl, (refl, tt)))))))))

no_rows-AsksFor :
    (org : Str) (rows : List SkillPolicyRow)
    → All (λ s. str_eq s.organization_id org ≡ false) rows
    → All (AsksFor org) rows
no_rows-AsksFor org [] h = tt
no_rows-AsksFor org (s ∷ rows) h = ((λ own. cc (h.0, own)), no_rows-AsksFor org rows h.1)

seeded-AsksFor :
    (fresh : ℕ → Str) (input : SeedInput) (db : CommandDb)
    → All (λ s. str_eq s.organization_id input.organization_id ≡ false) db.skill_policies
    → All (AsksFor input.organization_id) ((seed_default_command fresh input db).1).skill_policies
unfolding seed_default_command default_policy
seeded-AsksFor fresh input db none_yet =
    let bound : CommandDb = record db {
      policies = db.policies ++ default_policy fresh input ∷ [];
      policy_bindings =
          db.policy_bindings
          ++ record {
            id = fresh 1;
            organization_id = input.organization_id;
            policy_id = fresh 0;
            skill_id = none;
          }
            ∷ [];
    } in
    insert-AsksFor fresh 2 input.organization_id (seed_skills input) bound (seeds-ask input)
      (no_rows-AsksFor input.organization_id db.skill_policies none_yet)

-- Right after seedDefaultCommand has seeded an organization that had no rows of skills, in a schema
-- that may hold other organizations, evaluatePolicy allows nobody of that organization the use of
-- nova.social.draft or audit.export, whatever the role, the classification and the risk.
pub seeded-waits :
    (around : Surroundings) (fresh : ℕ → Str) (input : SeedInput) (db : CommandDb)
    (actor role skill : Str) (classification : DataClassification) (risk : RiskTier)
    → All (λ s. str_eq s.organization_id input.organization_id ≡ false) db.skill_policies
    → waits skill ≡ true
    → (evaluate_policy around
        ((seed_default_command fresh input db).1)
        (asks input.organization_id actor role (skill_use skill classification risk))).decision
      ≢ allow
unfolding Permits asks_approval granted_skill
seeded-waits around fresh input db actor role skill classification risk none_yet w h =
    let after = (seed_default_command fresh input db).1 in
    let (policy, force, s) =
      (evaluate-allow around after
          (asks input.organization_id actor role (skill_use skill classification risk))).0
        h in
    let (b, found) =
      find?-All (AsksFor input.organization_id) _ after.skill_policies s.row
        (seeded-AsksFor fresh input db none_yet) s.granted in
    let a = b (ground (arith, found)) in
    let off = s.approval_is in
    let same = str_eq_iff s.row.skill_id skill in
    let same' : s.row.skill_id ≡ skill = same.0 (ground (arith, found)) in
    let w' : waits s.row.skill_id ≡ true = rw same' w in ground (arith, a, w', off)
