-- ===== src/Command/Policy/Granted.antt =====
-- The tests on rows of packages/command/src, in terms of the rows.
use verity_os_v.Base.{
  Str, str_eq, str_eq_iff, Bool, true, ◌&&◌, &&-true, List, [], ◌∷◌, some, any, find?, Member,
  Bool-cases, ◌≡◌, ◌↔◌, inl, inr, refl, sym, ap, ◌∙◌, arith,
}
use verity_os_v.Base.Distinct.{find-Member, Member-any}
use verity_os_v.Contracts.{DataClassification, classification_rank}
use verity_os_v.Command.Rows.{SkillPolicyRow, SkillPolicyRoleRow, CommandDb}
use verity_os_v.Command.Policy.{granted_skill, class_eq, has_class}

any-found :
    {A : Type 0} (p : A → Bool) (xs : List A)
    → any p xs ≡ true
    → (x : A) × Member x xs × (p x ≡ true)
any-found p [] h = cc
any-found p (x ∷ xs) h = elim (Bool-cases (p x)) [
  | inl e ↦ (x, inl refl, e)
  | inr e ↦ let (y, m, k) = any-found p xs (ground (arith)) in (y, inr m, k)
]

Member-find :
    {A : Type 0} (p : A → Bool) (x : A) (xs : List A)
    → Member x xs
    → p x ≡ true
    → (y : A) × (find? p xs ≡ some y)
Member-find p x [] m h = absurd m
Member-find p x (y ∷ xs) m h = elim (Bool-cases (p y)) [
  | inl e ↦ (y, rw e refl)
  | inr e ↦ elim m [
    | inl own ↦ let clash : p y ≡ true = ap p (sym own) ∙ h in cc
    | inr later ↦ let (z, k) = Member-find p x xs later h in (z, rw e k)
  ]
]

class_eq_iff : (a b : DataClassification) → (class_eq a b ≡ true) ↔ (a ≡ b)
unfolding class_eq classification_rank
class_eq_iff a b = ground (arith)

pub has_class_iff :
    (classes : List DataClassification) (c : DataClassification)
    → (has_class classes c ≡ true) ↔ Member c classes
unfolding has_class
has_class_iff classes c = (
  λ h.
      let (d, m, e) = any-found (λ d. class_eq d c) classes h in
      let same = (class_eq_iff d c).0 e in rw same at m,
  λ m. Member-any (λ d. class_eq d c) c classes m ((class_eq_iff c c).1 refl),
)

-- A row of the organization for the skill, and a grant of that row to the role.
pub record IsGranted (db : CommandDb) (org skill role : Str) : Type 0 where
  pub row : SkillPolicyRow
  pub in_rows : Member row db.skill_policies
  pub organization_is : row.organization_id ≡ org
  pub skill_is : row.skill_id ≡ skill
  pub grant : SkillPolicyRoleRow
  pub in_grants : Member grant db.skill_policy_roles
  pub of_row : grant.skill_policy_id ≡ row.id
  pub role_is : grant.role_id ≡ role

pub granted_skill-IsGranted :
    (db : CommandDb) (org skill role : Str) (row : SkillPolicyRow)
    → granted_skill db org skill role ≡ some row
    → IsGranted db org skill role
unfolding granted_skill
granted_skill-IsGranted db org skill role row h =
    let (m, test) = find-Member _ db.skill_policies row h in
    let (eo, rest) = &&-true (str_eq row.organization_id org) _ test in
    let (es, held) = &&-true (str_eq row.skill_id skill) _ rest in
    let (grant, mg, tg) =
      any-found (λ r. str_eq r.skill_policy_id row.id && str_eq r.role_id role)
        db.skill_policy_roles held in
    let (ei, er) = &&-true (str_eq grant.skill_policy_id row.id) _ tg in
    record {
      row = row;
      in_rows = m;
      organization_is = (str_eq_iff row.organization_id org).0 eo;
      skill_is = (str_eq_iff row.skill_id skill).0 es;
      grant = grant;
      in_grants = mg;
      of_row = (str_eq_iff grant.skill_policy_id row.id).0 ei;
      role_is = (str_eq_iff grant.role_id role).0 er;
    }

pub IsGranted-granted_skill :
    (db : CommandDb) (org skill role : Str)
    → IsGranted db org skill role
    → (row : SkillPolicyRow) × (granted_skill db org skill role ≡ some row)
unfolding granted_skill
IsGranted-granted_skill db org skill role g =
    let held : any (λ r. str_eq r.skill_policy_id g.row.id && str_eq r.role_id role)
          db.skill_policy_roles
        ≡ true =
      Member-any _ g.grant db.skill_policy_roles g.in_grants (
        rw
          (
            (str_eq_iff g.grant.skill_policy_id g.row.id).1 g.of_row,
            (str_eq_iff g.grant.role_id role).1 g.role_is,
          )
          refl) in
    Member-find _ g.row db.skill_policies g.in_rows (
      rw
        (
          (str_eq_iff g.row.organization_id org).1 g.organization_is,
          (str_eq_iff g.row.skill_id skill).1 g.skill_is,
          held,
        )
        refl)

pub any_str_iff : (xs : List Str) (s : Str) → (any (λ b. str_eq b s) xs ≡ true) ↔ Member s xs
any_str_iff xs s = (
  λ h.
      let (d, m, e) = any-found (λ b. str_eq b s) xs h in
      let same = (str_eq_iff d s).0 e in rw same at m,
  λ m. Member-any (λ b. str_eq b s) s xs m ((str_eq_iff s s).1 refl),
)
