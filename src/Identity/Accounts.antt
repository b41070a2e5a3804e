-- ===== src/Identity/Accounts.antt =====
-- packages/identity/src/index.ts: organizations, users and roles.
use verity_os_v.Base.{
  ℕ, Str, codes, str_eq, is_empty, Bool, false, not, ◌&&◌, ◌||◌, List, [], ◌∷◌, ◌++◌, map, Option,
  none, some, Result, ok, throw, find?, select, leb, ◌==◌, if◌then◌else◌, sort_by, zero, suc,
}
use verity_os_v.Base.Stateful.{Stateful, ◌>>=◌, ◌>>◌, pure, query, lift, execute, transaction}
use verity_os_v.Kernel.Noble.{Bytes}
use verity_os_v.Kernel.Graph.{flat_map}
use verity_os_v.Identity.Rows.{
  RoleRow, AuthDb, AuthError, is_user, is_role, insert_organization, insert_user, insert_role,
  insert_role_permission, insert_membership, invalid_role,
}
use verity_os_v.Identity.Passwords.{Platform, hash_password}

abbrev pub Action : Type 0 → Type 0
Action A = Stateful AuthError AuthDb A

-- PERMISSIONS of packages/contracts
abbrev pub permission_keys : List Str
permission_keys =
    codes "organization.manage"
    ∷ codes "users.manage"
    ∷ codes "roles.manage"
    ∷ codes "nova.use"
    ∷ codes "social.draft"
    ∷ codes "knowledge.read"
    ∷ codes "knowledge.manage"
    ∷ codes "knowledge.approve"
    ∷ codes "models.read"
    ∷ codes "models.manage"
    ∷ codes "policies.read"
    ∷ codes "policies.manage"
    ∷ codes "approvals.read"
    ∷ codes "approvals.decide"
    ∷ codes "audit.read"
    ∷ codes "audit.export"
    ∷ codes "connectors.manage"
    ∷ []

abbrev pub admin_permissions : List Str
admin_permissions = permission_keys

abbrev pub member_permissions : List Str
member_permissions =
    codes "nova.use"
    ∷ codes "social.draft"
    ∷ codes "knowledge.read"
    ∷ codes "models.read"
    ∷ codes "policies.read"
    ∷ codes "approvals.read"
    ∷ codes "audit.read"
    ∷ []

abbrev is_slug_unit : ℕ → Bool
is_slug_unit c = (leb b'a' c && leb c b'z') || (leb b'0' c && leb c b'9')

-- replace(/[^a-z0-9]+/g, "-"); the flag says that the run before has its dash.
unfoldable pub dash_runs : Bool → Str → Str
dash_runs dashed [] = []
dash_runs dashed (c ∷ s) =
    let rest = dash_runs (not (is_slug_unit c)) s in
    if is_slug_unit c then c ∷ rest else if dashed then rest else b'-' ∷ rest

unfoldable pub drop_first_dash : Str → Str
drop_first_dash [] = []
drop_first_dash (c ∷ s) = if c == b'-' then s else c ∷ s

unfoldable pub drop_last_dash : Str → Str
drop_last_dash [] = []
drop_last_dash (c ∷ []) = if c == b'-' then [] else c ∷ []
drop_last_dash (c ∷ d ∷ s) = c ∷ drop_last_dash (d ∷ s)

-- slice(0, n)
unfoldable pub slice_to : ℕ → Str → Str
slice_to zero s = []
slice_to (suc n) [] = []
slice_to (suc n) (c ∷ s) = c ∷ slice_to n s

-- replace(/^-|-$/g, "")
unfoldable pub trim_dashes : Str → Str
unfolding drop_first_dash drop_last_dash
trim_dashes s = drop_last_dash (drop_first_dash s)

-- `suffix` is the hex of three random bytes.
unfoldable pub slugify : Platform → Str → Str → Str
unfolding dash_runs trim_dashes slice_to
slugify p suffix name =
    let base = slice_to 40 (trim_dashes (dash_runs false (p.lower name))) in
    (if is_empty base then codes "org" else base) ++ b'-' ∷ suffix

-- toLowerCase().trim()
unfoldable pub normal_email : Platform → Str → Str
normal_email p email = p.trim (p.lower email)

unfoldable pub grant_all : Str → List Str → Action (Unit {0})
grant_all role [] = pure tt
grant_all role (key ∷ keys) = do
  execute (insert_role_permission (record { role_id = role; permission_key = key }))
  grant_all role keys

pub record CreateOrganizationInput : Type 0 where
  pub name : Str
  pub admin_email : Str
  pub admin_password : Str
  pub admin_name : Option Str

-- What is drawn at random for a new organization, and the clock.
pub record NewOrganization : Type 0 where
  pub organization_id : Str
  pub admin_user_id : Str
  pub admin_role_id : Str
  pub member_role_id : Str
  pub membership_id : Str
  pub slug_suffix : Str
  pub salt : Bytes
  pub now : ℕ

abbrev pub or_else : Option Str → Str → Str
or_else none d = d
or_else (some s) d = s

unfoldable pub insert_new_organization :
    Platform → NewOrganization → CreateOrganizationInput → Str → Action (Unit {0})
insert_new_organization p new input hash = do
  execute (
      insert_organization (record {
        id = new.organization_id;
        name = input.name;
        slug = slugify p new.slug_suffix input.name;
      }))
  execute (
      insert_user (record {
        id = new.admin_user_id;
        email = normal_email p input.admin_email;
        password_hash = hash;
        display_name = or_else input.admin_name (codes "Admin");
        disabled_at = none;
      }))
  execute (
      insert_role (record {
        id = new.admin_role_id;
        organization_id = new.organization_id;
        name = codes "admin";
      }))
  execute (
      insert_role (record {
        id = new.member_role_id;
        organization_id = new.organization_id;
        name = codes "member";
      }))
  grant_all new.admin_role_id admin_permissions
  grant_all new.member_role_id member_permissions
  execute (
      insert_membership (record {
        id = new.membership_id;
        organization_id = new.organization_id;
        user_id = new.admin_user_id;
        role_id = new.admin_role_id;
        created_at = new.now;
      }))

-- The ids that it returns are those of `new`.
unfoldable pub create_organization :
    Platform → NewOrganization → CreateOrganizationInput → Action (Unit {0})
create_organization p new input = do
  hash ← lift (hash_password p new.salt input.admin_password)
  transaction (insert_new_organization p new input hash)

pub record CreateUserInput : Type 0 where
  pub organization_id : Str
  pub role_id : Str
  pub email : Str
  pub password : Str
  pub display_name : Str

pub record NewUser : Type 0 where
  pub user_id : Str
  pub membership_id : Str
  pub salt : Bytes
  pub now : ℕ

-- The role's organization, which the input has to name.
unfoldable pub check_role : Option RoleRow → Str → Result AuthError (Unit {0})
check_role none org = throw invalid_role
check_role (some role) org =
    if not (str_eq role.organization_id org) then throw invalid_role else ok tt

unfoldable pub create_user : Platform → NewUser → CreateUserInput → Action Str
create_user p new input = do
  role ← query (λ db. find? (is_role input.role_id) db.roles)
  lift (check_role role input.organization_id)
  hash ← lift (hash_password p new.salt input.password)
  execute (
      insert_user (record {
        id = new.user_id;
        email = normal_email p input.email;
        password_hash = hash;
        display_name = input.display_name;
        disabled_at = none;
      }))
  execute (
      insert_membership (record {
        id = new.membership_id;
        organization_id = input.organization_id;
        user_id = new.user_id;
        role_id = input.role_id;
        created_at = new.now;
      }))
  pure new.user_id

unfoldable pub create_role : (id org name : Str) → List Str → Action Str
create_role id org name keys = do
  execute (insert_role (record { id = id; organization_id = org; name = name }))
  grant_all id keys
  pure id

unfoldable pub load_permissions : Str → AuthDb → List Str
load_permissions role db =
    map (λ r. r.permission_key) (select (λ r. str_eq r.role_id role) db.role_permissions)

-- `id, email, display_name, role` of a member
pub record MemberView : Type 0 where
  pub id : Str
  pub email : Str
  pub display_name : Str
  pub role : Str

-- The order of emails and of names is that of the database's collation.
unfoldable pub list_organization_users : (Str → Str → Bool) → Str → AuthDb → List MemberView
list_organization_users collate_lt org db =
    sort_by (λ a b. collate_lt a.email b.email)
      (flat_map
        (λ m.
          flat_map
            (λ u.
              map
                (λ r. record {
                  id = u.id;
                  email = u.email;
                  display_name = u.display_name;
                  role = r.name;
                })
                (select (is_role m.role_id) db.roles))
            (select (is_user m.user_id) db.users))
        (select (λ m. str_eq m.organization_id org) db.memberships))

unfoldable pub list_organization_roles : (Str → Str → Bool) → Str → AuthDb → List (Str × Str)
list_organization_roles collate_lt org db =
    map (λ r. (r.id, r.name))
      (sort_by (λ a b. collate_lt a.name b.name)
        (select (λ r. str_eq r.organization_id org) db.roles))
