-- ===== src/Identity/Consistent.antt =====
-- The state of the auth tables: keys, references and the scopes of credentials.
use verity_os_v.Base.{Str, str_eq, Bool, true, false, ◌&&◌, List, All, any, ◌≡◌}
use verity_os_v.Base.Distinct.{Distinct}
use verity_os_v.Identity.Rows.{
  OrganizationRow, UserRow, RoleRow, RolePermissionRow, MembershipRow, SessionRow,
  ServiceCredentialRow, AuthDb, is_membership, is_organization,
}
use verity_os_v.Identity.Credentials.{is_overreaching}

abbrev pub same_user : UserRow → UserRow → Bool
same_user a b = str_eq a.id b.id

abbrev pub same_role : RoleRow → RoleRow → Bool
same_role a b = str_eq a.id b.id

abbrev pub same_organization : OrganizationRow → OrganizationRow → Bool
same_organization a b = str_eq a.id b.id

abbrev pub same_slug : OrganizationRow → OrganizationRow → Bool
same_slug a b = str_eq a.slug b.slug

abbrev pub same_email : UserRow → UserRow → Bool
same_email a b = str_eq a.email b.email

abbrev pub same_role_name : RoleRow → RoleRow → Bool
same_role_name a b = str_eq a.organization_id b.organization_id && str_eq a.name b.name

abbrev pub same_grant : RolePermissionRow → RolePermissionRow → Bool
same_grant a b = str_eq a.role_id b.role_id && str_eq a.permission_key b.permission_key

abbrev pub same_membership_id : MembershipRow → MembershipRow → Bool
same_membership_id a b = str_eq a.id b.id

abbrev pub same_session : SessionRow → SessionRow → Bool
same_session a b = str_eq a.id b.id

abbrev pub same_credential : ServiceCredentialRow → ServiceCredentialRow → Bool
same_credential a b = str_eq a.id b.id

abbrev pub same_secret : ServiceCredentialRow → ServiceCredentialRow → Bool
same_secret a b = str_eq a.secret_hash b.secret_hash

abbrev pub same_member : MembershipRow → MembershipRow → Bool
same_member a b = is_membership b.organization_id b.user_id a

abbrev pub same_token : SessionRow → SessionRow → Bool
same_token a b = str_eq a.token_hash b.token_hash

abbrev pub HasMember : List MembershipRow → SessionRow → Type 0
HasMember memberships s = any (is_membership s.organization_id s.user_id) memberships ≡ true

abbrev pub is_role_in : Str → Str → RoleRow → Bool
is_role_in org id r = str_eq r.organization_id org && str_eq r.id id

abbrev pub HasRole : List RoleRow → MembershipRow → Type 0
HasRole roles m = any (is_role_in m.organization_id m.role_id) roles ≡ true

abbrev pub IsScoped : ServiceCredentialRow → Type 0
IsScoped c = is_overreaching c.organization_id c.scopes ≡ false

abbrev pub HasOrganization : List OrganizationRow → MembershipRow → Type 0
HasOrganization organizations m = any (is_organization m.organization_id) organizations ≡ true

-- Every key of the tables that the package writes, which are all but auth.permissions, is unique:
-- ids, slugs, emails, the name of a role in its organization, a permission of a role, the
-- membership of a user in an organization, and the hashes of tokens and of the secrets of
-- credentials; a session is of a member of its organization; a membership has a role of its
-- organization, which exists; and no credential of an organization has the scope over all
-- organizations.
pub record IsConsistent (db : AuthDb) : Type 0 where
  pub organizations_distinct : Distinct same_organization db.organizations
  pub slugs_distinct : Distinct same_slug db.organizations
  pub emails_distinct : Distinct same_email db.users
  pub role_names_distinct : Distinct same_role_name db.roles
  pub grants_distinct : Distinct same_grant db.role_permissions
  pub membership_ids_distinct : Distinct same_membership_id db.memberships
  pub sessions_distinct : Distinct same_session db.sessions
  pub credentials_distinct : Distinct same_credential db.service_credentials
  pub secrets_distinct : Distinct same_secret db.service_credentials
  pub users_distinct : Distinct same_user db.users
  pub roles_distinct : Distinct same_role db.roles
  pub memberships_distinct : Distinct same_member db.memberships
  pub tokens_distinct : Distinct same_token db.sessions
  pub sessions_belong : All (HasMember db.memberships) db.sessions
  pub roles_belong : All (HasRole db.roles) db.memberships
  pub organizations_belong : All (HasOrganization db.organizations) db.memberships
  pub credentials_scoped : All IsScoped db.service_credentials
