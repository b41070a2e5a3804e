-- ===== src/Identity/Rows.antt =====
-- The tables of the auth schema as packages/identity/src/index.ts uses them, with the keys of
-- src/db/migrations that an INSERT checks. A table is the list of its rows, oldest first; a time is
-- a number of milliseconds. The check that an email is in lower case is left out: the operations
-- write it so.
use verity_os_v.Base.{
  ℕ, Str, str_eq, Bool, true, not, ◌&&◌, List, [], ◌∷◌, ◌++◌, Option, none, some, Result, ok, guard,
  ◌>>◌, any, includes,
}

pub record OrganizationRow : Type 0 where
  pub id : Str
  pub name : Str
  pub slug : Str

pub record UserRow : Type 0 where
  pub id : Str
  pub email : Str
  pub password_hash : Str
  pub display_name : Str
  pub disabled_at : Option ℕ

pub record RoleRow : Type 0 where
  pub id : Str
  pub organization_id : Str
  pub name : Str

pub record RolePermissionRow : Type 0 where
  pub role_id : Str
  pub permission_key : Str

pub record MembershipRow : Type 0 where
  pub id : Str
  pub organization_id : Str
  pub user_id : Str
  pub role_id : Str
  pub created_at : ℕ

pub record SessionRow : Type 0 where
  pub id : Str
  pub user_id : Str
  pub organization_id : Str
  pub token_hash : Str
  pub expires_at : ℕ
  pub ip : Option Str
  pub user_agent : Option Str

pub record ServiceCredentialRow : Type 0 where
  pub id : Str
  pub name : Str
  pub organization_id : Option Str
  pub secret_hash : Str
  pub scopes : List Str
  pub revoked_at : Option ℕ

-- `permissions` is the table of the keys.
pub record AuthDb : Type 0 where
  pub permissions : List Str
  pub organizations : List OrganizationRow
  pub users : List UserRow
  pub roles : List RoleRow
  pub role_permissions : List RolePermissionRow
  pub memberships : List MembershipRow
  pub sessions : List SessionRow
  pub service_credentials : List ServiceCredentialRow

pub data Table : Type 0 where
  organizations users roles role_permissions memberships sessions service_credentials : Table

-- The codes of AuthError, the errors of the database and those of the password hash.
pub data AuthError : Type 0 where
  unauthenticated invalid_credentials no_membership not_a_member forbidden org_mismatch : AuthError
  invalid_role invalid_scope not_found invalid_service_credentials : AuthError
  unique_violation foreign_key_violation : Table → AuthError
  password_too_short scrypt_failed : AuthError

abbrev pub is_organization : Str → OrganizationRow → Bool
is_organization id o = str_eq o.id id

abbrev pub is_user : Str → UserRow → Bool
is_user id u = str_eq u.id id

abbrev pub is_role : Str → RoleRow → Bool
is_role id r = str_eq r.id id

abbrev pub is_membership : Str → Str → MembershipRow → Bool
is_membership org user m = str_eq m.organization_id org && str_eq m.user_id user

abbrev pub has_token : Str → SessionRow → Bool
has_token hash s = str_eq s.token_hash hash

unfoldable pub insert_organization : OrganizationRow → AuthDb → Result AuthError AuthDb
insert_organization row db = do
  guard (not (any (is_organization row.id) db.organizations)) (unique_violation organizations)
  guard (not (any (λ o. str_eq o.slug row.slug) db.organizations)) (unique_violation organizations)
  ok (record db { organizations = db.organizations ++ row ∷ [] })

unfoldable pub insert_user : UserRow → AuthDb → Result AuthError AuthDb
insert_user row db = do
  guard (not (any (is_user row.id) db.users)) (unique_violation users)
  guard (not (any (λ u. str_eq u.email row.email) db.users)) (unique_violation users)
  ok (record db { users = db.users ++ row ∷ [] })

unfoldable pub insert_role : RoleRow → AuthDb → Result AuthError AuthDb
insert_role row db = do
  guard (not (any (is_role row.id) db.roles)) (unique_violation roles)
  guard
      (not (
        any (λ r. str_eq r.organization_id row.organization_id && str_eq r.name row.name) db.roles))
      (unique_violation roles)
  guard (any (is_organization row.organization_id) db.organizations) (foreign_key_violation roles)
  ok (record db { roles = db.roles ++ row ∷ [] })

unfoldable pub insert_role_permission : RolePermissionRow → AuthDb → Result AuthError AuthDb
insert_role_permission row db = do
  guard
      (not (
        any (λ r. str_eq r.role_id row.role_id && str_eq r.permission_key row.permission_key)
          db.role_permissions))
      (unique_violation role_permissions)
  guard (any (is_role row.role_id) db.roles) (foreign_key_violation role_permissions)
  guard (includes db.permissions row.permission_key) (foreign_key_violation role_permissions)
  ok (record db { role_permissions = db.role_permissions ++ row ∷ [] })

-- memberships_role_org_fk: the role is one of the organization.
unfoldable pub insert_membership : MembershipRow → AuthDb → Result AuthError AuthDb
insert_membership row db = do
  guard (not (any (λ m. str_eq m.id row.id) db.memberships)) (unique_violation memberships)
  guard (not (any (is_membership row.organization_id row.user_id) db.memberships))
      (unique_violation memberships)
  guard (any (is_organization row.organization_id) db.organizations)
      (foreign_key_violation memberships)
  guard (any (is_user row.user_id) db.users) (foreign_key_violation memberships)
  guard
      (any (λ r. str_eq r.organization_id row.organization_id && str_eq r.id row.role_id) db.roles)
      (foreign_key_violation memberships)
  ok (record db { memberships = db.memberships ++ row ∷ [] })

-- sessions_membership_org_user_fk: the user is a member of the organization.
unfoldable pub insert_session : SessionRow → AuthDb → Result AuthError AuthDb
insert_session row db = do
  guard (not (any (λ s. str_eq s.id row.id) db.sessions)) (unique_violation sessions)
  guard (not (any (has_token row.token_hash) db.sessions)) (unique_violation sessions)
  guard (any (is_user row.user_id) db.users) (foreign_key_violation sessions)
  guard (any (is_organization row.organization_id) db.organizations)
      (foreign_key_violation sessions)
  guard (any (is_membership row.organization_id row.user_id) db.memberships)
      (foreign_key_violation sessions)
  ok (record db { sessions = db.sessions ++ row ∷ [] })

abbrev pub known_organization : AuthDb → Option Str → Bool
known_organization db none = true
known_organization db (some org) = any (is_organization org) db.organizations

unfoldable pub insert_credential : ServiceCredentialRow → AuthDb → Result AuthError AuthDb
insert_credential row db = do
  guard (not (any (λ c. str_eq c.id row.id) db.service_credentials))
      (unique_violation service_credentials)
  guard (not (any (λ c. str_eq c.secret_hash row.secret_hash) db.service_credentials))
      (unique_violation service_credentials)
  guard (known_organization db row.organization_id) (foreign_key_violation service_credentials)
  ok (record db { service_credentials = db.service_credentials ++ row ∷ [] })
