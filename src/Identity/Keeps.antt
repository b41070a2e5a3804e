-- ===== src/Identity/Keeps.antt =====
-- What the operations of packages/identity do to the tables.
use verity_os_v.Base.{Bool, true, List, [], ◌∷◌, ◌++◌, ok, any, All, All-append, arith, ◌≡◌}
use verity_os_v.Base.Distinct.{Distinct-snoc}
use verity_os_v.Identity.Rows.{
  OrganizationRow, UserRow, RoleRow, RolePermissionRow, MembershipRow, SessionRow,
  ServiceCredentialRow, AuthDb, is_organization, is_membership, insert_organization, insert_user,
  insert_role, insert_role_permission, insert_membership, insert_session, insert_credential,
}
use verity_os_v.Identity.Consistent.{
  IsConsistent, HasMember, HasOrganization, HasRole, IsScoped, is_role_in, same_user, same_role,
  same_member, same_token, same_organization, same_slug, same_email, same_role_name, same_grant,
  same_membership_id, same_session, same_credential, same_secret,
}

any-append :
    {A : Type 0} (p : A → Bool) (xs ys : List A) → any p xs ≡ true → any p (xs ++ ys) ≡ true
any-append p [] ys h = cc
any-append p (x ∷ xs) ys h = ground (arith, any-append p xs ys)

All-imply :
    {A : Type 0} (P Q : A → Type 0) (xs : List A) → ((x : A) → P x → Q x) → All P xs → All Q xs
All-imply P Q [] f h = tt
All-imply P Q (x ∷ xs) f h = (f x h.0, All-imply P Q xs f h.1)

module _ {db db' : AuthDb} (c : IsConsistent db) where
  pub insert_organization-Keeps :
      (row : OrganizationRow) → insert_organization row db ≡ ok db' → IsConsistent db'
  unfolding insert_organization
  insert_organization-Keeps row h = ground (
    arith,
    Distinct-snoc same_organization db.organizations row c.organizations_distinct,
    Distinct-snoc same_slug db.organizations row c.slugs_distinct,
    All-imply (HasOrganization db.organizations) (HasOrganization (db.organizations ++ row ∷ []))
        db.memberships
        (λ m k. any-append (is_organization m.organization_id) db.organizations (row ∷ []) k)
        c.organizations_belong,
  )

  pub insert_user-Keeps : (row : UserRow) → insert_user row db ≡ ok db' → IsConsistent db'
  unfolding insert_user
  insert_user-Keeps row h = ground (
    arith,
    Distinct-snoc same_user db.users row c.users_distinct,
    Distinct-snoc same_email db.users row c.emails_distinct,
  )

  pub insert_role-Keeps : (row : RoleRow) → insert_role row db ≡ ok db' → IsConsistent db'
  unfolding insert_role
  insert_role-Keeps row h = ground (
    arith,
    Distinct-snoc same_role db.roles row c.roles_distinct,
    Distinct-snoc same_role_name db.roles row c.role_names_distinct,
    All-imply (HasRole db.roles) (HasRole (db.roles ++ row ∷ [])) db.memberships
        (λ m k. any-append (is_role_in m.organization_id m.role_id) db.roles (row ∷ []) k)
        c.roles_belong,
  )

  pub insert_role_permission-Keeps :
      (row : RolePermissionRow) → insert_role_permission row db ≡ ok db' → IsConsistent db'
  unfolding insert_role_permission
  insert_role_permission-Keeps row h =
      ground (arith, Distinct-snoc same_grant db.role_permissions row c.grants_distinct)

  pub insert_membership-Keeps :
      (row : MembershipRow) → insert_membership row db ≡ ok db' → IsConsistent db'
  unfolding insert_membership
  insert_membership-Keeps row h = ground (
    arith,
    Distinct-snoc same_member db.memberships row c.memberships_distinct,
    Distinct-snoc same_membership_id db.memberships row c.membership_ids_distinct,
    All-imply (HasMember db.memberships) (HasMember (db.memberships ++ row ∷ [])) db.sessions
        (λ s k. any-append (is_membership s.organization_id s.user_id) db.memberships (row ∷ []) k)
        c.sessions_belong,
    All-append (HasRole db.roles) db.memberships (row ∷ []) c.roles_belong,
    All-append (HasOrganization db.organizations) db.memberships (row ∷ []) c.organizations_belong,
  )

  pub insert_session-Keeps : (row : SessionRow) → insert_session row db ≡ ok db' → IsConsistent db'
  unfolding insert_session
  insert_session-Keeps row h = ground (
    arith,
    Distinct-snoc same_token db.sessions row c.tokens_distinct,
    Distinct-snoc same_session db.sessions row c.sessions_distinct,
    All-append (HasMember db.memberships) db.sessions (row ∷ []) c.sessions_belong,
  )

  pub insert_credential-Keeps :
      (row : ServiceCredentialRow)
      → IsScoped row
      → insert_credential row db ≡ ok db'
      → IsConsistent db'
  unfolding insert_credential
  insert_credential-Keeps row scoped h = ground (
    arith,
    Distinct-snoc same_credential db.service_credentials row c.credentials_distinct,
    Distinct-snoc same_secret db.service_credentials row c.secrets_distinct,
    All-append IsScoped db.service_credentials (row ∷ []) c.credentials_scoped,
  )
