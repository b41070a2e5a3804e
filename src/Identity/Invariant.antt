-- ===== src/Identity/Invariant.antt =====
-- The operations of packages/identity/src/index.ts that change the tables, called in any order.
use verity_os_v.Base.{
  ℕ, Str, str_eq, Bool, true, false, not, List, [], ◌∷◌, Option, some, Result, ok, refl, select,
  any, all, if◌then◌else◌, All, arith, ◌≡◌, Bool-cases, inl, inr,
}
use verity_os_v.Base.Distinct.{Distinct, Distinct-select, All-select}
use verity_os_v.Base.Stateful.{
  ◌>>=◌, ◌>>◌, pure, query, lift, execute, Keeps, bind-Keeps, execute-Keeps, transaction-Keeps,
}
use verity_os_v.Identity.Rows.{
  MembershipRow, SessionRow, ServiceCredentialRow, AuthDb, AuthError, is_membership, has_token,
}
use verity_os_v.Identity.Passwords.{Platform}
use verity_os_v.Identity.Accounts.{
  Action, CreateOrganizationInput, NewOrganization, CreateUserInput, NewUser, grant_all,
  insert_new_organization, create_organization, create_user, create_role,
}
use verity_os_v.Identity.Credentials.{
  CreateCredentialInput, is_overreaching, insert_new_credential, create_service_credential,
  revoke_all, revoke_service_credential, is_active,
}
use verity_os_v.Identity.Sessions.{
  SignIn, open_session, create_session, destroy_session, set_organization,
  update_session_organization, select_organization,
}
use verity_os_v.Identity.Consistent.{
  IsConsistent, HasMember, IsScoped, same_token, same_session, same_credential, same_secret,
}
use verity_os_v.Identity.Keeps.{
  insert_organization-Keeps, insert_user-Keeps, insert_role-Keeps, insert_role_permission-Keeps,
  insert_membership-Keeps, insert_session-Keeps, insert_credential-Keeps,
}

abbrev Sound : {A : Type 0} → Action A → Type 0
Sound m = Keeps IsConsistent m

pure-Sound : {A : Type 0} (a : A) → Sound (pure a)
pure-Sound a s c = c

query-then :
    {A B : Type 0} (f : AuthDb → A) (next : A → Action B)
    → ((a : A) → Sound (next a))
    → Sound (query f >>= next)
query-then f next h = bind-Keeps IsConsistent (query f) next (λ s c. c) h

lift-then :
    {A B : Type 0} (r : Result AuthError A) (next : A → Action B)
    → ((a : A) → Sound (next a))
    → Sound (lift r >>= next)
lift-then r next h = bind-Keeps IsConsistent (lift r) next (λ s c. c) h

execute-then :
    {B : Type 0} (f : AuthDb → Result AuthError AuthDb) (next : Action B)
    → ((s s' : AuthDb) → IsConsistent s → f s ≡ ok s' → IsConsistent s')
    → Sound next
    → Sound (execute f >> next)
execute-then f next h rest =
    bind-Keeps IsConsistent (execute f) (λ _. next) (execute-Keeps IsConsistent f h) (λ _. rest)

grant_all-Sound : (role : Str) (keys : List Str) → Sound (grant_all role keys)
unfolding grant_all
grant_all-Sound role [] = pure-Sound tt
grant_all-Sound role (key ∷ keys) =
    execute-then _ _ (λ s s' c h. insert_role_permission-Keeps c _ h) (grant_all-Sound role keys)

create_organization-Sound :
    (p : Platform) (new : NewOrganization) (input : CreateOrganizationInput)
    → Sound (create_organization p new input)
unfolding create_organization insert_new_organization
create_organization-Sound p new input = lift-then _ _ λ hash.
    transaction-Keeps IsConsistent (insert_new_organization p new input hash) (
      execute-then _ _ (λ s s' c h. insert_organization-Keeps c _ h)
        (execute-then _ _ (λ s s' c h. insert_user-Keeps c _ h)
          (execute-then _ _ (λ s s' c h. insert_role-Keeps c _ h)
            (execute-then _ _ (λ s s' c h. insert_role-Keeps c _ h)
              (bind-Keeps IsConsistent (grant_all _ _) _ (grant_all-Sound _ _) λ _.
                (bind-Keeps IsConsistent (grant_all _ _) _ (grant_all-Sound _ _) λ _.
                  execute-Keeps IsConsistent _ (λ s s' c h. insert_membership-Keeps c _ h)))))))

create_user-Sound :
    (p : Platform) (new : NewUser) (input : CreateUserInput) → Sound (create_user p new input)
unfolding create_user
create_user-Sound p new input = query-then _ _ λ role. lift-then _ _ λ checked.
    lift-then _ _ λ hash.
      execute-then _ _ (λ s s' c h. insert_user-Keeps c _ h)
        (execute-then _ _ (λ s s' c h. insert_membership-Keeps c _ h) (pure-Sound new.user_id))

create_role-Sound : (id org name : Str) (keys : List Str) → Sound (create_role id org name keys)
unfolding create_role
create_role-Sound id org name keys =
    execute-then _ _ (λ s s' c h. insert_role-Keeps c _ h)
      (bind-Keeps IsConsistent (grant_all id keys) _ (grant_all-Sound id keys) λ _. pure-Sound id)

create_session-Sound :
    (p : Platform) (id token : Str) (now : ℕ) (input : SignIn)
    → Sound (create_session p id token now input)
unfolding create_session open_session
create_session-Sound p id token now input = query-then _ _ λ row. lift-then _ _ λ verified.
    lift-then _ _ λ user. query-then _ _ λ ms. lift-then _ _ λ m.
      execute-then _ _ (λ s s' c h. insert_session-Keeps c _ h)
        (query-then _ _ λ permissions s c. c)

destroy_session-Sound : (p : Platform) (token : Str) → Sound (destroy_session p token)
unfolding destroy_session
destroy_session-Sound p token = execute-Keeps IsConsistent _ λ s s' c h.
    let keep = λ (row : SessionRow). not (has_token (p.sha256_hex token) row) in
    ground (
      arith,
      Distinct-select same_token keep s.sessions c.tokens_distinct,
      Distinct-select same_session keep s.sessions c.sessions_distinct,
      All-select (HasMember s.memberships) keep s.sessions c.sessions_belong,
    )

module _ (same : SessionRow → SessionRow → Bool)
    (blind : (a b : SessionRow) (org org' : Str)
      → same (record a { organization_id = org }) (record b { organization_id = org' })
        ≡ same a b) where
  set_organization-fresh :
      (id org : Str) (row : SessionRow) (ss : List SessionRow)
      → All (λ y. same row y ≡ false) ss
      → All
          (λ y.
            same (if str_eq row.id id then record row { organization_id = org } else row) y ≡ false)
          (set_organization id org ss)
  unfolding set_organization
  set_organization-fresh id org row [] h = tt
  set_organization-fresh id org row (y ∷ ys) h = (
    ground (
      arith,
      h.0,
      blind row y org org,
      blind row y org y.organization_id,
      blind row y row.organization_id org,
    ),
    set_organization-fresh id org row ys h.1,
  )

  set_organization-Distinct :
      (id org : Str) (ss : List SessionRow)
      → Distinct same ss
      → Distinct same (set_organization id org ss)
  unfolding set_organization
  set_organization-Distinct id org [] d = tt
  set_organization-Distinct id org (s ∷ ss) d =
      (set_organization-fresh id org s ss d.0, set_organization-Distinct id org ss d.1)

set_organization-HasMember :
    (memberships : List MembershipRow) (id org : Str) (ss : List SessionRow)
    → all (λ s. any (is_membership org s.user_id) memberships) (select (λ s. str_eq s.id id) ss)
      ≡ true
    → All (HasMember memberships) ss
    → All (HasMember memberships) (set_organization id org ss)
unfolding set_organization
set_organization-HasMember memberships id org [] h a = tt
set_organization-HasMember memberships id org (s ∷ ss) h a = elim (Bool-cases (str_eq s.id id)) [
  | inl e ↦
      let rest = set_organization-HasMember memberships id org ss (ground arith) a.1 in
      rw e (ground arith, rest)
  | inr e ↦
      let rest = set_organization-HasMember memberships id org ss (ground arith) a.1 in
      rw e (a.0, rest)
]

select_organization-Sound : (user session org : Str) → Sound (select_organization user session org)
unfolding select_organization update_session_organization
select_organization-Sound user session org = query-then _ _ λ member. lift-then _ _ λ checked.
    execute-Keeps IsConsistent _ λ s s' c h. ground (
      arith,
      set_organization-Distinct same_token (λ a b o o'. refl) session org s.sessions
          c.tokens_distinct,
      set_organization-Distinct same_session (λ a b o o'. refl) session org s.sessions
          c.sessions_distinct,
      set_organization-HasMember s.memberships session org s.sessions,
      c.sessions_belong,
    )

insert_then :
    (p : Platform) (id random : Str) (input : CreateCredentialInput)
    → is_overreaching input.organization_id input.scopes ≡ false
    → Sound (insert_new_credential p id random input)
unfolding insert_new_credential
insert_then p id random input scoped =
    execute-then _ _ (λ s s' c h. insert_credential-Keeps c _ scoped h) (λ s c. c)

create_credential-Sound :
    (p : Platform) (id random : Str) (input : CreateCredentialInput)
    → Sound (create_service_credential p id random input)
unfolding create_service_credential ◌>>=◌
create_credential-Sound p id random input s c =
    elim (Bool-cases (is_overreaching input.organization_id input.scopes)) [
      | inl e ↦ rw e c
      | inr e ↦ rw e (insert_then p id random input e s c)
    ]

revoke_all-IsScoped :
    (id : Str) (now : ℕ) (cs : List ServiceCredentialRow)
    → All IsScoped cs
    → All IsScoped (revoke_all id now cs)
unfolding revoke_all
revoke_all-IsScoped id now [] h = tt
revoke_all-IsScoped id now (c ∷ cs) h = elim (Bool-cases (is_active id c)) [
  | inl e ↦ rw e (h.0, revoke_all-IsScoped id now cs h.1)
  | inr e ↦ rw e (h.0, revoke_all-IsScoped id now cs h.1)
]

module _ (same : ServiceCredentialRow → ServiceCredentialRow → Bool)
    (blind : (a b : ServiceCredentialRow) (t t' : Option ℕ)
      → same (record a { revoked_at = t }) (record b { revoked_at = t' }) ≡ same a b) where
  revoke_all-fresh :
      (id : Str) (now : ℕ) (row : ServiceCredentialRow) (cs : List ServiceCredentialRow)
      → All (λ y. same row y ≡ false) cs
      → All
          (λ y.
            same (if is_active id row then record row { revoked_at = some now } else row) y ≡ false)
          (revoke_all id now cs)
  unfolding revoke_all
  revoke_all-fresh id now row [] h = tt
  revoke_all-fresh id now row (y ∷ ys) h = (
    ground (
      arith,
      h.0,
      blind row y (some now) (some now),
      blind row y (some now) y.revoked_at,
      blind row y row.revoked_at (some now),
    ),
    revoke_all-fresh id now row ys h.1,
  )

  revoke_all-Distinct :
      (id : Str) (now : ℕ) (cs : List ServiceCredentialRow)
      → Distinct same cs
      → Distinct same (revoke_all id now cs)
  unfolding revoke_all
  revoke_all-Distinct id now [] d = tt
  revoke_all-Distinct id now (c ∷ cs) d =
      (revoke_all-fresh id now c cs d.0, revoke_all-Distinct id now cs d.1)

revoke_credential-Sound : (id : Str) (now : ℕ) → Sound (revoke_service_credential id now)
unfolding revoke_service_credential
revoke_credential-Sound id now = query-then _ _ λ count.
    execute-then _ _
      (λ s s' c h. ground (
        arith,
        revoke_all-IsScoped id now s.service_credentials c.credentials_scoped,
        revoke_all-Distinct same_credential (λ a b t t'. refl) id now s.service_credentials
            c.credentials_distinct,
        revoke_all-Distinct same_secret (λ a b t t'. refl) id now s.service_credentials
            c.secrets_distinct,
      ))
      (λ s c. c)

-- The operations, with what each draws at random and the clock.
pub data Call : Type 0 where
  creates_organization : NewOrganization → CreateOrganizationInput → Call
  creates_user : NewUser → CreateUserInput → Call
  creates_role : (id org name : Str) → List Str → Call
  signs_in : (id token : Str) → ℕ → SignIn → Call
  signs_out : Str → Call
  selects_organization : (user session org : Str) → Call
  creates_credential : (id random : Str) → CreateCredentialInput → Call
  revokes_credential : Str → ℕ → Call

-- A call leaves what it wrote, also where it threw.
abbrev pub step : Platform → Call → AuthDb → AuthDb
step p (creates_organization new input) db = (create_organization p new input db).1
step p (creates_user new input) db = (create_user p new input db).1
step p (creates_role id org name keys) db = (create_role id org name keys db).1
step p (signs_in id token now input) db = (create_session p id token now input db).1
step p (signs_out token) db = (destroy_session p token db).1
step p (selects_organization user session org) db = (select_organization user session org db).1
step p (creates_credential id random input) db = (create_service_credential p id random input db).1
step p (revokes_credential id now) db = (revoke_service_credential id now db).1

abbrev pub run_calls : Platform → List Call → AuthDb → AuthDb
run_calls p [] db = db
run_calls p (call ∷ calls) db = run_calls p calls (step p call db)

step-IsConsistent :
    (p : Platform) (call : Call) (db : AuthDb) → IsConsistent db → IsConsistent (step p call db)
step-IsConsistent p (creates_organization new input) db c =
    create_organization-Sound p new input db c
step-IsConsistent p (creates_user new input) db c = create_user-Sound p new input db c
step-IsConsistent p (creates_role id org name keys) db c = create_role-Sound id org name keys db c
step-IsConsistent p (signs_in id token now input) db c =
    create_session-Sound p id token now input db c
step-IsConsistent p (signs_out token) db c = destroy_session-Sound p token db c
step-IsConsistent p (selects_organization user session org) db c =
    select_organization-Sound user session org db c
step-IsConsistent p (creates_credential id random input) db c =
    create_credential-Sound p id random input db c
step-IsConsistent p (revokes_credential id now) db c = revoke_credential-Sound id now db c

-- From consistent auth tables any sequence of operations, whether or not they throw, leads to
-- consistent tables: every primary and unique key of the tables that they write is unique, a
-- session is of a member of its organization, a membership has a role of its organization, which
-- exists, and no credential of an organization has the scope over all organizations.
pub run_calls-IsConsistent :
    (p : Platform) (calls : List Call) (db : AuthDb)
    → IsConsistent db
    → IsConsistent (run_calls p calls db)
run_calls-IsConsistent p [] db c = c
run_calls-IsConsistent p (call ∷ calls) db c =
    run_calls-IsConsistent p calls (step p call db) (step-IsConsistent p call db c)
