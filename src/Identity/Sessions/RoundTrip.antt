-- ===== src/Identity/Sessions/RoundTrip.antt =====
-- createSession and resolveSession together.
use verity_os_v.Base.{
  ℕ, ◌+◌, Str, str_eq_iff, str_eq_refl, is_empty, true, false, [], ◌∷◌, ◌++◌, some, ok, throw,
  select, select-append, any, leb, if◌then◌else◌, Member, All-Member, arith, ◌≡◌, refl, sym, ap,
  ◌∙◌,
}
use verity_os_v.Base.Distinct.{select-none, select-key}
use verity_os_v.Kernel.Graph.{flat_map}
use verity_os_v.Command.Policy.{first_row}
use verity_os_v.Identity.Rows.{
  UserRow, AuthDb, is_user, is_role, is_membership, has_token, unauthenticated,
}
use verity_os_v.Identity.Passwords.{Platform}
use verity_os_v.Identity.Accounts.{load_permissions}
use verity_os_v.Identity.Consistent.{IsConsistent, same_user, same_role, same_member}
use verity_os_v.Identity.Sessions.{
  AuthContext, SignIn, Joined, memberships_of, is_disabled, SessionView, joined_sessions,
  context_at, resolve_session, new_session, new_context, create_session, session_ttl_ms,
}
use verity_os_v.Identity.Sessions.SignedIn.{
  IsJoin, memberships_of-IsJoin, chosen-Member, create_session-SignedIn,
}

-- The joins of the new session.
module _ (p : Platform) (id token : Str) (now : ℕ) (input : SignIn) (db : AuthDb) (user : UserRow)
    (j : Joined) (c : IsConsistent db) where
  abbrev stored : AuthDb
  stored = record db { sessions = db.sessions ++ new_session p id token now input user j ∷ [] }

  own_session :
      any (has_token (p.sha256_hex token)) db.sessions ≡ false
      → select (has_token (p.sha256_hex token)) stored.sessions
        ≡ new_session p id token now input user j ∷ []
  unfolding new_session
  own_session unused =
      select-append (has_token (p.sha256_hex token)) db.sessions _
      ∙ ap
          (λ l.
            l
            ++ select (has_token (p.sha256_hex token))
                (new_session p id token now input user j ∷ []))
          (select-none (has_token (p.sha256_hex token)) db.sessions unused)
      ∙ ground (arith, str_eq_refl (p.sha256_hex token))

  own_user : Member user db.users → select (is_user user.id) db.users ≡ user ∷ []
  own_user m =
      select-key same_user (is_user user.id) db.users user
        (λ y z ey ez.
          ground (arith, str_eq_iff y.id user.id, str_eq_iff z.id user.id, str_eq_refl z.id))
        c.users_distinct m (str_eq_refl user.id)

  own_key_of :
      (i : IsJoin db user.id j) → is_membership j.organization_id user.id i.membership ≡ true
  own_key_of i =
      let same : i.membership.organization_id ≡ j.organization_id =
        sym (ap (λ (k : Joined). k.organization_id) i.is_joined) in
      ground (arith, str_eq_iff i.membership.organization_id j.organization_id, i.of_user)

  own_membership :
      (i : IsJoin db user.id j)
      → select (is_membership j.organization_id user.id) db.memberships ≡ i.membership ∷ []
  own_membership i =
      select-key same_member (is_membership j.organization_id user.id) db.memberships i.membership
        (λ y z ey ez.
          (ground (
            arith,
            str_eq_iff y.organization_id j.organization_id,
            str_eq_iff z.organization_id j.organization_id,
            str_eq_iff y.user_id user.id,
            str_eq_iff z.user_id user.id,
            str_eq_refl z.organization_id,
            str_eq_refl z.user_id,
          )))
        c.memberships_distinct i.in_memberships (own_key_of i)

  own_role : (i : IsJoin db user.id j) → select (is_role j.role_id) db.roles ≡ i.role ∷ []
  own_role i =
      select-key same_role (is_role j.role_id) db.roles i.role
        (λ y z ey ez.
          ground (arith, str_eq_iff y.id j.role_id, str_eq_iff z.id j.role_id, str_eq_refl z.id))
        c.roles_distinct i.in_roles
        (ap (λ (k : Joined). is_role k.role_id i.role) i.is_joined ∙ i.of_role)

  view : IsJoin db user.id j → SessionView
  view i = record {
    session = new_session p id token now input user j;
    user = user;
    membership = i.membership;
    role = i.role;
  }

  own_view :
      (i : IsJoin db user.id j)
      → Member user db.users
      → any (has_token (p.sha256_hex token)) db.sessions ≡ false
      → joined_sessions (p.sha256_hex token) stored ≡ view i ∷ []
  unfolding joined_sessions flat_map view new_session
  own_view i m unused =
      let role_only : select (is_role i.membership.role_id) db.roles ≡ i.role ∷ [] =
        ap (λ (k : Joined). select (is_role k.role_id) db.roles) (sym i.is_joined) ∙ own_role i in
      rw (own_session unused, own_user m, own_membership i, role_only) refl

  same_context :
      (later : ℕ) (i : IsJoin db user.id j)
      → is_disabled user ≡ false
      → context_at later stored (some (view i)) ≡ (
          if leb (now + session_ttl_ms) later
          then throw unauthenticated
          else ok (new_context id user j (load_permissions j.role_id db)))
  unfolding context_at view new_session new_context load_permissions
  same_context later i enabled = rw (enabled, i.is_joined) refl

  resolved :
      (later : ℕ)
      → Member user db.users
      → Member j (memberships_of user.id db)
      → is_disabled user ≡ false
      → any (has_token (p.sha256_hex token)) db.sessions ≡ false
      → is_empty token ≡ false
      → resolve_session p later (some token) stored ≡ (
          if leb (now + session_ttl_ms) later
          then throw unauthenticated
          else ok (new_context id user j (load_permissions j.role_id db)))
  unfolding resolve_session first_row
  resolved later in_users in_joined enabled unused given =
      let i =
        All-Member (IsJoin db user.id) j (memberships_of user.id db)
          (memberships_of-IsJoin user.id db) in_joined in
      rw (given, own_view i in_users unused) (same_context later i enabled)

-- After a sign-in to consistent tables that returned a token that is not empty, the token resolves
-- to the context that the sign-in gave for twelve hours, and from then on it is refused.
pub create-resolve :
    (p : Platform) (id token : Str) (now later : ℕ) (input : SignIn) (db db' : AuthDb)
    (context : AuthContext)
    → IsConsistent db
    → is_empty token ≡ false
    → create_session p id token now input db ≡ (ok (token, context), db')
    → resolve_session p later (some token) db'
      ≡ (if leb (now + session_ttl_ms) later then throw unauthenticated else ok context)
create-resolve p id token now later input db db' context c given h =
    let s = (create_session-SignedIn p id token token now input db db' context h).1 in
    ap (resolve_session p later (some token)) s.db_is
    ∙ resolved p id token now input db s.user s.chosen c later s.in_users
        (chosen-Member input.organization_id (memberships_of s.user.id db) s.chosen s.picked)
        s.enabled s.unused given
    ∙ ap (λ x. if leb (now + session_ttl_ms) later then throw unauthenticated else ok x)
        (sym s.context_is)
