-- ===== src/Identity/Sessions.antt =====
-- packages/identity/src/index.ts: sessions and what a request may do.
pub mod SignedIn
pub mod RoundTrip
pub mod SignOut
pub mod Errors
use verity_os_v.Base.{
  ℕ, ◌+◌, ◌*◌, Str, codes, str_eq, is_empty, includes, Bool, true, false, not, ◌&&◌, ◌||◌, List, [],
  ◌∷◌, ◌++◌, map, Option, none, some, Result, ok, throw, or_throw, find?, select, any, all, leb,
  ltb, if◌then◌else◌, guard, sort_by,
}
use verity_os_v.Base.Stateful.{◌>>=◌, ◌>>◌, pure, query, lift, execute}
use verity_os_v.Kernel.Graph.{flat_map}
use verity_os_v.Command.Policy.{first_row}
use verity_os_v.Identity.Rows.{
  UserRow, RoleRow, MembershipRow, SessionRow, AuthDb, AuthError, is_user, is_role, is_membership,
  has_token, insert_session, unauthenticated, invalid_credentials, no_membership, not_a_member,
  forbidden, org_mismatch, foreign_key_violation, sessions,
}
use verity_os_v.Identity.Passwords.{Platform, verify_password}
use verity_os_v.Identity.Accounts.{Action, normal_email, load_permissions}

abbrev pub session_ttl_ms : ℕ
session_ttl_ms = 12 * 60 * 60 * 1000

pub record AuthContext : Type 0 where
  pub user_id : Str
  pub organization_id : Str
  pub role_id : Str
  pub role_name : Str
  pub permissions : List Str
  pub session_id : Str

abbrev pub dummy_hash : Str
dummy_hash =
    codes
      "scrypt$16384$8$1$00000000000000000000000000000000$0000000000000000000000000000000000000000000000000000000000000000"

pub record SignIn : Type 0 where
  pub email : Str
  pub password : Str
  pub organization_id : Option Str
  pub ip : Option Str
  pub user_agent : Option Str

abbrev pub stored_hash : Option UserRow → Str
stored_hash none = dummy_hash
stored_hash (some user) = user.password_hash

abbrev pub is_disabled : UserRow → Bool
is_disabled u = elim u.disabled_at [ none ↦ false | some t ↦ true ]

-- `!row || row.disabled_at || !ok`
unfoldable pub checked_user : Option UserRow → Bool → Result AuthError UserRow
checked_user none verified = throw invalid_credentials
checked_user (some user) verified =
    if is_disabled user || not verified then throw invalid_credentials else ok user

-- A membership joined with its role.
pub record Joined : Type 0 where
  pub organization_id : Str
  pub role_id : Str
  pub name : Str

abbrev pub joined : MembershipRow → RoleRow → Joined
joined m r = record { organization_id = m.organization_id; role_id = m.role_id; name = r.name }

-- ORDER BY m.created_at ASC
unfoldable pub memberships_of : Str → AuthDb → List Joined
memberships_of user db =
    flat_map (λ m. map (joined m) (select (is_role m.role_id) db.roles))
      (sort_by (λ a b. ltb a.created_at b.created_at)
        (select (λ m. str_eq m.user_id user) db.memberships))

-- The organization that the caller names, or the first.
unfoldable pub chosen_membership : Option Str → List Joined → Result AuthError Joined
chosen_membership org [] = throw no_membership
chosen_membership none (m ∷ ms) = ok m
chosen_membership (some org) (m ∷ ms) =
    if is_empty org
    then ok m
    else or_throw not_a_member (find? (λ j. str_eq j.organization_id org) (m ∷ ms))

unfoldable pub new_session :
    Platform → (id token : Str) → ℕ → SignIn → UserRow → Joined → SessionRow
new_session p id token now input user m = record {
  id = id;
  user_id = user.id;
  organization_id = m.organization_id;
  token_hash = p.sha256_hex token;
  expires_at = now + session_ttl_ms;
  ip = input.ip;
  user_agent = input.user_agent;
}

unfoldable pub new_context : Str → UserRow → Joined → List Str → AuthContext
new_context id user m permissions = record {
  user_id = user.id;
  organization_id = m.organization_id;
  role_id = m.role_id;
  role_name = m.name;
  permissions = permissions;
  session_id = id;
}

unfoldable pub open_session :
    Platform → (id token : Str) → ℕ → SignIn → UserRow → Action (Str × AuthContext)
open_session p id token now input user = do
  memberships ← query (memberships_of user.id)
  m ← lift (chosen_membership input.organization_id memberships)
  execute (insert_session (new_session p id token now input user m))
  permissions ← query (load_permissions m.role_id)
  pure (token, new_context id user m permissions)

-- `id` and `token` are drawn at random, and `now` is the clock.
unfoldable pub create_session :
    Platform → (id token : Str) → ℕ → SignIn → Action (Str × AuthContext)
create_session p id token now input = do
  row ← query (λ db. find? (λ u. str_eq u.email (normal_email p input.email)) db.users)
  verified ← lift (verify_password p input.password (stored_hash row))
  user ← lift (checked_user row verified)
  open_session p id token now input user

unfoldable pub destroy_session : Platform → Str → Action (Unit {0})
destroy_session p token = execute (λ db.
    ok (record db { sessions = select (λ s. not (has_token (p.sha256_hex token) s)) db.sessions }))

pub record SessionView : Type 0 where
  pub session : SessionRow
  pub user : UserRow
  pub membership : MembershipRow
  pub role : RoleRow

-- The joins of a session with its user, the user's membership in its organization and the role.
unfoldable pub joined_sessions : Str → AuthDb → List SessionView
joined_sessions hash db =
    flat_map
      (λ s.
        flat_map
          (λ u.
            flat_map
              (λ m.
                map (λ r. record { session = s; user = u; membership = m; role = r })
                  (select (is_role m.role_id) db.roles))
              (select (is_membership s.organization_id s.user_id) db.memberships))
          (select (is_user s.user_id) db.users))
      (select (has_token hash) db.sessions)

unfoldable pub context_at : ℕ → AuthDb → Option SessionView → Result AuthError AuthContext
context_at now db none = throw unauthenticated
context_at now db (some v) =
    if is_disabled v.user || leb v.session.expires_at now
    then throw unauthenticated
    else ok (record {
      user_id = v.session.user_id;
      organization_id = v.session.organization_id;
      role_id = v.membership.role_id;
      role_name = v.role.name;
      permissions = load_permissions v.membership.role_id db;
      session_id = v.session.id;
    })

unfoldable pub resolve_session : Platform → ℕ → Option Str → AuthDb → Result AuthError AuthContext
unfolding context_at
resolve_session p now none db = throw unauthenticated
resolve_session p now (some token) db =
    if is_empty token
    then throw unauthenticated
    else context_at now db (first_row (joined_sessions (p.sha256_hex token) db))

unfoldable pub set_organization : Str → Str → List SessionRow → List SessionRow
set_organization session org [] = []
set_organization session org (s ∷ ss) =
    (if str_eq s.id session then record s { organization_id = org } else s)
    ∷ set_organization session org ss

-- The UPDATE of the session, under the foreign key of its user and organization.
unfoldable pub update_session_organization : Str → Str → AuthDb → Result AuthError AuthDb
update_session_organization session org db =
    if all (λ s. any (is_membership org s.user_id) db.memberships)
      (select (λ s. str_eq s.id session) db.sessions)
    then ok (record db { sessions = set_organization session org db.sessions })
    else throw (foreign_key_violation sessions)

unfoldable pub select_organization : (user session org : Str) → Action (Unit {0})
select_organization user session org = do
  member ← query (λ db. any (is_membership org user) db.memberships)
  lift (guard member not_a_member)
  execute (update_session_organization session org)

unfoldable pub require_permission : AuthContext → Str → Result AuthError (Unit {0})
require_permission context permission =
    if not (includes context.permissions permission) then throw forbidden else ok tt

unfoldable pub assert_organization_scope : Str → Option Str → Result AuthError Str
assert_organization_scope own none = ok own
assert_organization_scope own (some requested) =
    if not (is_empty requested) && not (str_eq requested own) then throw org_mismatch else ok own
