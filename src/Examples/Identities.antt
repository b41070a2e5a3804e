-- ===== src/Examples/Identities.antt =====
-- Accounts, passwords and sessions of one organization.
use verity_os_v.Base.{
  ℕ, ◌+◌, ◌<◌, Str, codes, List, [], ◌∷◌, ◌++◌, length, Option, none, some, Result, ok, throw, true,
  false, All, ◌≡◌, ◌≢◌, refl, leb, if◌then◌else◌, ok-injective, sym, ap, ◌∙◌, subst, arith,
}
use verity_os_v.Kernel.Noble.{Bytes}
use verity_os_v.Kernel.Noble.Checksum.{total, repeat, total-lt, repeat-All, length-repeat}
use verity_os_v.Base.Stateful
use verity_os_v.Identity.Rows.{
  OrganizationRow, UserRow, RoleRow, MembershipRow, AuthDb, AuthError, unauthenticated,
  not_a_member,
}
use verity_os_v.Identity.Passwords.{Platform, hash_password, verify_password}
use verity_os_v.Identity.Passwords.RoundTrip.{IsByte, IsScrypt, derive, verify-hash}
use verity_os_v.Identity.Accounts.{CreateOrganizationInput, NewOrganization, permission_keys}
use verity_os_v.Identity.Credentials.{CreateCredentialInput, platform_cross_org_scope}
use verity_os_v.Identity.Sessions.{
  session_ttl_ms, AuthContext, SignIn, create_session, destroy_session, resolve_session,
}
use verity_os_v.Identity.Sessions.RoundTrip.{create-resolve}
use verity_os_v.Identity.Sessions.SignOut.{destroy-resolve}
use verity_os_v.Identity.Sessions.Errors.{IsSignInError, create_session-throws}
use verity_os_v.Identity.Consistent.{IsConsistent}
use verity_os_v.Identity.Invariant
use verity_os_v.Identity.Invariant.{Call, run_calls, run_calls-IsConsistent}
use verity_os_v.Base
use verity_os_v.Identity.Accounts
use verity_os_v.Identity.Passwords
use verity_os_v.Identity.Rows
use verity_os_v.Identity.Sessions
use verity_os_v.Kernel.Noble.Checksum

-- A checksum of the password and the salt in place of scrypt, and the text itself in place of its
-- hash.
abbrev platform : Platform
platform = record {
  scrypt = λ password salt len n r p. some (repeat len (total (password ++ salt)));
  sha256_hex = λ s. s;
  lower = λ s. s;
  trim = λ s. s;
}

abbrev some_bytes : Option Bytes → Bytes
some_bytes none = []
some_bytes (some bs) = bs

platform-IsScrypt : IsScrypt platform
platform-IsScrypt = record {
  derives = λ password salt len n r q key h.
      let same = ap some_bytes h in
      (
        ap length (sym same) ∙ length-repeat len (total (password ++ salt)),
        subst (All IsByte) same
            (repeat-All len (total (password ++ salt)) (total-lt (password ++ salt))),
      );
}

abbrev password : Str
password = codes "correct horse"

abbrev salt : Bytes
salt = 1 ∷ 254 ∷ []

stored : (s : Str) × (hash_password platform salt password ≡ ok s)
unfolding hash_password
stored = (_, refl)

verify-hash_example :
    (verify_password platform password stored.0 ≡ ok true)
    × ((attempt : Str)
        → verify_password platform attempt stored.0 ≡ ok true
        → derive platform attempt salt ≡ derive platform password salt)
verify-hash_example =
    verify-hash platform salt password stored.0 platform-IsScrypt (omega arith, (omega arith, tt))
      stored.1

-- Ann is a member of acme.
abbrev auth : AuthDb
auth = record {
  permissions = permission_keys;
  organizations = record { id = codes "acme"; name = codes "Acme"; slug = codes "acme-1" } ∷ [];
  users =
      record {
        id = codes "ann";
        email = codes "ann@acme";
        password_hash = stored.0;
        display_name = codes "Ann";
        disabled_at = none;
      }
      ∷ [];
  roles =
      record { id = codes "member"; organization_id = codes "acme"; name = codes "member" } ∷ [];
  role_permissions = record { role_id = codes "member"; permission_key = codes "nova.use" } ∷ [];
  memberships =
      record {
        id = codes "m1";
        organization_id = codes "acme";
        user_id = codes "ann";
        role_id = codes "member";
        created_at = 5;
      }
      ∷ [];
  sessions = [];
  service_credentials = [];
}

auth-IsConsistent : IsConsistent auth
unfolding Base.str_eq
auth-IsConsistent = record {
  organizations_distinct = (tt, tt);
  slugs_distinct = (tt, tt);
  emails_distinct = (tt, tt);
  role_names_distinct = (tt, tt);
  grants_distinct = (tt, tt);
  membership_ids_distinct = (tt, tt);
  sessions_distinct = tt;
  credentials_distinct = tt;
  secrets_distinct = tt;
  users_distinct = (tt, tt);
  roles_distinct = (tt, tt);
  memberships_distinct = (tt, tt);
  tokens_distinct = tt;
  sessions_belong = tt;
  roles_belong = (refl, tt);
  organizations_belong = (refl, tt);
  credentials_scoped = tt;
}

abbrev sign_in : Option Str → SignIn
sign_in org = record {
  email = codes "ann@acme";
  password = password;
  organization_id = org;
  ip = none;
  user_agent = none;
}

abbrev token : Str
token = codes "token"

signed :
    (context : AuthContext) × (db : AuthDb) × (create_session platform
        (codes "s1")
        token
        1000
        (sign_in none)
        auth
      ≡ (ok (token, context), db))
unfolding create_session Sessions.open_session Stateful.◌>>=◌ Base.str_eq Accounts.normal_email
    stored hash_password verify_password Passwords.verify_parts Passwords.split
    Passwords.number_from Passwords.bytes_of_hex Checksum.digit_value Checksum.to_hex
    Checksum.hex_digit total repeat Sessions.checked_user Sessions.memberships_of
    Sessions.chosen_membership Sessions.new_session Sessions.new_context
    verity_os_v.Kernel.Graph.flat_map Base.sort_by Base.insert_by Rows.insert_session
    Accounts.load_permissions Stateful.execute
signed = (_, _, refl)

abbrev later : ℕ
later = 2000

create-resolve_example :
    resolve_session platform later (some token) signed.1
    ≡ (if leb (1000 + session_ttl_ms) later then throw unauthenticated else ok signed.0)
unfolding Base.is_empty
create-resolve_example =
    create-resolve platform (codes "s1") token 1000 later (sign_in none) auth signed.1 signed.0
      auth-IsConsistent refl signed.2

destroy-resolve_example :
    (resolve_session platform later (some token) ((destroy_session platform token signed.1).1)
      ≡ throw unauthenticated)
    × ((other : Str)
        → platform.sha256_hex other ≢ platform.sha256_hex token
        → resolve_session platform later (some other) ((destroy_session platform token signed.1).1)
          ≡ resolve_session platform later (some other) signed.1)
destroy-resolve_example = destroy-resolve platform token signed.1 later

-- Ann signs in to an organization that she is no member of.
refused :
    (db : AuthDb) × (create_session platform
        (codes "s1")
        token
        1000
        (sign_in (some (codes "other")))
        auth
      ≡ (throw not_a_member, db))
unfolding create_session Sessions.open_session Stateful.◌>>=◌ Base.str_eq Accounts.normal_email
    stored hash_password verify_password Passwords.verify_parts Passwords.split
    Passwords.number_from Passwords.bytes_of_hex Checksum.digit_value Checksum.to_hex
    Checksum.hex_digit total repeat Sessions.checked_user Sessions.memberships_of
    Sessions.chosen_membership Sessions.new_session Sessions.new_context
    verity_os_v.Kernel.Graph.flat_map Base.sort_by Base.insert_by Rows.insert_session
    Accounts.load_permissions Base.is_empty
refused = (_, refl)

create_session-throws_example : (refused.0 ≡ auth) × IsSignInError not_a_member
create_session-throws_example =
    create_session-throws platform (codes "s1") token 1000 (sign_in (some (codes "other"))) auth
      auth-IsConsistent refl refl refused.0 not_a_member refused.1

-- The tables before the first call.
abbrev blank : AuthDb
blank = record {
  permissions = permission_keys;
  organizations = [];
  users = [];
  roles = [];
  role_permissions = [];
  memberships = [];
  sessions = [];
  service_credentials = [];
}

blank-IsConsistent : IsConsistent blank
blank-IsConsistent = record {
  organizations_distinct = tt;
  slugs_distinct = tt;
  emails_distinct = tt;
  role_names_distinct = tt;
  grants_distinct = tt;
  membership_ids_distinct = tt;
  sessions_distinct = tt;
  credentials_distinct = tt;
  secrets_distinct = tt;
  users_distinct = tt;
  roles_distinct = tt;
  memberships_distinct = tt;
  tokens_distinct = tt;
  sessions_belong = tt;
  roles_belong = tt;
  organizations_belong = tt;
  credentials_scoped = tt;
}

abbrev founding : CreateOrganizationInput
founding = record {
  name = codes "Acme";
  admin_email = codes "ann@acme";
  admin_password = password;
  admin_name = none;
}

abbrev drawn : NewOrganization
drawn = record {
  organization_id = codes "acme";
  admin_user_id = codes "ann";
  admin_role_id = codes "admin";
  member_role_id = codes "member";
  membership_id = codes "m1";
  slug_suffix = codes "01";
  salt = salt;
  now = 5;
}

abbrev credential : CreateCredentialInput
credential = record {
  name = codes "export";
  organization_id = some (codes "acme");
  scopes = platform_cross_org_scope ∷ [];
}

abbrev identity_calls : List Call
identity_calls =
    Invariant.creates_organization drawn founding
    ∷ Invariant.signs_in (codes "s1") token 1000 (sign_in none)
    ∷ Invariant.creates_credential (codes "k1") (codes "r") credential
    ∷ Invariant.signs_out token
    ∷ []

run_calls-IsConsistent_example : IsConsistent (run_calls platform identity_calls blank)
run_calls-IsConsistent_example =
    run_calls-IsConsistent platform identity_calls blank blank-IsConsistent
