-- ===== src/Identity/Credentials.antt =====
-- packages/identity/src/index.ts: the credentials of services.
use verity_os_v.Base.{
  ℕ, Str, codes, str_eq, is_empty, includes, Bool, true, false, not, ◌&&◌, List, [], ◌∷◌, ◌++◌,
  length, Option, none, some, Result, ok, throw, find?, select, ◌==◌, if◌then◌else◌, guard,
}
use verity_os_v.Base.Stateful.{◌>>=◌, ◌>>◌, pure, query, lift, execute}
use verity_os_v.Identity.Rows.{
  ServiceCredentialRow, AuthDb, AuthError, insert_credential, invalid_scope, not_found,
  unauthenticated, invalid_service_credentials,
}
use verity_os_v.Identity.Passwords.{Platform}
use verity_os_v.Identity.Accounts.{Action}

abbrev pub platform_cross_org_scope : Str
platform_cross_org_scope = codes "platform.cross_org"

unfoldable pub generate_service_token : Str → Str
generate_service_token random = codes "vsvc_" ++ random

-- A string is true unless it is empty.
abbrev pub is_given : Option Str → Bool
is_given none = false
is_given (some s) = not (is_empty s)

pub record CreateCredentialInput : Type 0 where
  pub name : Str
  pub organization_id : Option Str
  pub scopes : List Str

abbrev pub is_overreaching : Option Str → List Str → Bool
is_overreaching org scopes = is_given org && includes scopes platform_cross_org_scope

-- `random` is the base64url of 32 random bytes.
unfoldable pub insert_new_credential :
    Platform → (id random : Str) → CreateCredentialInput → Action (Str × Str)
insert_new_credential p id random input = do
  let token = generate_service_token random
  execute (
      insert_credential (record {
        id = id;
        name = input.name;
        organization_id = input.organization_id;
        secret_hash = p.sha256_hex token;
        scopes = input.scopes;
        revoked_at = none;
      }))
  pure (id, token)

unfoldable pub create_service_credential :
    Platform → (id random : Str) → CreateCredentialInput → Action (Str × Str)
create_service_credential p id random input = do
  lift (guard (not (is_overreaching input.organization_id input.scopes)) invalid_scope)
  insert_new_credential p id random input

abbrev pub is_active : Str → ServiceCredentialRow → Bool
is_active id c = str_eq c.id id && (elim c.revoked_at [ none ↦ true | some t ↦ false ])

unfoldable pub revoke_all : Str → ℕ → List ServiceCredentialRow → List ServiceCredentialRow
revoke_all id now [] = []
revoke_all id now (c ∷ cs) =
    (if is_active id c then record c { revoked_at = some now } else c) ∷ revoke_all id now cs

-- The update stays where the count of its rows is not 1.
unfoldable pub revoke_service_credential : Str → ℕ → Action (Unit {0})
revoke_service_credential id now = do
  count ← query (λ db. length (select (is_active id) db.service_credentials))
  execute (λ db. ok (record db { service_credentials = revoke_all id now db.service_credentials }))
  lift (guard (count == 1) not_found)

pub record ServiceContext : Type 0 where
  pub credential_id : Str
  pub organization_id : Option Str
  pub scopes : List Str

abbrev pub is_revoked : ServiceCredentialRow → Bool
is_revoked c = elim c.revoked_at [ none ↦ false | some t ↦ true ]

unfoldable pub context_of : Option ServiceCredentialRow → Result AuthError ServiceContext
context_of none = throw invalid_service_credentials
context_of (some c) =
    if is_revoked c
    then throw invalid_service_credentials
    else ok
        (record { credential_id = c.id; organization_id = c.organization_id; scopes = c.scopes })

unfoldable pub resolve_service_token :
    Platform → Option Str → AuthDb → Result AuthError ServiceContext
resolve_service_token p none db = throw unauthenticated
resolve_service_token p (some token) db =
    if is_empty token
    then throw unauthenticated
    else context_of (find? (λ c. str_eq c.secret_hash (p.sha256_hex token)) db.service_credentials)
