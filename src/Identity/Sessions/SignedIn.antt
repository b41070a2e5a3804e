-- ===== src/Identity/Sessions/SignedIn.antt =====
-- What a createSession that returned has read and written.
use verity_os_v.Base.{
  or_throw-ok, ℕ, Str, str_eq, is_empty, Bool, true, false, not, ◌||◌, List, [], ◌∷◌, ◌++◌, map,
  Option, none, some, ok, throw, find?, select, any, ltb, All, Member, sort-All, Member-All,
  All-append, arith, ◌≡◌, refl, sym, ap, ◌∙◌, Bool-cases, inl, inr, ok-injective,
}
use verity_os_v.Base.Distinct.{find-Member, Member-select}
use verity_os_v.Base.Stateful.{lift, execute, pure-ok, ◌>>=◌, >>=-ok, lift-ok, execute-ok}
use verity_os_v.Kernel.Graph.{flat_map}
use verity_os_v.Identity.Rows.{
  UserRow, RoleRow, MembershipRow, SessionRow, AuthDb, is_role, is_membership, has_token,
  insert_session, invalid_credentials, not_a_member,
}
use verity_os_v.Identity.Passwords.{Platform, verify_password}
use verity_os_v.Identity.Accounts.{load_permissions, normal_email}
use verity_os_v.Identity.Sessions.{
  AuthContext, SignIn, Joined, joined, memberships_of, chosen_membership, is_disabled, new_session,
  new_context, open_session, create_session, checked_user, stored_hash,
}

-- The rows that a joined membership comes from.
pub record IsJoin (db : AuthDb) (user : Str) (j : Joined) : Type 0 where
  pub membership : MembershipRow
  pub role : RoleRow
  pub in_memberships : Member membership db.memberships
  pub in_roles : Member role db.roles
  pub of_user : str_eq membership.user_id user ≡ true
  pub of_role : is_role membership.role_id role ≡ true
  pub is_joined : j ≡ joined membership role

All-flat_map :
    {A B : Type 0} (P : B → Type 0) (f : A → List B) (xs : List A)
    → All (λ x. All P (f x)) xs
    → All P (flat_map f xs)
unfolding flat_map
All-flat_map P f [] h = tt
All-flat_map P f (x ∷ xs) h = All-append P (f x) (flat_map f xs) h.0 (All-flat_map P f xs h.1)

All-map :
    {A B : Type 0} (P : B → Type 0) (f : A → B) (xs : List A)
    → All (λ x. P (f x)) xs
    → All P (map f xs)
All-map P f [] h = tt
All-map P f (x ∷ xs) h = (h.0, All-map P f xs h.1)

pub memberships_of-IsJoin :
    (user : Str) (db : AuthDb) → All (IsJoin db user) (memberships_of user db)
unfolding memberships_of
memberships_of-IsJoin user db = All-flat_map (IsJoin db user) _ _ (
    sort-All (λ a b. ltb a.created_at b.created_at) _
      (select (λ m. str_eq m.user_id user) db.memberships)
      (Member-All _ _ λ m in_m.
        let (mem, own) =
          Member-select (λ (m' : MembershipRow). str_eq m'.user_id user) db.memberships m in_m in
        All-map (IsJoin db user) (joined m) _ (
          Member-All _ _ λ r in_r.
            let (role_in, key) = Member-select (is_role m.role_id) db.roles r in_r in
            record {
              membership = m;
              role = r;
              in_memberships = mem;
              in_roles = role_in;
              of_user = own;
              of_role = key;
              is_joined = refl;
            })))

pub chosen-Member :
    (org : Option Str) (ms : List Joined) (j : Joined)
    → chosen_membership org ms ≡ ok j
    → Member j ms
unfolding chosen_membership
chosen-Member org [] j h = cc
chosen-Member none (m ∷ ms) j h = inl (sym (ok-injective h))
chosen-Member (some org) (m ∷ ms) j h = elim (Bool-cases (is_empty org)) [
  | inl e ↦ inl (sym (ok-injective (rw e at h)))
  | inr e ↦
      (find-Member (λ k. str_eq k.organization_id org) (m ∷ ms) j
        (or_throw-ok not_a_member (find? (λ k. str_eq k.organization_id org) (m ∷ ms))
          (rw e at h))).0
]

-- What a successful createSession has read and done.
pub record SignedIn (p : Platform) (id token : Str) (now : ℕ) (input : SignIn) (db : AuthDb)
    (context : AuthContext) (db' : AuthDb) : Type 0 where
  pub user : UserRow
  pub chosen : Joined
  pub in_users : Member user db.users
  pub enabled : is_disabled user ≡ false
  pub picked : chosen_membership input.organization_id (memberships_of user.id db) ≡ ok chosen
  pub unused : any (has_token (p.sha256_hex token)) db.sessions ≡ false
  pub context_is : context ≡ new_context id user chosen (load_permissions chosen.role_id db)
  pub db_is :
      db'
      ≡ record db { sessions = db.sessions ++ new_session p id token now input user chosen ∷ [] }

pub checked-enabled :
    (row : Option UserRow) (verified : Bool) (user : UserRow)
    → checked_user row verified ≡ ok user
    → (row ≡ some user) × (is_disabled user ≡ false)
unfolding checked_user
checked-enabled none verified user h = cc
checked-enabled (some u) verified user h = elim (Bool-cases (is_disabled u || not verified)) [
  | inl e ↦ let bad : throw invalid_credentials ≡ ok user = rw e at h in cc
  | inr e ↦
      let same : u ≡ user = ok-injective (rw e at h) in
      let enabled : is_disabled u ≡ false = ground arith in
      (ap some same, ap (λ x. is_disabled x) (sym same) ∙ enabled)
]

pub insert_session-ok :
    (row : SessionRow) (db db' : AuthDb)
    → insert_session row db ≡ ok db'
    → (any (has_token row.token_hash) db.sessions ≡ false)
      × (any (is_membership row.organization_id row.user_id) db.memberships ≡ true)
      × (db' ≡ record db { sessions = db.sessions ++ row ∷ [] })
unfolding insert_session
insert_session-ok row db db' h = (ground arith, ground arith, ground arith)

-- The end of a sign-in, its parts computed.
module _ (p : Platform) (id token : Str) (now : ℕ) (input : SignIn) (db : AuthDb) (user : UserRow)
    (chosen : Joined) where
  signed :
      (token' : Str) (context : AuthContext) (db' start written : AuthDb)
      → Member user db.users
      → is_disabled user ≡ false
      → start ≡ db
      → chosen_membership input.organization_id (memberships_of user.id start) ≡ ok chosen
      → insert_session (new_session p id token now input user chosen) start ≡ ok written
      → ◌≡◌ {A = Str × AuthContext}
          (token', context)
          (token, new_context id user chosen (load_permissions chosen.role_id written))
      → db' ≡ written
      → (token' ≡ token) × SignedIn p id token now input db context db'
  unfolding new_session load_permissions
  signed token' context db' start written in_users enabled same picked inserted result last =
      let (unused, member, grown) =
        insert_session-ok (new_session p id token now input user chosen) start written inserted in
      let grown_db : written ≡ record db {
        sessions = db.sessions ++ new_session p id token now input user chosen ∷ [];
      } =
        grown
        ∙ ap
            (λ (d : AuthDb). record d {
              sessions = d.sessions ++ new_session p id token now input user chosen ∷ [];
            })
            same in
      (
        ap (λ r. r.0) result,
        record {
          user = user;
          chosen = chosen;
          in_users = in_users;
          enabled = enabled;
          picked =
              ap (λ d. chosen_membership input.organization_id (memberships_of user.id d))
                (sym same)
              ∙ picked;
          unused = ap (λ d. any (has_token (p.sha256_hex token)) d.sessions) (sym same) ∙ unused;
          context_is =
              ap (λ r. r.1) result
              ∙ ap (λ d. new_context id user chosen (load_permissions chosen.role_id d)) grown_db;
          db_is = last ∙ grown_db;
        },
      )

pub create_session-SignedIn :
    (p : Platform) (id token token' : Str) (now : ℕ) (input : SignIn) (db db' : AuthDb)
    (context : AuthContext)
    → create_session p id token now input db ≡ (ok (token', context), db')
    → (token' ≡ token) × SignedIn p id token now input db context db'
unfolding create_session open_session new_session ◌>>=◌
create_session-SignedIn p id token token' now input db db' context h =
    let row : Option UserRow = find? (λ u. str_eq u.email (normal_email p input.email)) db.users in
    let (verified, s1, e1, h1) =
      >>=-ok (lift (verify_password p input.password (stored_hash row))) _ db h in
    let (_, same1) = lift-ok _ db s1 verified e1 in
    let (user, s2, e2, h2) = >>=-ok (lift (checked_user row verified)) _ s1 h1 in
    let (checked, same2) = lift-ok _ s1 s2 user e2 in
    let (found, enabled) = checked-enabled row verified user checked in
    let (j, s3, e3, h3) =
      >>=-ok (lift (chosen_membership input.organization_id (memberships_of user.id s2))) _ s2 h2 in
    let (picked, same3) = lift-ok _ s2 s3 j e3 in
    let (u, s4, e4, h4) =
      >>=-ok (execute (insert_session (new_session p id token now input user j))) _ s3 h3 in
    let (result, last) = pure-ok _ (token', context) s4 db' h4 in
    signed p id token now input db user j token' context db' s3 s4
      ((find-Member _ db.users user found).0) enabled (same3 ∙ same2 ∙ same1)
      (ap (λ d. chosen_membership input.organization_id (memberships_of user.id d)) same3 ∙ picked)
      (execute-ok (insert_session (new_session p id token now input user j)) s3 s4 u e4) result last
