-- ===== src/Identity/Sessions/Errors.antt =====
-- The errors of createSession.
use verity_os_v.Base.{
  ℕ, Str, str_eq, str_eq_iff, str_eq_refl, Bool, true, false, List, [], ◌∷◌, Option, none, some,
  throw, find?, any, Member, All-Member, arith, ◌≡◌, sym, ap, ◌∙◌, inl, inr,
}
use verity_os_v.Base.Distinct.{find-Member, Member-any}
use verity_os_v.Base.Stateful.{
  lift, execute, ◌>>=◌, >>=-throw, lift-throw, lift-ok, execute-throw, pure-ne_throw,
}
use verity_os_v.Identity.Rows.{
  UserRow, SessionRow, AuthDb, AuthError, is_user, is_organization, is_membership, has_token,
  insert_session, invalid_credentials, no_membership, not_a_member, scrypt_failed,
}
use verity_os_v.Identity.Passwords.{Platform, verify_password, verify_parts}
use verity_os_v.Identity.Accounts.{normal_email}
use verity_os_v.Identity.Consistent.{IsConsistent}
use verity_os_v.Identity.Sessions.{
  SignIn, Joined, memberships_of, chosen_membership, checked_user, stored_hash, new_session,
  open_session, create_session,
}
use verity_os_v.Identity.Sessions.SignedIn.{
  IsJoin, memberships_of-IsJoin, chosen-Member, checked-enabled,
}

-- The errors that a caller of createSession has to handle.
pub data IsSignInError : AuthError → Type 0 where
  hash_failed : IsSignInError scrypt_failed
  bad_credentials : IsSignInError invalid_credentials
  without_membership : IsSignInError no_membership
  other_organization : IsSignInError not_a_member

verify-throws :
    (p : Platform) (password stored : Str) (e : AuthError)
    → verify_password p password stored ≡ throw e
    → e ≡ scrypt_failed
unfolding verify_password verify_parts
verify-throws p password stored e h = ground (arith)

checked-throws :
    (row : Option UserRow) (verified : Bool) (e : AuthError)
    → checked_user row verified ≡ throw e
    → e ≡ invalid_credentials
unfolding checked_user
checked-throws none verified e h = cc
checked-throws (some user) verified e h = ground (arith)

chosen-throws :
    (org : Option Str) (ms : List Joined) (e : AuthError)
    → chosen_membership org ms ≡ throw e
    → IsSignInError e
unfolding chosen_membership
chosen-throws org [] e h = let same : e ≡ no_membership = cc in rw same without_membership
chosen-throws none (m ∷ ms) e h = cc
chosen-throws (some org) (m ∷ ms) e h =
    let same : e ≡ not_a_member = ground (arith) in rw same other_organization

-- Where the drawn id and token are new, the session of a member can be stored.
insertable :
    (row : SessionRow) (db : AuthDb) (e : AuthError)
    → any (λ s. str_eq s.id row.id) db.sessions ≡ false
    → any (has_token row.token_hash) db.sessions ≡ false
    → any (is_user row.user_id) db.users ≡ true
    → any (is_organization row.organization_id) db.organizations ≡ true
    → any (is_membership row.organization_id row.user_id) db.memberships ≡ true
    → insert_session row db ≡ throw e
    → ⊥
unfolding insert_session
insertable row db e a b u o m h = ground (arith)

module _ (p : Platform) (id token : Str) (now : ℕ) (input : SignIn) (db : AuthDb)
    (c : IsConsistent db) (new_id : any (λ s. str_eq s.id id) db.sessions ≡ false)
    (new_token : any (has_token (p.sha256_hex token)) db.sessions ≡ false) where
  can_insert :
      (user : UserRow) (j : Joined) (e : AuthError)
      → Member user db.users
      → Member j (memberships_of user.id db)
      → insert_session (new_session p id token now input user j) db ≡ throw e
      → ⊥
  unfolding new_session
  can_insert user j e in_users in_joined h =
      let i =
        All-Member (IsJoin db user.id) j (memberships_of user.id db)
          (memberships_of-IsJoin user.id db) in_joined in
      let same : i.membership.organization_id ≡ j.organization_id =
        sym (ap (λ (k : Joined). k.organization_id) i.is_joined) in
      let known =
        All-Member _ i.membership db.memberships c.organizations_belong i.in_memberships in
      insertable (new_session p id token now input user j) db e new_id new_token
        (Member-any (is_user user.id) user db.users in_users (str_eq_refl user.id))
        (ap (λ o. any (is_organization o) db.organizations) (sym same) ∙ known)
        (Member-any (is_membership j.organization_id user.id) i.membership db.memberships
          i.in_memberships
          (ground (arith, str_eq_iff i.membership.organization_id j.organization_id, i.of_user)))
        h

  -- The choice of a membership, the insertion and what follows them.
  choice_throws :
      (user : UserRow) (start db' : AuthDb) (e : AuthError)
      → Member user db.users
      → start ≡ db
      → open_session p id token now input user start ≡ (throw e, db')
      → (db' ≡ db) × IsSignInError e
  unfolding open_session ◌>>=◌
  choice_throws user start db' e in_users back h =
      elim (>>=-throw
        (lift (chosen_membership input.organization_id (memberships_of user.id start))) _ start h) [
          | inl t ↦
              let (thrown, same) = lift-throw _ start db' e t in
              (same ∙ back, chosen-throws input.organization_id _ e thrown)
          | inr (j, s, o, next) ↦
              let (picked, same) = lift-ok _ start s j o in
              let in_joined = chosen-Member input.organization_id (memberships_of user.id db) j (
                ap (λ d. chosen_membership input.organization_id (memberships_of user.id d))
                  (sym back)
                ∙ picked) in
              elim (>>=-throw (execute (insert_session (new_session p id token now input user j))) _
                s next) [
                  | inl t ↦
                      let (thrown, _) =
                        execute-throw (insert_session (new_session p id token now input user j)) s
                          db' e t in
                      absurd (
                        can_insert user j e in_users in_joined (
                          ap (insert_session (new_session p id token now input user j))
                            (sym (same ∙ back))
                          ∙ thrown))
                  | inr (_, s', _, last) ↦ absurd (pure-ne_throw _ s' db' e last)
                ]
        ]

  -- A sign-in to consistent tables, with a new id and token, that throws has changed nothing, and
  -- its error is a failure of scrypt, bad credentials, no membership or another organization: the
  -- database never refuses the session.
  pub create_session-throws :
      (db' : AuthDb) (e : AuthError)
      → create_session p id token now input db ≡ (throw e, db')
      → (db' ≡ db) × IsSignInError e
  unfolding create_session ◌>>=◌
  create_session-throws db' e h =
      let row = find? (λ (u : UserRow). str_eq u.email (normal_email p input.email)) db.users in
      elim (>>=-throw (lift (verify_password p input.password (stored_hash row))) _ db h) [
        | inl t ↦
            let (thrown, same) = lift-throw _ db db' e t in
            let failed = verify-throws p input.password (stored_hash row) e thrown in
            (same, rw failed hash_failed)
        | inr (verified, s, o, next) ↦
            let (_, same) = lift-ok _ db s verified o in
            elim (>>=-throw (lift (checked_user row verified)) _ s next) [
              | inl t ↦
                  let (thrown, same') = lift-throw _ s db' e t in
                  let failed = checked-throws row verified e thrown in
                  (same' ∙ same, rw failed bad_credentials)
              | inr (user, s', o', next') ↦
                  let (checked, same') = lift-ok _ s s' user o' in
                  let (found, _) = checked-enabled row verified user checked in
                  choice_throws user s' db' e (find-Member _ db.users user found).0 (same' ∙ same)
                    next'
            ]
      ]
