-- ===== src/Identity/Sessions/SignOut.antt =====
-- destroySession and resolveSession together.
use verity_os_v.Base.{
  ℕ, Str, str_eq_iff, is_empty, not, List, [], ◌∷◌, some, throw, select, arith, ◌≡◌, ◌≢◌, refl,
  Bool-cases, inl, inr,
}
use verity_os_v.Base.Stateful.{execute}
use verity_os_v.Kernel.Graph.{flat_map}
use verity_os_v.Command.Policy.{first_row}
use verity_os_v.Identity.Rows.{SessionRow, AuthDb, has_token, unauthenticated}
use verity_os_v.Identity.Passwords.{Platform}
use verity_os_v.Identity.Accounts.{load_permissions}
use verity_os_v.Identity.Sessions.{joined_sessions, context_at, resolve_session, destroy_session}

abbrev others : Str → List SessionRow → List SessionRow
others hash ss = select (λ s. not (has_token hash s)) ss

none_left : (hash : Str) (ss : List SessionRow) → select (has_token hash) (others hash ss) ≡ []
none_left hash [] = refl
none_left hash (s ∷ ss) = ground (arith, none_left hash ss)

others_stay :
    (hash other : Str) (ss : List SessionRow)
    → other ≢ hash
    → select (has_token other) (others hash ss) ≡ select (has_token other) ss
others_stay hash other [] ne = refl
others_stay hash other (s ∷ ss) ne = ground (
  arith,
  others_stay hash other ss ne,
  str_eq_iff s.token_hash other,
  str_eq_iff s.token_hash hash,
)

-- After a sign-out the token is refused at any time, and every token with another hash resolves as
-- it did before.
pub destroy-resolve :
    (p : Platform) (token : Str) (db : AuthDb) (later : ℕ)
    → (resolve_session p later (some token) ((destroy_session p token db).1)
        ≡ throw unauthenticated)
      × ((other : Str)
          → p.sha256_hex other ≢ p.sha256_hex token
          → resolve_session p later (some other) ((destroy_session p token db).1)
            ≡ resolve_session p later (some other) db)
unfolding destroy_session execute resolve_session joined_sessions flat_map first_row context_at
    load_permissions
destroy-resolve p token db later = (
  elim (Bool-cases (is_empty token)) [
    | inl e ↦ rw e refl
    | inr e ↦ rw (e, none_left (p.sha256_hex token) db.sessions) refl
  ],
  λ other ne. rw (others_stay (p.sha256_hex token) (p.sha256_hex other) db.sessions ne) refl,
)
