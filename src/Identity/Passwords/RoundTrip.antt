-- ===== src/Identity/Passwords/RoundTrip.antt =====
-- hashPassword and verifyPassword together.
use verity_os_v.Base.{
  ℕ, ◌<◌, ◌/◌, ◌%◌, Str, codes, str_eq, str_eq_refl, str_eq_iff, Option-cases, ◌>>=◌, Bool, true,
  false, List, [], ◌∷◌, ◌++◌, length, All, Option, none, some, Result, ok, throw, or_throw, ltb,
  ◌==◌, arith, ◌≡◌, refl, ap, ◌∙◌, sym, Bool-cases, inl, inr,
}
use verity_os_v.Kernel.Noble.{Bytes}
use verity_os_v.Kernel.Noble.Checksum.{to_hex, hex_digit, digit_value-hex_digit}
use verity_os_v.Identity.Rows.{AuthError, password_too_short, scrypt_failed}
use verity_os_v.Identity.Passwords.{
  Platform, key_len, scrypt_n, scrypt_r, scrypt_p, hash_password, verify_password, verify_parts,
  split, bytes_of_hex, same_key, number_from,
}

abbrev pub IsByte : ℕ → Type 0
IsByte b = b < 256

bytes_of_hex-to_hex : (bs : Bytes) → All IsByte bs → bytes_of_hex (to_hex bs) ≡ bs
unfolding bytes_of_hex to_hex
bytes_of_hex-to_hex [] h = refl
bytes_of_hex-to_hex (b ∷ bs) h =
    rw
      (
        digit_value-hex_digit (b / 16) (omega arith),
        digit_value-hex_digit (b % 16) (omega arith),
        bytes_of_hex-to_hex bs h.1,
      )
      (ap (λ x. x ∷ bs) (omega arith))

-- No `$` in the text.
abbrev IsField : Str → Type 0
IsField s = All (λ c. (c == b'$') ≡ false) s

hex_digit-ne : (d : ℕ) → d < 16 → (hex_digit d == b'$') ≡ false
unfolding hex_digit
hex_digit-ne d h = ground arith

to_hex-IsField : (bs : Bytes) → All IsByte bs → IsField (to_hex bs)
unfolding to_hex
to_hex-IsField [] h = tt
to_hex-IsField (b ∷ bs) h = (
  hex_digit-ne (b / 16) (omega arith),
  (hex_digit-ne (b % 16) (omega arith), to_hex-IsField bs h.1),
)

split-field : (s rest : Str) → IsField s → split b'$' (s ++ b'$' ∷ rest) ≡ s ∷ split b'$' rest
unfolding split
split-field [] rest h = refl
split-field (c ∷ s) rest h = rw (h.0, split-field s rest h.1)

split-last : (s : Str) → IsField s → split b'$' s ≡ s ∷ []
unfolding split
split-last [] h = refl
split-last (c ∷ s) h = rw (h.0, split-last s h.1)

abbrev head_fields : List Str → List Str
head_fields rest = codes "scrypt" ∷ codes "16384" ∷ codes "8" ∷ codes "1" ∷ rest

split-head : (s : Str) → split b'$' (codes "scrypt$16384$8$1$" ++ s) ≡ head_fields (split b'$' s)
unfolding split
split-head s = refl

split-stored :
    (salt key : Bytes)
    → All IsByte salt
    → All IsByte key
    → split b'$' (codes "scrypt$16384$8$1$" ++ (to_hex salt ++ b'$' ∷ to_hex key))
      ≡ head_fields (to_hex salt ∷ to_hex key ∷ [])
split-stored salt key hs hk =
    split-head (to_hex salt ++ b'$' ∷ to_hex key)
    ∙ ap head_fields (
        split-field (to_hex salt) (to_hex key) (to_hex-IsField salt hs)
        ∙ ap (λ r. to_hex salt ∷ r) (split-last (to_hex key) (to_hex-IsField key hk)))

-- What scrypt promises: a key of the asked length, made of bytes.
pub record IsScrypt (p : Platform) : Type 0 where
  pub derives :
      (password : Str) (salt : Bytes) (len : ℕ) (n r q : Option ℕ) (key : Bytes)
      → p.scrypt password salt len n r q ≡ some key
      → (length key ≡ len) × All IsByte key

abbrev pub derive : Platform → Str → Bytes → Option Bytes
derive p password salt =
    p.scrypt password salt key_len (some scrypt_n) (some scrypt_r) (some scrypt_p)

abbrev verdict : Bytes → Option Bytes → Result AuthError Bool
verdict key none = throw scrypt_failed
verdict key (some actual) = ok (same_key actual key)

bind-verdict :
    (key : Bytes) (o : Option Bytes)
    → (or_throw scrypt_failed o >>= λ actual. ok (same_key actual key)) ≡ verdict key o
bind-verdict key none = refl
bind-verdict key (some actual) = refl

parts_verdict :
    (p : Platform) (password : Str) (salt key : Bytes)
    → All IsByte salt
    → All IsByte key
    → length key ≡ key_len
    → verify_parts p password (head_fields (to_hex salt ∷ to_hex key ∷ []))
      ≡ verdict key (derive p password salt)
unfolding verify_parts number_from str_eq
parts_verdict p password salt key hs hk len =
    rw (bytes_of_hex-to_hex salt hs, bytes_of_hex-to_hex key hk)
      (bind-verdict key (keyed (length key)) ∙ ap (λ n. verdict key (keyed n)) len)
  where
    keyed : ℕ → Option Bytes
    keyed n = p.scrypt password salt n (some scrypt_n) (some scrypt_r) (some scrypt_p)

own_key : (key : Bytes) → verdict key (some key) ≡ ok true
own_key key = ground (arith, str_eq_refl key)

verdict-true : (key : Bytes) (o : Option Bytes) → verdict key o ≡ ok true → o ≡ some key
verdict-true key none h = cc
verdict-true key (some actual) h = elim (Bool-cases (str_eq actual key)) [
  | inl e ↦ ap some ((str_eq_iff actual key).0 e)
  | inr e ↦ ground arith
]

stored_verdict :
    (p : Platform) (password : Str) (salt key : Bytes)
    → All IsByte salt
    → All IsByte key
    → length key ≡ key_len
    → verify_password p password (codes "scrypt$16384$8$1$" ++ (to_hex salt ++ b'$' ∷ to_hex key))
      ≡ verdict key (derive p password salt)
unfolding verify_password
stored_verdict p password salt key hs hk len =
    ap (verify_parts p password) (split-stored salt key hs hk)
    ∙ parts_verdict p password salt key hs hk len

-- What hashPassword stores is the salt and the derived key.
hash-stored :
    (p : Platform) (salt : Bytes) (password stored : Str)
    → hash_password p salt password ≡ ok stored
    → (key : Bytes) × (derive p password salt ≡ some key)
      × (stored ≡ codes "scrypt$16384$8$1$" ++ (to_hex salt ++ b'$' ∷ to_hex key))
unfolding hash_password
hash-stored p salt password stored h = elim (Bool-cases (ltb (length password) 10)) [
  | inl e ↦
      let bad : throw password_too_short ≡ (let r : Result AuthError Str = ok stored in r) =
        ground arith in
      cc
  | inr e ↦ elim (Option-cases (derive p password salt)) [
    | inl none_key ↦
        let bad : throw scrypt_failed ≡ (let r : Result AuthError Str = ok stored in r) =
          ground arith in
        cc
    | inr (key, found) ↦ (key, found, ground arith)
  ]
]

-- Where scrypt gives keys of the asked length made of bytes and the salt is made of bytes, a
-- password that hashPassword accepted is verified against the stored text, and any text that is
-- verified against it has the same derived key.
pub verify-hash :
    (p : Platform) (salt : Bytes) (password stored : Str)
    → IsScrypt p
    → All IsByte salt
    → hash_password p salt password ≡ ok stored
    → (verify_password p password stored ≡ ok true)
      × ((attempt : Str)
          → verify_password p attempt stored ≡ ok true
          → derive p attempt salt ≡ derive p password salt)
verify-hash p salt password stored law hs h =
    let (key, found, text) = hash-stored p salt password stored h in
    let (len, hk) = law.derives password salt key_len _ _ _ key found in
    let reads : (attempt : Str)
        → verify_password p attempt stored ≡ verdict key (derive p attempt salt) =
      λ attempt.
        ap (verify_password p attempt) text ∙ stored_verdict p attempt salt key hs hk len in
    (
      reads password ∙ ap (verdict key) found ∙ own_key key,
      λ attempt accepted.
          verdict-true key (derive p attempt salt) (sym (reads attempt) ∙ accepted) ∙ sym found,
    )
