-- ===== src/Identity/Passwords.antt =====
-- packages/identity/src/passwords.ts. scrypt, SHA-256 and the case of letters are the platform's.
pub mod RoundTrip
use verity_os_v.Base.{
  ℕ, ◌+◌, ◌-◌, ◌*◌, Str, codes, str_eq, Bool, false, not, ◌&&◌, ◌||◌, List, [], ◌∷◌, ◌++◌, length,
  get_or, Option, none, some, Result, ok, throw, or_throw, ◌>>=◌, leb, ltb, ◌==◌, if◌then◌else◌,
}
use verity_os_v.Kernel.Noble.{Bytes}
use verity_os_v.Kernel.Noble.Checksum.{to_hex, digit_value}
use verity_os_v.Identity.Rows.{AuthError, password_too_short, scrypt_failed}

-- What node:crypto and String.prototype give. `scrypt` takes the password, the salt, the length of
-- the key and N, r, p, where `none` is NaN; it gives `none` where it fails.
pub record Platform : Type 0 where
  pub scrypt : Str → Bytes → ℕ → Option ℕ → Option ℕ → Option ℕ → Option Bytes
  pub sha256_hex : Str → Str
  pub lower : Str → Str
  pub trim : Str → Str

-- N, r, p and keyLen
abbrev pub scrypt_n : ℕ
scrypt_n = 16384

abbrev pub scrypt_r : ℕ
scrypt_r = 8

abbrev pub scrypt_p : ℕ
scrypt_p = 1

abbrev pub key_len : ℕ
key_len = 32

-- `salt` is drawn at random.
unfoldable pub hash_password : Platform → Bytes → Str → Result AuthError Str
hash_password p salt password = if ltb (length password) 10 then throw password_too_short else (do
  key ←
      or_throw scrypt_failed
        (p.scrypt password salt key_len (some scrypt_n) (some scrypt_r) (some scrypt_p))
  ok (codes "scrypt$16384$8$1$" ++ (to_hex salt ++ b'$' ∷ to_hex key)))

abbrev pub push_front : ℕ → List Str → List Str
push_front x [] = (x ∷ []) ∷ []
push_front x (s ∷ rest) = (x ∷ s) ∷ rest

-- String.prototype.split at one code unit
unfoldable pub split : ℕ → Str → List Str
split c [] = [] ∷ []
split c (x ∷ s) = let rest = split c s in if x == c then [] ∷ rest else push_front x rest

-- Number on decimal digits, as hashPassword writes them; any other text is read as NaN.
unfoldable pub number_from : ℕ → Str → Option ℕ
number_from acc [] = some acc
number_from acc (c ∷ s) =
    if leb b'0' c && leb c b'9' then number_from (acc * 10 + (c - b'0')) s else none

abbrev pub push_byte : Option ℕ → Option ℕ → Bytes → Bytes
push_byte (some hi) (some lo) bs = (hi * 16 + lo) ∷ bs
push_byte (some hi) none bs = []
push_byte none lo bs = []

-- Buffer.from(s, "hex") stops at the first pair that is not two digits.
unfoldable pub bytes_of_hex : Str → Bytes
unfolding digit_value
bytes_of_hex [] = []
bytes_of_hex (c ∷ []) = []
bytes_of_hex (c ∷ d ∷ s) = push_byte (digit_value c) (digit_value d) (bytes_of_hex s)

abbrev pub same_key : Bytes → Bytes → Bool
same_key actual expected = length actual == length expected && str_eq actual expected

unfoldable pub verify_parts : Platform → Str → List Str → Result AuthError Bool
unfolding number_from bytes_of_hex
verify_parts p password parts =
    if not (length parts == 6) || not (str_eq (get_or parts 0 []) (codes "scrypt"))
    then ok false
    else (do
      let expected = bytes_of_hex (get_or parts 5 [])
      actual ← or_throw scrypt_failed (
          p.scrypt password (bytes_of_hex (get_or parts 4 [])) (length expected)
            (number_from 0 (get_or parts 1 [])) (number_from 0 (get_or parts 2 []))
            (number_from 0 (get_or parts 3 [])))
      ok (same_key actual expected))

unfoldable pub verify_password : Platform → Str → Str → Result AuthError Bool
unfolding verify_parts split
verify_password p password stored = verify_parts p password (split b'$' stored)

unfoldable pub hash_secret : Platform → Bytes → Str → Result AuthError Str
unfolding hash_password
hash_secret p salt secret =
    hash_password p salt (if leb 10 (length secret) then secret else secret ++ codes "________")
