-- ===== src/Kernel/Noble/Checksum.antt =====
-- A concrete `Noble` for the examples: hex as the library writes it, and a checksum of 32 equal
-- bytes in place of SHA-256.
use verity_os_v.Base.{
  ℕ, zero, suc, ◌+◌, ◌-◌, ◌*◌, ◌/◌, ◌%◌, ◌<◌, Str, [], ◌∷◌, true, ◌&&◌, Option, none, some, ◌≡◌,
  refl, ap, arith, leb, ltb, if◌then◌else◌, length, All, all, ◌==◌, ==_iff, &&-true, Bool-cases,
  inl, inr,
}
use verity_os_v.Kernel.Noble.{Noble, Lawful, Bytes, IsHash, is_sha256_hex, is_lower_hex}

unfoldable pub hex_digit : ℕ → ℕ
hex_digit d = if ltb d 10 then b'0' + d else b'a' + (d - 10)

unfoldable pub digit_value : ℕ → Option ℕ
digit_value c =
    if leb b'0' c && leb c b'9'
    then some (c - b'0')
    else if leb b'a' c && leb c b'f'
    then some (c - b'a' + 10)
    else if leb b'A' c && leb c b'F'
    then some (c - b'A' + 10)
    else none

unfoldable pub to_hex : Bytes → Str
unfolding hex_digit
to_hex [] = []
to_hex (b ∷ bs) = hex_digit (b / 16) ∷ hex_digit (b % 16) ∷ to_hex bs

join_byte : Option ℕ → Option ℕ → Option Bytes → Option Bytes
join_byte (some hi) (some lo) (some bs) = some ((hi * 16 + lo) ∷ bs)
join_byte _ _ _ = none

unfoldable pub from_hex : Str → Option Bytes
unfolding join_byte digit_value
from_hex [] = some []
from_hex (c ∷ []) = none
from_hex (c ∷ d ∷ s) = join_byte (digit_value c) (digit_value d) (from_hex s)

unfoldable pub total : Bytes → ℕ
total [] = 7
total (b ∷ bs) = (b + 3 * total bs) % 256

unfoldable pub repeat : ℕ → ℕ → Bytes
repeat zero v = []
repeat (suc k) v = v ∷ repeat k v

unfoldable pub checksum : Bytes → Bytes
unfolding total repeat
checksum bs = repeat 32 (total bs)

abbrev pub checksum_noble : Noble
checksum_noble = record { sha256 = checksum; bytes_to_hex = to_hex; hex_to_bytes = from_hex }

pub total-lt : (bs : Bytes) → total bs < 256
unfolding total
total-lt [] = omega arith
total-lt (b ∷ bs) = omega arith

pub repeat-All : (k v : ℕ) → v < 256 → All (λ b. b < 256) (repeat k v)
unfolding repeat
repeat-All zero v h = tt
repeat-All (suc k) v h = (h, repeat-All k v h)

pub length-repeat : (k v : ℕ) → length (repeat k v) ≡ k
unfolding repeat
length-repeat zero v = refl
length-repeat (suc k) v = ap suc (length-repeat k v)

length-to_hex : (bs : Bytes) → length (to_hex bs) ≡ 2 * length bs
unfolding to_hex
length-to_hex [] = refl
length-to_hex (b ∷ bs) = omega (arith, length-to_hex bs)

hex_digit-lower : (d : ℕ) → d < 16 → is_lower_hex (hex_digit d) ≡ true
unfolding hex_digit is_lower_hex
hex_digit-lower d h = ground arith

pub digit_value-hex_digit : (d : ℕ) → d < 16 → digit_value (hex_digit d) ≡ some d
unfolding hex_digit digit_value
digit_value-hex_digit d h = ground arith

to_hex-lower : (bs : Bytes) → All (λ b. b < 256) bs → all is_lower_hex (to_hex bs) ≡ true
unfolding to_hex
to_hex-lower [] h = refl
to_hex-lower (b ∷ bs) h = rw (
  hex_digit-lower (b / 16) (let (lt, _) = h in omega arith),
  hex_digit-lower (b % 16) (omega arith),
  to_hex-lower bs h.1,
)

from_hex-to_hex : (bs : Bytes) → All (λ b. b < 256) bs → from_hex (to_hex bs) ≡ some bs
unfolding from_hex to_hex
from_hex-to_hex [] h = refl
from_hex-to_hex (b ∷ bs) h =
    rw
      (
        digit_value-hex_digit (b / 16) (let (lt, _) = h in omega arith),
        digit_value-hex_digit (b % 16) (omega arith),
        from_hex-to_hex bs h.1,
      )
      (ap (λ x. some (x ∷ bs)) (omega arith))

-- A lower-case digit is the digit of its value.
digit_value-lower :
    (c : ℕ)
    → is_lower_hex c ≡ true
    → (d : ℕ) × (d < 16) × (digit_value c ≡ some d) × (hex_digit d ≡ c)
unfolding digit_value hex_digit is_lower_hex
digit_value-lower c h = elim (Bool-cases (leb c b'9')) [
  | inl dec ↦ (c - b'0', ground arith, ground arith, ground arith)
  | inr hex ↦ (c - b'a' + 10, ground arith, ground arith, ground arith)
]

from_hex-lower :
    (s : Str) (k : ℕ)
    → length s ≡ 2 * k
    → all is_lower_hex s ≡ true
    → (bs : Bytes) × (from_hex s ≡ some bs) × (length bs ≡ k) × (to_hex bs ≡ s)
unfolding from_hex to_hex
from_hex-lower [] k len h = ([], refl, omega arith, refl)
from_hex-lower (c ∷ []) k len h = absurd (omega arith)
from_hex-lower (c ∷ d ∷ s) k len h =
    let (hc, hr) = &&-true (is_lower_hex c) _ h in
    let (hd, hs) = &&-true (is_lower_hex d) _ hr in
    let (x, lx, ex, fx) = digit_value-lower c hc in
    let (y, ly, ey, fy) = digit_value-lower d hd in
    let (bs, eb, lb, fb) = from_hex-lower s (k - 1) (omega arith) hs in
    let hi : (x * 16 + y) / 16 ≡ x = omega arith in
    let lo : (x * 16 + y) % 16 ≡ y = omega arith in
    ((x * 16 + y) ∷ bs, rw (ex, ey, eb), omega arith, rw (hi, lo, fx, fy, fb))

to_hex-IsHash : (bs : Bytes) → length bs ≡ 32 → All (λ b. b < 256) bs → IsHash (to_hex bs)
unfolding is_sha256_hex
to_hex-IsHash bs len h = rw (to_hex-lower bs h, length-to_hex bs, len)

checksum-IsHash : (b : Bytes) → IsHash (to_hex (checksum b))
unfolding checksum
checksum-IsHash b =
    to_hex-IsHash (repeat 32 (total b)) (length-repeat 32 (total b))
      (repeat-All 32 (total b) (total-lt b))

checksum_round : (b : Bytes) → from_hex (to_hex (checksum b)) ≡ some (checksum b)
unfolding checksum
checksum_round b = from_hex-to_hex (repeat 32 (total b)) (repeat-All 32 (total b) (total-lt b))

checksum_decodes :
    (s : Str) → IsHash s → (b : Bytes) × (from_hex s ≡ some b) × (length b ≡ 32) × (to_hex b ≡ s)
unfolding is_sha256_hex
checksum_decodes s h =
    let (len, low) = &&-true (length s == 64) _ h in
    from_hex-lower s 32 ((==_iff (length s) 64).0 len) low

pub checksum-Lawful : Lawful checksum_noble
checksum-Lawful = record {
  digest_IsHash = checksum-IsHash;
  digest_round = checksum_round;
  hash_decodes = checksum_decodes;
}
