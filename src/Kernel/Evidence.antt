-- ===== src/Kernel/Evidence.antt =====
-- hashing/evidence.ts: what is checked of hashes and timestamps before anything is written.
use verity_os_v.Base.{
  ℕ, zero, suc, ◌+◌, ◌-◌, ◌*◌, ◌%◌, Str, Bool, true, false, ◌&&◌, ◌||◌, not, [], ◌∷◌, Option, none,
  some, ok, throw, ◌>>◌, if◌then◌else◌, leb, ltb, ◌==◌, ◌≡◌, arith, get_or,
}
use verity_os_v.Kernel.Error.{
  Throws, Field, invalid_evidence_input, request_hash, response_hash, execution_graph_hash,
  previous_entry_hash,
}
use verity_os_v.Kernel.Noble.{is_sha256_hex, IsHash}

unfoldable pub assert_sha256_hex : Field → Option Str → Throws (Unit {0})
assert_sha256_hex name none = ok tt
assert_sha256_hex name (some value) =
    if is_sha256_hex value then ok tt else throw (invalid_evidence_input name)

-- The text of a timestamp, character by character: d is a digit of CANONICAL_UTC_TIMESTAMP_PATTERN.
abbrev pattern_text : Str
pattern_text =
    b'd' ∷ b'd' ∷ b'd' ∷ b'd' ∷ b'-' ∷ b'd' ∷ b'd' ∷ b'-' ∷ b'd' ∷ b'd' ∷ b'T' ∷ b'd' ∷ b'd' ∷ b':'
    ∷ b'd' ∷ b'd' ∷ b':' ∷ b'd' ∷ b'd' ∷ b'.' ∷ b'd' ∷ b'd' ∷ b'd' ∷ b'Z' ∷ []

unfoldable pub matches : Str → Str → Bool
matches [] [] = true
matches [] (c ∷ s) = false
matches (p ∷ ps) [] = false
matches (p ∷ ps) (c ∷ s) = (if p == b'd' then leb b'0' c && leb c b'9' else c == p) && matches ps s

-- The number that stands in the digits from a position on.
unfoldable pub number_at : ℕ → ℕ → Str → ℕ
number_at zero i s = 0
number_at (suc k) i s = number_at k i s * 10 + (get_or s (i + k) b'0' - b'0')

unfoldable pub days_in_month : ℕ → ℕ → ℕ
days_in_month year month =
    if month == 2
    then (if (year % 4 == 0 && not (year % 100 == 0)) || year % 400 == 0 then 29 else 28)
    else if month == 4 || month == 6 || month == 9 || month == 11
    then 30
    else 31

-- `new Date(value).toISOString() === value`, for a text of the pattern: it is so exactly when the
-- fields name a day of the calendar and a time of the day.
unfoldable pub is_iso_date : Str → Bool
unfolding number_at days_in_month
is_iso_date s =
    let year = number_at 4 0 s in
    let month = number_at 2 5 s in
    let day = number_at 2 8 s in
    leb 1 month
    && leb month 12
    && leb 1 day
    && leb day (days_in_month year month)
    && ltb (number_at 2 11 s) 24
    && ltb (number_at 2 14 s) 60
    && ltb (number_at 2 17 s) 60

unfoldable pub assert_canonical_utc_timestamp : Field → Str → Throws (Unit {0})
assert_canonical_utc_timestamp name value =
    if matches pattern_text value
    then (if is_iso_date value then ok tt else throw (invalid_evidence_input name))
    else throw (invalid_evidence_input name)

-- The fourth argument is `none` where the property is undefined.
unfoldable pub assert_ledger_hash_fields :
    Option Str → Option Str → Option Str → Option (Option Str) → Throws (Unit {0})
assert_ledger_hash_fields request response graph previous =
    assert_sha256_hex request_hash request
    >> assert_sha256_hex response_hash response
    >> assert_sha256_hex execution_graph_hash graph
    >> elim previous [ none ↦ ok tt | some p ↦ assert_sha256_hex previous_entry_hash p ]

-- Hashes, where they are given.
abbrev pub IsHash? : Option Str → Type 0
IsHash? none = Unit
IsHash? (some h) = IsHash h

pub assert_sha256_hex-ok :
    (name : Field) (value : Option Str) → assert_sha256_hex name value ≡ ok tt → IsHash? value
unfolding assert_sha256_hex
assert_sha256_hex-ok name none h = tt
assert_sha256_hex-ok name (some v) h = ground arith
