-- ===== src/Kernel/Canonicalize.antt =====
-- hashing/canonicalize.ts: the VCHF-2 text of a JSON value, over JavaScript values as a data type.
-- JSON.stringify of strings and safe integers is the language's and is written out here.
pub mod Decode
pub mod Strings
pub mod Numbers
pub mod Normal
pub mod Print
pub mod ReadBack
pub mod Injective
use verity_os_v.Base.{
  ℕ, zero, suc, ◌+◌, ◌-◌, ◌/◌, ◌%◌, Str, codes, str_lt, sort_by, Bool, true, false, ◌&&◌, ◌||◌,
  List, [], ◌∷◌, ◌++◌, map, ok, throw, ◌>>=◌, if◌then◌else◌, ltb, leb, ◌==◌,
}
use verity_os_v.Kernel.Error.{Throws, unsafe_number, unsupported_type}

-- The values that `encode` tells apart. A number is an integer (sign and magnitude, so that -0 is a
-- value of its own) or one that is no integer; `unsupported` is undefined, a bigint, a symbol or a
-- function. The fields of an object stand in the order of Object.keys.
mutual
  pub data Value : Type 0 where
    null : Value
    boolean : Bool → Value
    integer : Bool → ℕ → Value
    non_integer : Value
    string : Str → Value
    array : Items → Value
    object : Fields → Value
    unsupported : Value

  pub data Items : Type 0 where
    nil : Items
    cons : Value → Items → Items

  pub data Fields : Type 0 where
    end : Fields
    field : Str → Value → Fields → Fields

-- Number.MAX_SAFE_INTEGER
abbrev pub max_safe_integer : ℕ
max_safe_integer = 9007199254740991

-- The decimal digits of a number; a number has fewer digits than its successor has units.
unfoldable pub decimal_digits : ℕ → ℕ → Str
decimal_digits zero n = []
decimal_digits (suc fuel) n =
    let front = decimal_digits fuel (n / 10) in
    if ltb n 10 then (b'0' + n) ∷ [] else front ++ (b'0' + n % 10) ∷ []

unfoldable pub decimal : ℕ → Str
decimal n = decimal_digits (suc n) n

-- JSON.stringify of an integer; -0 is written "0".
unfoldable pub stringify_integer : Bool → ℕ → Str
stringify_integer negative n = if negative && ltb 0 n then b'-' ∷ decimal n else decimal n

abbrev pub is_lead : ℕ → Bool
is_lead c = leb 0xD800 c && leb c 0xDBFF

abbrev pub is_trail : ℕ → Bool
is_trail c = leb 0xDC00 c && leb c 0xDFFF

unfoldable pub hex_unit : ℕ → ℕ
hex_unit d = if ltb d 10 then b'0' + d else b'a' + (d - 10)

-- \uXXXX
unfoldable pub unicode_escape : ℕ → Str
unicode_escape c =
    b'\\'
    ∷ b'u'
    ∷ hex_unit (c / 4096)
    ∷ hex_unit (c / 256 % 16)
    ∷ hex_unit (c / 16 % 16)
    ∷ hex_unit (c % 16)
    ∷ []

-- QuoteJSONString of ECMA-262 on a code unit that is not in a surrogate pair.
unfoldable pub escape : ℕ → Str
escape c =
    if c == 8
    then codes "\\b"
    else if c == 9
    then codes "\\t"
    else if c == 10
    then codes "\\n"
    else if c == 12
    then codes "\\f"
    else if c == 13
    then codes "\\r"
    else if c == b'"'
    then codes "\\\""
    else if c == b'\\'
    then codes "\\\\"
    else if ltb c 32 || is_lead c || is_trail c
    then unicode_escape c
    else c ∷ []

unfoldable pub quote_units : Str → Str
quote_units [] = []
quote_units (c ∷ []) = escape c
quote_units (c ∷ d ∷ s) =
    let pair = c ∷ d ∷ quote_units s in
    let single = escape c ++ quote_units (d ∷ s) in if is_lead c && is_trail d then pair else single

-- JSON.stringify of a string
unfoldable pub quote : Str → Str
quote s = b'"' ∷ quote_units s ++ b'"' ∷ []

-- Array.prototype.join(",")
unfoldable pub join_rest : List Str → Str
join_rest [] = []
join_rest (x ∷ xs) = b',' ∷ x ++ join_rest xs

unfoldable pub join : List Str → Str
join [] = []
join (x ∷ xs) = x ++ join_rest xs

-- Array.prototype.map with a function that may throw: the first error ends it.
unfoldable pub sequence : List (Throws Str) → Throws (List Str)
sequence [] = ok []
sequence (m ∷ ms) = do s ← m; rest ← sequence ms; ok (s ∷ rest)

-- (a, b) => (a < b ? -1 : a > b ? 1 : 0), on the keys
abbrev pub key_lt {ℓ} : {A : Type ℓ} → Str × A → Str × A → Bool
key_lt a b = str_lt a.0 b.0

unfoldable pub encode_entry : Str × Throws Str → Throws Str
encode_entry (key, value) = do s ← value; ok (quote key ++ b':' ∷ s)

-- A field's value is encoded before the fields are sorted, and its error is raised after, in the
-- sorted order, as in the source.
unfoldable mutual
  pub encode : Value → Throws Str
  encode null = ok (codes "null")
  encode (boolean true) = ok (codes "true")
  encode (boolean false) = ok (codes "false")
  encode (integer negative n) =
      if leb n max_safe_integer then ok (stringify_integer negative n) else throw unsafe_number
  encode non_integer = throw unsafe_number
  encode (string s) = ok (quote s)
  encode (array xs) = do parts ← sequence (encode_items xs); ok (b'[' ∷ join parts ++ b']' ∷ [])
  encode (object fs) = do
    parts ← sequence (map encode_entry (sort_by key_lt (encode_fields fs)))
    ok (b'{' ∷ join parts ++ b'}' ∷ [])
  encode unsupported = throw unsupported_type

  pub encode_items : Items → List (Throws Str)
  encode_items nil = []
  encode_items (cons x xs) = encode x ∷ encode_items xs

  pub encode_fields : Fields → List (Str × Throws Str)
  encode_fields end = []
  encode_fields (field key value fs) = (key, encode value) ∷ encode_fields fs

unfoldable pub canonicalize : Value → Throws Str
canonicalize value = encode value
