-- ===== src/Kernel/Canonicalize/Decode.antt =====
-- A reader of JSON text, independent of the encoder: what a text says. It takes compact JSON with
-- integers, and gives back the rest of the text.
use verity_os_v.Base.{
  ℕ, zero, suc, ◌+◌, ◌-◌, ◌*◌, Str, Bool, true, false, ◌&&◌, [], ◌∷◌, Option, none, some,
  if◌then◌else◌, leb, ◌==◌,
}
use verity_os_v.Kernel.Canonicalize.{
  Value, null, boolean, integer, string, array, object, Items, nil, cons, Fields, end, field,
}

-- Where in a string literal the reader is: in the \u escape with the digits that are left.
pub data Mode : Type 0 where
  plain escaped : Mode
  unicode : ℕ → ℕ → Mode

unfoldable pub hex_value : ℕ → ℕ
hex_value c = if leb c b'9' then c - b'0' else c - b'a' + 10

abbrev pub push : ℕ → Option (Str × Str) → Option (Str × Str)
push c none = none
push c (some (s, rest)) = some (c ∷ s, rest)

unfoldable pub unescape : ℕ → ℕ
unescape c =
    if c == b'b'
    then 8
    else if c == b't'
    then 9
    else if c == b'n'
    then 10
    else if c == b'f'
    then 12
    else if c == b'r'
    then 13
    else c

-- The rest of a string literal, up to its closing quote.
unfoldable pub read_string : Mode → Str → Option (Str × Str)
read_string mode [] = none
read_string plain (c ∷ s) =
    let escape = read_string escaped s in
    let more = read_string plain s in
    if c == b'"' then some ([], s) else if c == b'\\' then escape else push c more
read_string escaped (c ∷ s) =
    let code = read_string (unicode 3 0) s in
    let more = read_string plain s in if c == b'u' then code else push (unescape c) more
read_string (unicode zero acc) (c ∷ s) = push (acc * 16 + hex_value c) (read_string plain s)
read_string (unicode (suc k) acc) (c ∷ s) = read_string (unicode k (acc * 16 + hex_value c)) s

abbrev pub is_digit : ℕ → Bool
is_digit c = leb b'0' c && leb c b'9'

unfoldable pub read_digits : ℕ → Str → ℕ × Str
read_digits acc [] = (acc, [])
read_digits acc (c ∷ s) =
    let more = read_digits (acc * 10 + (c - b'0')) s in if is_digit c then more else (acc, c ∷ s)

-- An expected character.
unfoldable pub expect : ℕ → Str → Option Str
expect c [] = none
expect c (d ∷ s) = if c == d then some s else none

infixl 5 ◌>>=◌
abbrev pub ◌>>=◌ : {A B : Type 0} → Option A → (A → Option B) → Option B
none >>= f = none
some a >>= f = f a

-- Fuel bounds the nesting and the number of elements.
unfoldable mutual
  pub read_value : ℕ → Str → Option (Value × Str)
  read_value zero s = none
  read_value (suc fuel) [] = none
  read_value (suc fuel) (c ∷ s) =
      let text = read_string plain s >>= λ r. some (string r.0, r.1) in
      let items = read_items fuel s >>= λ r. some (array r.0, r.1) in
      let fields = read_fields fuel s >>= λ r. some (object r.0, r.1) in
      let negative = read_digits 0 s in
      let positive = read_digits 0 (c ∷ s) in
      if c == b'n'
      then (expect b'u' s >>= λ s. expect b'l' s >>= λ s. expect b'l' s >>= λ s. some (null, s))
      else if c == b't'
      then (expect b'r' s >>= λ s.
          expect b'u' s >>= λ s. expect b'e' s >>= λ s. some (boolean true, s))
      else if c == b'f'
      then (expect b'a' s >>= λ s. expect b'l' s >>= λ s.
          expect b's' s >>= λ s. expect b'e' s >>= λ s. some (boolean false, s))
      else if c == b'"'
      then text
      else if c == b'['
      then items
      else if c == b'{'
      then fields
      else if c == b'-'
      then some (integer true negative.0, negative.1)
      else if is_digit c
      then some (integer false positive.0, positive.1)
      else none

  -- After `[`.
  pub read_items : ℕ → Str → Option (Items × Str)
  read_items zero s = none
  read_items (suc fuel) [] = none
  read_items (suc fuel) (c ∷ s) =
      let items = read_value fuel (c ∷ s) >>= λ v.
      read_more_items fuel v.1 >>= λ xs. some (cons v.0 xs.0, xs.1) in
      if c == b']' then some (nil, s) else items

  pub read_more_items : ℕ → Str → Option (Items × Str)
  read_more_items zero s = none
  read_more_items (suc fuel) [] = none
  read_more_items (suc fuel) (c ∷ s) =
      let items =
        read_value fuel s >>= λ v. read_more_items fuel v.1 >>= λ xs. some (cons v.0 xs.0, xs.1) in
      if c == b']' then some (nil, s) else if c == b',' then items else none

  -- After `{`.
  pub read_fields : ℕ → Str → Option (Fields × Str)
  read_fields zero s = none
  read_fields (suc fuel) [] = none
  read_fields (suc fuel) (c ∷ s) =
      let fields = read_entry fuel (c ∷ s) in if c == b'}' then some (end, s) else fields

  pub read_more_fields : ℕ → Str → Option (Fields × Str)
  read_more_fields zero s = none
  read_more_fields (suc fuel) [] = none
  read_more_fields (suc fuel) (c ∷ s) =
      let fields = read_entry fuel s in
      if c == b'}' then some (end, s) else if c == b',' then fields else none

  -- A key, its value, and the fields behind them.
  pub read_entry : ℕ → Str → Option (Fields × Str)
  read_entry zero s = none
  read_entry (suc fuel) s = expect b'"' s >>= λ s. read_string plain s >>= λ k.
      expect b':' k.1 >>= λ s.
      read_value fuel s >>= λ v. read_more_fields fuel v.1 >>= λ fs. some (field k.0 v.0 fs.0, fs.1)
