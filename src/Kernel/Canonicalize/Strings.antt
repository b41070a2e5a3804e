-- ===== src/Kernel/Canonicalize/Strings.antt =====
-- JSON.stringify of a string and the reader of its escapes.
use verity_os_v.Base.{
  ℕ, ◌/◌, ◌%◌, ◌<◌, Str, Bool, true, ◌&&◌, ◌||◌, [], ◌∷◌, ◌++◌, some, ltb, ◌≡◌, refl, arith,
  append_assoc, Bool-cases, inl, inr, ap, ◌∙◌,
}
use verity_os_v.Kernel.Canonicalize.{
  quote_units, quote, escape, unicode_escape, hex_unit, is_lead, is_trail,
}
use verity_os_v.Kernel.Canonicalize.Decode.{plain, read_string, push, unescape, hex_value}

hex_value-hex_unit : (d : ℕ) → d < 16 → hex_value (hex_unit d) ≡ d
unfolding hex_value hex_unit
hex_value-hex_unit d h = ground arith

read_string-unicode :
    (c : ℕ) (t : Str)
    → c < 65536
    → read_string plain (unicode_escape c ++ t) ≡ push c (read_string plain t)
unfolding read_string unicode_escape
read_string-unicode c t h =
    rw
      (
        hex_value-hex_unit (c / 4096) (omega arith),
        hex_value-hex_unit (c / 256 % 16) (omega arith),
        hex_value-hex_unit (c / 16 % 16) (omega arith),
        hex_value-hex_unit (c % 16) (omega arith),
      )
      (ap (λ x. push x (read_string plain t)) (omega arith))

-- A control character or a lone surrogate.
is_coded : ℕ → Bool
is_coded c = ltb c 32 || is_lead c || is_trail c

is_coded-lt : (c : ℕ) → is_coded c ≡ true → c < 65536
unfolding is_coded
is_coded-lt c h = ground arith

read_string-escape :
    (c : ℕ) (t : Str) → read_string plain (escape c ++ t) ≡ push c (read_string plain t)
unfolding escape read_string unescape
read_string-escape c t = ground (arith, read_string-unicode c t)

read_string-surrogate :
    (c : ℕ) (t : Str)
    → (is_lead c || is_trail c) ≡ true
    → read_string plain (c ∷ t) ≡ push c (read_string plain t)
unfolding read_string
read_string-surrogate c t h = ground arith

read_string-quote_units : (s r : Str) → read_string plain (quote_units s ++ b'"' ∷ r) ≡ some (s, r)
unfolding quote_units
read_string-quote_units [] r = unfold read_string in refl
read_string-quote_units (c ∷ []) r = read_string-escape c (b'"' ∷ r) ∙ (unfold read_string in refl)
read_string-quote_units (c ∷ d ∷ s) r = elim (Bool-cases (is_lead c && is_trail d)) [
  | inl pair ↦ rw pair (
      read_string-surrogate c (d ∷ quote_units s ++ b'"' ∷ r) (ground arith)
      ∙ ap (push c) (read_string-surrogate d (quote_units s ++ b'"' ∷ r) (ground arith))
      ∙ ap (λ o. push c (push d o)) (read_string-quote_units s r))
  | inr single ↦
      rw (single, append_assoc)
        (read_string-escape c (quote_units (d ∷ s) ++ b'"' ∷ r)
          ∙ ap (push c) (read_string-quote_units (d ∷ s) r))
]

-- The text of a string, behind its opening quote, is read as that string and the rest.
pub read_string-quote :
    (s r : Str) → (t : Str) × (quote s ++ r ≡ b'"' ∷ t) × (read_string plain t ≡ some (s, r))
unfolding quote
read_string-quote s r = (quote_units s ++ b'"' ∷ r, rw append_assoc, read_string-quote_units s r)
