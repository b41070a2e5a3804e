-- ===== src/Kernel/Hash/Wellformed.antt =====
-- The canonical text of an object of scalars, and its surrogates.
use verity_os_v.Base.{
  ℕ, zero, suc, ◌+◌, ◌/◌, ◌%◌, ◌<◌, Str, sort_by, Bool, true, false, ◌&&◌, ◌||◌, List, [], ◌∷◌,
  ◌++◌, if◌then◌else◌, ltb, ◌≡◌, refl, arith, All, sort-All, &&-true, ◌==◌,
}
use verity_os_v.Kernel.Canonicalize.{
  Value, null, boolean, integer, non_integer, string, array, object, unsupported, Fields, quote,
  quote_units, escape, unicode_escape, hex_unit, is_lead, is_trail, decimal, decimal_digits,
  stringify_integer, key_lt,
}
use verity_os_v.Kernel.Canonicalize.Normal.{
  normal, normal_fields, to_fields, print, print_fields, print_more_fields,
}
use verity_os_v.Kernel.Utf8.WellFormed.{WellFormed, nil, unit, pair, WellFormed-append}

-- A JavaScript string: its elements are 16-bit code units.
abbrev pub IsUnits : Str → Type 0
IsUnits = All (λ c. c < 65536)

ascii : (c : ℕ) {s : Str} → c < 128 → WellFormed s → WellFormed (c ∷ s)
ascii c h w = unit c (ground arith) (omega arith) w

hex_unit-lt : (d : ℕ) → d < 16 → hex_unit d < 128
unfolding hex_unit
hex_unit-lt d h = ground arith

unicode_escape-WellFormed : (c : ℕ) → c < 65536 → WellFormed (unicode_escape c)
unfolding unicode_escape
unicode_escape-WellFormed c h = ascii b'\\' (omega arith) (
    ascii b'u' (omega arith) (
      ascii _ (hex_unit-lt (c / 4096) (omega arith)) (
        ascii _ (hex_unit-lt (c / 256 % 16) (omega arith)) (
          ascii _ (hex_unit-lt (c / 16 % 16) (omega arith))
            (ascii _ (hex_unit-lt (c % 16) (omega arith)) nil)))))

two : (c d : ℕ) → c < 128 → d < 128 → WellFormed (c ∷ d ∷ [])
two c d h k = ascii c h (ascii d k nil)

WellFormed-if :
    (b : Bool) {s t : Str}
    → (b ≡ true → WellFormed s)
    → (b ≡ false → WellFormed t)
    → WellFormed (if b then s else t)
WellFormed-if true h k = h refl
WellFormed-if false h k = k refl

escape-WellFormed : (c : ℕ) → c < 65536 → WellFormed (escape c)
unfolding escape
escape-WellFormed c h =
    WellFormed-if (c == 8) (λ _. two b'\\' b'b' (omega arith) (omega arith))
      λ _.
        WellFormed-if (c == 9) (λ _. two b'\\' b't' (omega arith) (omega arith))
          λ _.
            WellFormed-if (c == 10) (λ _. two b'\\' b'n' (omega arith) (omega arith))
              λ _.
                WellFormed-if (c == 12) (λ _. two b'\\' b'f' (omega arith) (omega arith))
                  λ _.
                    WellFormed-if (c == 13) (λ _. two b'\\' b'r' (omega arith) (omega arith))
                      λ _.
                        WellFormed-if (c == b'"') (λ _. two b'\\' b'"' (omega arith) (omega arith))
                          λ _.
                            WellFormed-if (c == b'\\')
                              (λ _. two b'\\' b'\\' (omega arith) (omega arith))
                              λ _.
                                WellFormed-if (ltb c 32 || is_lead c || is_trail c)
                                  (λ _. unicode_escape-WellFormed c h)
                                  (λ plain. unit c (ground arith) h nil)

quote_units-WellFormed : (s : Str) → IsUnits s → WellFormed (quote_units s)
unfolding quote_units
quote_units-WellFormed [] h = nil
quote_units-WellFormed (c ∷ []) h = escape-WellFormed c h.0
quote_units-WellFormed (c ∷ d ∷ s) h =
    WellFormed-if (is_lead c && is_trail d)
      (λ both.
        let (hc, hd) = &&-true (is_lead c) (is_trail d) both in
        pair c d hc hd (quote_units-WellFormed s h.1.1))
      (λ _. WellFormed-append (escape-WellFormed c h.0) (quote_units-WellFormed (d ∷ s) h.1))

quote-WellFormed : (s : Str) → IsUnits s → WellFormed (quote s)
unfolding quote
quote-WellFormed s h =
    ascii b'"' (omega arith)
      (WellFormed-append (quote_units-WellFormed s h) (ascii b'"' (omega arith) nil))

decimal-WellFormed : (fuel n : ℕ) → WellFormed (decimal_digits fuel n)
unfolding decimal_digits
decimal-WellFormed zero n = nil
decimal-WellFormed (suc fuel) n =
    WellFormed-if (ltb n 10) (λ e. ascii (b'0' + n) (ground arith) nil)
      (λ _.
        WellFormed-append (decimal-WellFormed fuel (n / 10))
          (ascii (b'0' + n % 10) (omega arith) nil))

-- Null, a non-negative integer or a string of code units.
abbrev pub IsScalar : Value → Type 0
IsScalar null = Unit
IsScalar (integer false n) = Unit
IsScalar (string s) = IsUnits s
IsScalar _ = ⊥

print-WellFormed : (v : Value) → IsScalar v → WellFormed (print v)
unfolding print stringify_integer decimal
print-WellFormed null h =
    ascii b'n' (omega arith)
      (ascii b'u' (omega arith) (ascii b'l' (omega arith) (ascii b'l' (omega arith) nil)))
print-WellFormed (boolean b) h = absurd h
print-WellFormed (integer false n) h = decimal-WellFormed (suc n) n
print-WellFormed (integer true n) h = absurd h
print-WellFormed non_integer h = absurd h
print-WellFormed (string s) h = quote-WellFormed s h
print-WellFormed (array xs) h = absurd h
print-WellFormed (object fs) h = absurd h
print-WellFormed unsupported h = absurd h

abbrev pub IsScalarField : Str × Value → Type 0
IsScalarField e = IsUnits e.0 × IsScalar e.1

entry-WellFormed :
    (k : Str) (v : Value) → IsUnits k → IsScalar v → WellFormed (quote k ++ b':' ∷ print v)
entry-WellFormed k v hk hv =
    WellFormed-append (quote-WellFormed k hk) (ascii b':' (omega arith) (print-WellFormed v hv))

more_fields-WellFormed :
    (l : List (Str × Value)) → All IsScalarField l → WellFormed (print_more_fields (to_fields l))
unfolding print_more_fields to_fields
more_fields-WellFormed [] h = ascii b'}' (omega arith) nil
more_fields-WellFormed ((k, v) ∷ l) h =
    ascii b',' (omega arith)
      (WellFormed-append (entry-WellFormed k v h.0.0 h.0.1) (more_fields-WellFormed l h.1))

fields-WellFormed :
    (l : List (Str × Value)) → All IsScalarField l → WellFormed (print_fields (to_fields l))
unfolding print_fields to_fields
fields-WellFormed [] h = ascii b'}' (omega arith) nil
fields-WellFormed ((k, v) ∷ l) h =
    WellFormed-append (entry-WellFormed k v h.0.0 h.0.1) (more_fields-WellFormed l h.1)

pub object-WellFormed :
    (fs : Fields) → All IsScalarField (normal_fields fs) → WellFormed (print (normal (object fs)))
unfolding print normal
object-WellFormed fs h = ascii b'{' (omega arith) (
    fields-WellFormed (sort_by key_lt (normal_fields fs))
      (sort-All key_lt IsScalarField (normal_fields fs) h))
