-- ===== src/Kernel/Utf8.antt =====
-- TextEncoder: the UTF-8 bytes of a string, with U+FFFD for a surrogate that stands alone.
pub mod WellFormed
use verity_os_v.Base.{
  ℕ, ◌+◌, ◌-◌, ◌*◌, ◌/◌, ◌%◌, Str, ◌&&◌, ◌||◌, [], ◌∷◌, ◌++◌, if◌then◌else◌, ltb,
}
use verity_os_v.Kernel.Noble.{Bytes}
use verity_os_v.Kernel.Canonicalize.{is_lead, is_trail}

unfoldable pub utf8_unit : ℕ → Bytes
utf8_unit c =
    if ltb c 0x80
    then c ∷ []
    else if ltb c 0x800
    then (0xC0 + c / 64) ∷ (0x80 + c % 64) ∷ []
    else if is_lead c || is_trail c
    then 0xEF ∷ 0xBF ∷ 0xBD ∷ []
    else (0xE0 + c / 4096) ∷ (0x80 + c / 64 % 64) ∷ (0x80 + c % 64) ∷ []

-- The code point of a surrogate pair.
abbrev pub code_point : ℕ → ℕ → ℕ
code_point c d = 0x10000 + (c - 0xD800) * 1024 + (d - 0xDC00)

unfoldable pub utf8_pair : ℕ → Bytes
utf8_pair p =
    (0xF0 + p / 262144) ∷ (0x80 + p / 4096 % 64) ∷ (0x80 + p / 64 % 64) ∷ (0x80 + p % 64) ∷ []

unfoldable pub utf8 : Str → Bytes
utf8 [] = []
utf8 (c ∷ []) = utf8_unit c
utf8 (c ∷ d ∷ s) =
    let pair = utf8_pair (code_point c d) ++ utf8 s in
    let single = utf8_unit c ++ utf8 (d ∷ s) in if is_lead c && is_trail d then pair else single
