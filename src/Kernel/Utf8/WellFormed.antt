-- ===== src/Kernel/Utf8/WellFormed.antt =====
-- Text whose surrogates stand in pairs, and a reader of its UTF-8 bytes.
use verity_os_v.Base.{
  ℕ, zero, suc, ◌+◌, ◌-◌, ◌*◌, ◌/◌, ◌%◌, ◌<◌, ◌≤◌, Str, true, false, ◌||◌, [], ◌∷◌, ◌++◌,
  if◌then◌else◌, ltb, ◌≡◌, refl, sym, ap, ◌∙◌, arith, Bool-cases, inl, inr, append-nil,
}
use verity_os_v.Kernel.Noble.{Bytes}
use verity_os_v.Kernel.Canonicalize.{is_lead, is_trail}
use verity_os_v.Kernel.Utf8.{utf8, utf8_unit, utf8_pair, code_point}

pub data WellFormed : Str → Type 0 where
  nil : WellFormed []
  unit :
      (c : ℕ) {s : Str}
      → (is_lead c || is_trail c) ≡ false
      → c < 65536
      → WellFormed s
      → WellFormed (c ∷ s)
  pair :
      (c d : ℕ) {s : Str}
      → is_lead c ≡ true
      → is_trail d ≡ true
      → WellFormed s
      → WellFormed (c ∷ d ∷ s)

pub WellFormed-append : {s t : Str} → WellFormed s → WellFormed t → WellFormed (s ++ t)
WellFormed-append nil h = h
WellFormed-append (unit c p q r) h = unit c p q (WellFormed-append r h)
WellFormed-append (pair c d p q r) h = pair c d p q (WellFormed-append r h)

-- A reader of UTF-8: the continuation bytes that are still wanted, and the bits so far.
read_utf8 : ℕ → ℕ → Bytes → Str
read_utf8 k acc [] = []
read_utf8 zero acc (b ∷ bs) =
    let one = b ∷ read_utf8 0 0 bs in
    let two = read_utf8 1 (b - 0xC0) bs in
    let three = read_utf8 2 (b - 0xE0) bs in
    let four = read_utf8 3 (b - 0xF0) bs in
    if ltb b 0x80 then one else if ltb b 0xE0 then two else if ltb b 0xF0 then three else four
read_utf8 (suc zero) acc (b ∷ bs) =
    let p = acc * 64 + (b - 0x80) in
    let rest = read_utf8 0 0 bs in
    if ltb p 65536
    then p ∷ rest
    else (0xD800 + (p - 65536) / 1024) ∷ (0xDC00 + (p - 65536) % 1024) ∷ rest
read_utf8 (suc (suc k)) acc (b ∷ bs) = read_utf8 (suc k) (acc * 64 + (b - 0x80)) bs

-- One step of the reader, by the class of the first byte.
read_utf8-ascii : (b : ℕ) (bs : Bytes) → b < 0x80 → read_utf8 0 0 (b ∷ bs) ≡ b ∷ read_utf8 0 0 bs
unfolding read_utf8
read_utf8-ascii b bs h = ground arith

read_utf8-two :
    (b : ℕ) (bs : Bytes) → 0x80 ≤ b → b < 0xE0 → read_utf8 0 0 (b ∷ bs) ≡ read_utf8 1 (b - 0xC0) bs
unfolding read_utf8
read_utf8-two b bs h k = ground arith

read_utf8-three :
    (b : ℕ) (bs : Bytes) → 0xE0 ≤ b → b < 0xF0 → read_utf8 0 0 (b ∷ bs) ≡ read_utf8 2 (b - 0xE0) bs
unfolding read_utf8
read_utf8-three b bs h k = ground arith

read_utf8-four :
    (b : ℕ) (bs : Bytes) → 0xF0 ≤ b → read_utf8 0 0 (b ∷ bs) ≡ read_utf8 3 (b - 0xF0) bs
unfolding read_utf8
read_utf8-four b bs h = ground arith

read_utf8-more :
    (k acc b : ℕ) (bs : Bytes)
    → read_utf8 (suc (suc k)) acc (b ∷ bs) ≡ read_utf8 (suc k) (acc * 64 + (b - 0x80)) bs
unfolding read_utf8
read_utf8-more k acc b bs = refl

read_utf8-last :
    (acc b p : ℕ) (bs : Bytes)
    → acc * 64 + (b - 0x80) ≡ p
    → p < 65536
    → read_utf8 1 acc (b ∷ bs) ≡ p ∷ read_utf8 0 0 bs
unfolding read_utf8
read_utf8-last acc b p bs e h = rw e (ground arith)

read_utf8-last_pair :
    (acc b p : ℕ) (bs : Bytes)
    → acc * 64 + (b - 0x80) ≡ p
    → 65536 ≤ p
    → read_utf8 1 acc (b ∷ bs)
      ≡ (0xD800 + (p - 65536) / 1024) ∷ (0xDC00 + (p - 65536) % 1024) ∷ read_utf8 0 0 bs
unfolding read_utf8
read_utf8-last_pair acc b p bs e h = rw e (ground arith)

read_utf8-unit :
    (c : ℕ) (bs : Bytes)
    → (is_lead c || is_trail c) ≡ false
    → c < 65536
    → read_utf8 0 0 (utf8_unit c ++ bs) ≡ c ∷ read_utf8 0 0 bs
unfolding utf8_unit
read_utf8-unit c bs h lt = elim (Bool-cases (ltb c 0x80)) [
  | inl one ↦ rw one (read_utf8-ascii c bs (ground arith))
  | inr more ↦ elim (Bool-cases (ltb c 0x800)) [
    | inl two ↦
        rw (more, two)
          (read_utf8-two (0xC0 + c / 64) ((0x80 + c % 64) ∷ bs) (omega arith) (ground arith)
            ∙ read_utf8-last (0xC0 + c / 64 - 0xC0) (0x80 + c % 64) c bs (omega arith) lt)
    | inr three ↦
        rw (more, three, h)
          (read_utf8-three (0xE0 + c / 4096) ((0x80 + c / 64 % 64) ∷ (0x80 + c % 64) ∷ bs)
              (omega arith) (omega arith)
            ∙ read_utf8-more 0 (0xE0 + c / 4096 - 0xE0) (0x80 + c / 64 % 64) ((0x80 + c % 64) ∷ bs)
            ∙ read_utf8-last ((0xE0 + c / 4096 - 0xE0) * 64 + (0x80 + c / 64 % 64 - 0x80))
                (0x80 + c % 64) c bs (omega arith) lt)
  ]
]

read_utf8-point :
    (p : ℕ) (bs : Bytes)
    → 65536 ≤ p
    → p < 1114112
    → read_utf8 0 0 (utf8_pair p ++ bs)
      ≡ (0xD800 + (p - 65536) / 1024) ∷ (0xDC00 + (p - 65536) % 1024) ∷ read_utf8 0 0 bs
unfolding utf8_pair
read_utf8-point p bs lo hi =
    let b1 : ℕ = 0x80 + p / 4096 % 64 in
    let b2 : ℕ = 0x80 + p / 64 % 64 in
    let b3 : ℕ = 0x80 + p % 64 in
    let a0 : ℕ = 0xF0 + p / 262144 - 0xF0 in
    let a1 : ℕ = a0 * 64 + (b1 - 0x80) in
    let a2 : ℕ = a1 * 64 + (b2 - 0x80) in
    read_utf8-four (0xF0 + p / 262144) (b1 ∷ b2 ∷ b3 ∷ bs) (omega arith)
    ∙ read_utf8-more 1 a0 b1 (b2 ∷ b3 ∷ bs)
    ∙ read_utf8-more 0 a1 b2 (b3 ∷ bs)
    ∙ read_utf8-last_pair a2 b3 p bs (omega arith) lo

lead_range : (c : ℕ) → is_lead c ≡ true → (0xD800 ≤ c) × (c ≤ 0xDBFF)
lead_range c h = ground arith

trail_range : (c : ℕ) → is_trail c ≡ true → (0xDC00 ≤ c) × (c ≤ 0xDFFF)
trail_range c h = ground arith

read_utf8-pair :
    (c d : ℕ) (bs : Bytes)
    → is_lead c ≡ true
    → is_trail d ≡ true
    → read_utf8 0 0 (utf8_pair (code_point c d) ++ bs) ≡ c ∷ d ∷ read_utf8 0 0 bs
read_utf8-pair c d bs hc hd =
    let (c0, c1) = lead_range c hc in
    let (d0, d1) = trail_range d hd in
    let ec : 0xD800 + (code_point c d - 65536) / 1024 ≡ c = omega arith in
    let ed : 0xDC00 + (code_point c d - 65536) % 1024 ≡ d = omega arith in
    read_utf8-point (code_point c d) bs (omega arith) (omega arith)
    ∙ ap (λ x. x ∷ (0xDC00 + (code_point c d - 65536) % 1024) ∷ read_utf8 0 0 bs) ec
    ∙ ap (λ x. c ∷ x ∷ read_utf8 0 0 bs) ed

utf8-unit :
    (c : ℕ) (s : Str) → (is_lead c || is_trail c) ≡ false → utf8 (c ∷ s) ≡ utf8_unit c ++ utf8 s
unfolding utf8
utf8-unit c [] h = sym (append-nil (utf8_unit c))
utf8-unit c (d ∷ s) h = let e : is_lead c ≡ false = ground arith in rw e

utf8-pair :
    (c d : ℕ) (s : Str)
    → is_lead c ≡ true
    → is_trail d ≡ true
    → utf8 (c ∷ d ∷ s) ≡ utf8_pair (code_point c d) ++ utf8 s
unfolding utf8
utf8-pair c d s hc hd = rw (hc, hd)

read_utf8-utf8 : {s : Str} → WellFormed s → read_utf8 0 0 (utf8 s) ≡ s
read_utf8-utf8 nil = unfold read_utf8 utf8 in refl
read_utf8-utf8 (unit c {s} p q h) =
    rw (utf8-unit c s p) (read_utf8-unit c (utf8 s) p q ∙ ap (λ t. c ∷ t) (read_utf8-utf8 h))
read_utf8-utf8 (pair c d {s} p q h) =
    rw (utf8-pair c d s p q)
      (read_utf8-pair c d (utf8 s) p q ∙ ap (λ t. c ∷ d ∷ t) (read_utf8-utf8 h))

-- Two strings whose surrogates stand in pairs and that have one UTF-8 encoding are equal.
pub utf8-injective : {s t : Str} → WellFormed s → WellFormed t → utf8 s ≡ utf8 t → s ≡ t
utf8-injective hs ht e = cc (read_utf8-utf8 hs, read_utf8-utf8 ht)
