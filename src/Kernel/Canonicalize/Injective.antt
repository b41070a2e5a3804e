-- ===== src/Kernel/Canonicalize/Injective.antt =====
-- `canonicalize` of hashing/canonicalize.ts: which values have one text.
use verity_os_v.Base.{
  ℕ, ◌+◌, Str, List, [], ◌∷◌, some, map, ok, ◌≡◌, ◌≢◌, refl, sym, ap, ◌∙◌, arith, append-nil, All,
  str_lt, str_lt-asym, str_lt_trans, sort-Perm, AllComparable, Comparable, Bool-cases, inl, inr,
  str_lt-connex,
}
use mathlib.Core.List.{Permᴰ}
use verity_os_v.Kernel.Error.{Throws}
use verity_os_v.Kernel.Canonicalize.{Value, object, canonicalize, encode, encode_fields, key_lt}
use verity_os_v.Kernel.Canonicalize.Decode.{read_value}
use verity_os_v.Kernel.Canonicalize.Normal.{to_fields, normal, print, size}
use verity_os_v.Kernel.Canonicalize.Print.{encode-value}
use verity_os_v.Kernel.Canonicalize.ReadBack.{read-value}

-- Reading the text of a value gives its normal form, and leaves nothing.
pub read-canonicalize :
    (v : Value) (s : Str)
    → canonicalize v ≡ ok s
    → (fuel : ℕ) × (read_value fuel s ≡ some (normal v, []))
unfolding canonicalize
read-canonicalize v s h =
    let (es, pl) = encode-value v s h in
    (
      size (normal v),
      rw es (rw append-nil at (read-value (normal v) (size (normal v)) [] (omega arith) pl tt)),
    )

-- Two values with one text have one normal form.
pub canonicalize-injective :
    (v w : Value) (s : Str) → canonicalize v ≡ ok s → canonicalize w ≡ ok s → normal v ≡ normal w
unfolding canonicalize
canonicalize-injective v w s h k =
    let (ev, pv) = encode-value v s h in
    let (ew, pw) = encode-value w s k in
    let fuel = size (normal v) + size (normal w) in
    let rv = read-value (normal v) fuel [] (omega arith) pv tt in
    let rw' = read-value (normal w) fuel [] (omega arith) pw tt in
    let same : print (normal v) ≡ print (normal w) = sym ev ∙ ew in cc (rv, rw', same)

-- No key stands twice.
abbrev pub DistinctKeys : List (Str × Value) → Type 0
DistinctKeys [] = Unit
DistinctKeys (a ∷ l) = All (λ b. a.0 ≢ b.0) l × DistinctKeys l

abbrev to_encoded : Str × Value → Str × Throws Str
to_encoded e = (e.0, encode e.1)

encode_fields-to_fields : (l : List (Str × Value)) → encode_fields (to_fields l) ≡ map to_encoded l
unfolding encode to_fields
encode_fields-to_fields [] = refl
encode_fields-to_fields ((k, v) ∷ l) = rw (encode_fields-to_fields l)

key-Comparable : (a b : Str × Throws Str) → a.0 ≢ b.0 → Comparable key_lt a b
key-Comparable a b ne = elim (Bool-cases (str_lt a.0 b.0)) [
  | inl e ↦ inl e
  | inr e ↦ elim (Bool-cases (str_lt b.0 a.0)) [
    | inl f ↦ inr f
    | inr f ↦ absurd (ne (str_lt-connex a.0 b.0 e f))
  ]
]

All-Comparable :
    (a : Str × Value) (l : List (Str × Value))
    → All (λ b. a.0 ≢ b.0) l
    → All (Comparable key_lt (to_encoded a)) (map to_encoded l)
All-Comparable a [] h = tt
All-Comparable a (b ∷ l) h =
    (key-Comparable (to_encoded a) (to_encoded b) h.0, All-Comparable a l h.1)

DistinctKeys-AllComparable :
    (l : List (Str × Value)) → DistinctKeys l → AllComparable key_lt (map to_encoded l)
DistinctKeys-AllComparable [] h = tt
DistinctKeys-AllComparable (a ∷ l) h = (All-Comparable a l h.0, DistinctKeys-AllComparable l h.1)

Permᴰ-map :
    {xs ys : List (Str × Value)} → Permᴰ xs ys → Permᴰ (map to_encoded xs) (map to_encoded ys)
Permᴰ-map Permᴰ.nil = Permᴰ.nil
Permᴰ-map (Permᴰ.cons e p) = Permᴰ.cons (ap to_encoded e) (Permᴰ-map p)
Permᴰ-map (Permᴰ.swap e f) = Permᴰ.swap (ap to_encoded e) (ap to_encoded f)
Permᴰ-map (Permᴰ.trans p q) = Permᴰ.trans (Permᴰ-map p) (Permᴰ-map q)

-- An object's text, or the error raised for it, does not depend on the order of its keys, where no
-- key stands twice.
pub canonicalize-Perm :
    (xs ys : List (Str × Value))
    → DistinctKeys xs
    → Permᴰ xs ys
    → canonicalize (object (to_fields xs)) ≡ canonicalize (object (to_fields ys))
unfolding canonicalize encode
canonicalize-Perm xs ys d p = rw (
  encode_fields-to_fields xs,
  encode_fields-to_fields ys,
  sort-Perm key_lt (λ a b. str_lt-asym a.0 b.0) (λ a b c. str_lt_trans a.0 b.0 c.0) (Permᴰ-map p)
      (DistinctKeys-AllComparable xs d),
)
