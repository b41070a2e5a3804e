-- ===== src/Kernel/Canonicalize/Print.antt =====
-- `encode` of hashing/canonicalize.ts and the text of the normal form.
use verity_os_v.Base.{
  ℕ, Str, sort_by, Bool, true, false, List, [], ◌∷◌, ◌++◌, map, ok, >>=-eq-ok, ◌≡◌, refl, arith,
  All, sort-All, sort-All_back, map-sort, append_assoc,
}
use verity_os_v.Kernel.Error.{Throws}
use verity_os_v.Kernel.Canonicalize.{
  Value, null, boolean, integer, non_integer, string, array, object, unsupported, Items, nil, cons,
  Fields, end, field, key_lt, stringify_integer, quote, encode, encode_items, encode_fields,
  encode_entry, sequence, join, join_rest,
}
use verity_os_v.Kernel.Canonicalize.Normal.{
  normal, normal_items, normal_fields, to_fields, print, print_items, print_more_items,
  print_fields, print_more_fields, is_plain, is_plain_items, is_plain_fields,
}

-- A field that was encoded, from its normal form.
abbrev encoded : Str × Value → Str × Throws Str
encoded e = (e.0, ok (print e.1))

entry_text : Str × Value → Str
entry_text e = quote e.0 ++ b':' ∷ print e.1

abbrev IsOk : Str × Throws Str → Type 0
IsOk e = (s : Str) × (e.1 ≡ ok s)

-- If the entries were all written, each value was.
sequence-IsOk :
    (l : List (Str × Throws Str)) (parts : List Str)
    → sequence (map encode_entry l) ≡ ok parts
    → All IsOk l
unfolding sequence encode_entry
sequence-IsOk [] parts h = tt
sequence-IsOk ((k, m) ∷ l) parts h =
    let (s, es, h') = >>=-eq-ok (encode_entry (k, m)) _ h in
    let (v, ev, _) = >>=-eq-ok m _ es in
    let (rest, er, _) = >>=-eq-ok (sequence (map encode_entry l)) _ h' in
    ((v, ev), sequence-IsOk l rest er)

sequence-encoded :
    (l : List (Str × Value)) → sequence (map encode_entry (map encoded l)) ≡ ok (map entry_text l)
unfolding sequence encode_entry entry_text
sequence-encoded [] = refl
sequence-encoded (e ∷ l) = rw (sequence-encoded l)

join-more_fields :
    (l : List (Str × Value))
    → join_rest (map entry_text l) ++ b'}' ∷ [] ≡ print_more_fields (to_fields l)
unfolding join_rest print_more_fields to_fields entry_text
join-more_fields [] = refl
join-more_fields ((k, v) ∷ l) = rw (append_assoc, join-more_fields l)

join-fields :
    (l : List (Str × Value)) → join (map entry_text l) ++ b'}' ∷ [] ≡ print_fields (to_fields l)
unfolding join print_fields to_fields entry_text
join-fields [] = refl
join-fields ((k, v) ∷ l) = rw (append_assoc, join-more_fields l)

is_plain-to_fields :
    (l : List (Str × Value))
    → All (λ e. is_plain e.1 ≡ true) l
    → is_plain_fields (to_fields l) ≡ true
unfolding is_plain_fields to_fields
is_plain-to_fields [] h = refl
is_plain-to_fields ((k, v) ∷ l) h = rw (h.0, is_plain-to_fields l h.1)

sort-encoded :
    (l : List (Str × Value)) → sort_by key_lt (map encoded l) ≡ map encoded (sort_by key_lt l)
sort-encoded l = map-sort key_lt key_lt encoded (λ a b. refl) l

encode-integer :
    (negative : Bool) (n : ℕ) (s : Str)
    → encode (integer negative n) ≡ ok s
    → (s ≡ print (normal (integer negative n))) × (is_plain (normal (integer negative n)) ≡ true)
unfolding encode normal print is_plain stringify_integer
encode-integer negative n s h = (ground arith, ground arith)

-- An object whose encoded fields are those of its normal form.
encode-object :
    (fs : Fields) (parts : List Str) (s : Str)
    → encode_fields fs ≡ map encoded (normal_fields fs)
    → All (λ e. is_plain e.1 ≡ true) (normal_fields fs)
    → sequence (map encode_entry (sort_by key_lt (encode_fields fs))) ≡ ok parts
    → ◌≡◌ {A = Throws Str} (ok (b'{' ∷ join parts ++ b'}' ∷ [])) (ok s)
    → (s ≡ print (normal (object fs))) × (is_plain (normal (object fs)) ≡ true)
unfolding print normal is_plain
encode-object fs parts s ef pl ep es =
    let sorted = sort_by key_lt (normal_fields fs) in
    let written : sequence (map encode_entry (map encoded sorted)) ≡ ok parts =
      rw (ef, sort-encoded (normal_fields fs)) at ep in
    let whole : parts ≡ map entry_text sorted = cc (sequence-encoded sorted) in
    (
      rw (← join-fields sorted, ← whole) (cc),
      is_plain-to_fields sorted (sort-All key_lt _ (normal_fields fs) pl),
    )

mutual
  unfolding encode normal print is_plain sequence join join_rest

  pub encode-value :
      (v : Value) (s : Str)
      → encode v ≡ ok s
      → (s ≡ print (normal v)) × (is_plain (normal v) ≡ true)
  encode-value null s h = (ground arith, refl)
  encode-value (boolean true) s h = (ground arith, refl)
  encode-value (boolean false) s h = (ground arith, refl)
  encode-value (integer negative n) s h = encode-integer negative n s h
  encode-value non_integer s h = cc
  encode-value (string x) s h = (ground arith, refl)
  encode-value (array xs) s h =
      let (parts, ep, h') = >>=-eq-ok (sequence (encode_items xs)) _ h in
      let (pr, pl) = encode-items xs parts ep in (ground (arith, pr), pl)
  encode-value (object fs) s h =
      let (parts, ep, h') =
        >>=-eq-ok (sequence (map encode_entry (sort_by key_lt (encode_fields fs)))) _ h in
      let (ef, pl) = encode-fields fs (
        sort-All_back key_lt IsOk (encode_fields fs)
          (sequence-IsOk (sort_by key_lt (encode_fields fs)) parts ep)) in
      encode-object fs parts s ef pl ep h'
  encode-value unsupported s h = cc

  encode-items :
      (xs : Items) (parts : List Str)
      → sequence (encode_items xs) ≡ ok parts
      → (join parts ++ b']' ∷ [] ≡ print_items (normal_items xs))
        × (is_plain_items (normal_items xs) ≡ true)
  encode-items nil parts h = (ground arith, refl)
  encode-items (cons x xs) parts h =
      let (s, es, h') = >>=-eq-ok (encode x) _ h in
      let (rest, er, h'') = >>=-eq-ok (sequence (encode_items xs)) _ h' in
      let (pr, pl) = encode-value x s es in
      let (ps, qs) = encode-more_items xs rest er in
      let whole : parts ≡ s ∷ rest = cc in (rw (whole, pr, append_assoc, ps), rw (pl, qs))

  encode-more_items :
      (xs : Items) (parts : List Str)
      → sequence (encode_items xs) ≡ ok parts
      → (join_rest parts ++ b']' ∷ [] ≡ print_more_items (normal_items xs))
        × (is_plain_items (normal_items xs) ≡ true)
  encode-more_items nil parts h = (ground arith, refl)
  encode-more_items (cons x xs) parts h =
      let (s, es, h') = >>=-eq-ok (encode x) _ h in
      let (rest, er, h'') = >>=-eq-ok (sequence (encode_items xs)) _ h' in
      let (pr, pl) = encode-value x s es in
      let (ps, qs) = encode-more_items xs rest er in
      let whole : parts ≡ s ∷ rest = cc in (rw (whole, pr, append_assoc, ps), rw (pl, qs))

  encode-fields :
      (fs : Fields)
      → All IsOk (encode_fields fs)
      → (encode_fields fs ≡ map encoded (normal_fields fs))
        × All (λ e. is_plain e.1 ≡ true) (normal_fields fs)
  encode-fields end h = (refl, tt)
  encode-fields (field k v fs) h =
      let (s, es) = h.0 in
      let (pr, pl) = encode-value v s es in
      let (er, ar) = encode-fields fs h.1 in (rw (es, pr, er), (pl, ar))
