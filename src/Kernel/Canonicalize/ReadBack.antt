-- ===== src/Kernel/Canonicalize/ReadBack.antt =====
-- The reader on the text of a plain value.
use verity_os_v.Base.{
  ℕ, zero, suc, ◌≤◌, Str, codes, Bool, true, false, ◌&&◌, ◌||◌, not, ◌∷◌, ◌++◌, some, ltb, ◌==◌,
  ◌≡◌, refl, arith, append_assoc, Bool-cases, inl, inr, &&-true,
}
use verity_os_v.Kernel.Canonicalize.{
  Value, null, boolean, integer, non_integer, string, array, object, unsupported, Items, nil, cons,
  Fields, end, field, stringify_integer, decimal, quote,
}
use verity_os_v.Kernel.Canonicalize.Decode.{
  read_value, read_items, read_more_items, read_fields, read_more_fields, read_entry, expect,
  read_digits,
}
use verity_os_v.Kernel.Canonicalize.Strings.{read_string-quote}
use verity_os_v.Kernel.Canonicalize.Numbers.{EndsNumber, read_digits-decimal, decimal-head}
use verity_os_v.Kernel.Canonicalize.Normal.{
  print, print_items, print_more_items, print_fields, print_more_fields, is_plain, is_plain_items,
  is_plain_fields, size, size_items, size_fields,
}

read-string : (f : ℕ) (s r : Str) → read_value (suc f) (quote s ++ r) ≡ some (string s, r)
unfolding read_value
read-string f s r = let (t, et, rt) = read_string-quote s r in rw (et, rt)

read-positive :
    (f n : ℕ) (r : Str)
    → EndsNumber r
    → read_value (suc f) (decimal n ++ r) ≡ some (integer false n, r)
unfolding read_value
read-positive f n r h =
    let (c, s, es, digit) = decimal-head n in
    let back : read_digits 0 (c ∷ s ++ r) ≡ (n, r) = rw es at (read_digits-decimal n r h) in
    rw es (ground (arith, back, digit))

read-integer :
    (f : ℕ) (negative : Bool) (n : ℕ) (r : Str)
    → (not negative || ltb 0 n) ≡ true
    → EndsNumber r
    → read_value (suc f) (stringify_integer negative n ++ r) ≡ some (integer negative n, r)
unfolding stringify_integer
read-integer f false n r h e = read-positive f n r e
read-integer f true n r h e =
    let pos : ltb 0 n ≡ true = h in rw pos (unfold read_value in rw (read_digits-decimal n r e))

-- A text of a plain value begins with a character that closes no list.
print-head :
    (v : Value)
    → is_plain v ≡ true
    → (c : ℕ) × (s : Str) × (print v ≡ c ∷ s) × ((c == b']') ≡ false)
unfolding print is_plain stringify_integer quote
print-head null h = (b'n', codes "ull", refl, refl)
print-head (boolean true) h = (b't', codes "rue", refl, refl)
print-head (boolean false) h = (b'f', codes "alse", refl, refl)
print-head (integer negative n) h =
    let (c, s, es, digit) = decimal-head n in
    elim (Bool-cases (negative && ltb 0 n)) [
      | inl e ↦ (b'-', decimal n, rw e, refl)
      | inr e ↦ (c, s, rw (e, es), ground arith)
    ]
print-head non_integer h = cc
print-head (string s) h = (b'"', _, refl, refl)
print-head (array xs) h = (b'[', _, refl, refl)
print-head (object fs) h = (b'{', _, refl, refl)
print-head unsupported h = cc

EndsNumber-more_items : (xs : Items) (r : Str) → EndsNumber (print_more_items xs ++ r)
unfolding print_more_items
EndsNumber-more_items nil r = refl
EndsNumber-more_items (cons x xs) r = refl

EndsNumber-more_fields : (fs : Fields) (r : Str) → EndsNumber (print_more_fields fs ++ r)
unfolding print_more_fields
EndsNumber-more_fields end r = refl
EndsNumber-more_fields (field k v fs) r = refl

-- An element and what follows it, read at the start of a list and behind a comma.
module _ (f : ℕ) (x : Value) (xs : Items) (r : Str)
    (ev : read_value f (print x ++ (print_more_items xs ++ r)) ≡ some (x, print_more_items xs ++ r))
    (em : read_more_items f (print_more_items xs ++ r) ≡ some (xs, r)) where
  read-first_item :
      is_plain x ≡ true
      → read_items (suc f) ((print x ++ print_more_items xs) ++ r) ≡ some (cons x xs, r)
  unfolding read_items
  read-first_item h =
      let (c, s, es, ne) = print-head x h in
      let ev' : read_value f (c ∷ s ++ (print_more_items xs ++ r))
          ≡ some (x, print_more_items xs ++ r) =
        rw es at ev in
      rw (append_assoc, es, ne, ev', em)

  read-next_item :
      read_more_items (suc f) ((b',' ∷ print x ++ print_more_items xs) ++ r) ≡ some (cons x xs, r)
  unfolding read_more_items
  read-next_item = rw (append_assoc, ev, em)

module _ (f : ℕ) (k : Str) (v : Value) (fs : Fields) (r : Str)
    (ev : read_value f (print v ++ (print_more_fields fs ++ r))
      ≡ some (v, print_more_fields fs ++ r))
    (em : read_more_fields f (print_more_fields fs ++ r) ≡ some (fs, r)) where
  read-entry :
      read_entry (suc f) (((quote k ++ b':' ∷ print v) ++ print_more_fields fs) ++ r)
      ≡ some (field k v fs, r)
  unfolding read_entry expect
  read-entry =
      let (t, et, rt) = read_string-quote k (b':' ∷ print v ++ (print_more_fields fs ++ r)) in
      rw (append_assoc, append_assoc, et, rt, ev, em)

  read-first_field :
      read_fields (suc (suc f)) (((quote k ++ b':' ∷ print v) ++ print_more_fields fs) ++ r)
      ≡ some (field k v fs, r)
  read-first_field = unfold read_fields quote in read-entry

  read-next_field :
      read_more_fields
        (suc (suc f))
        ((b',' ∷ (quote k ++ b':' ∷ print v) ++ print_more_fields fs) ++ r)
      ≡ some (field k v fs, r)
  read-next_field = unfold read_more_fields in read-entry

size-pos : (v : Value) → size v ≤ 0 → ⊥
unfolding size
size-pos null len = omega arith
size-pos _ len = omega arith

mutual
  unfolding print is_plain size read_value expect

  pub read-value :
      (v : Value) (f : ℕ) (r : Str)
      → size v ≤ f
      → is_plain v ≡ true
      → EndsNumber r
      → read_value f (print v ++ r) ≡ some (v, r)
  read-value v zero r len h e = absurd (size-pos v len)
  read-value null (suc f) r len h e = refl
  read-value (boolean true) (suc f) r len h e = refl
  read-value (boolean false) (suc f) r len h e = refl
  read-value (integer negative n) (suc f) r len h e = read-integer f negative n r h e
  read-value non_integer (suc f) r len h e = cc
  read-value (string s) (suc f) r len h e = read-string f s r
  read-value (array xs) (suc f) r len h e = rw (read-items xs f r (omega arith) h)
  read-value (object fs) (suc f) r len h e = rw (read-fields fs f r (omega arith) h)
  read-value unsupported (suc f) r len h e = cc

  read-items :
      (xs : Items) (f : ℕ) (r : Str)
      → size_items xs ≤ f
      → is_plain_items xs ≡ true
      → read_items f (print_items xs ++ r) ≡ some (xs, r)
  read-items nil zero r len h = absurd (omega arith)
  read-items nil (suc f) r len h = refl
  read-items (cons x xs) zero r len h = absurd (omega arith)
  read-items (cons x xs) (suc f) r len h =
      let (hx, hs) = &&-true (is_plain x) _ h in
      read-first_item f x xs r
        (read-value x f (print_more_items xs ++ r) (omega arith) hx (EndsNumber-more_items xs r))
        (read-more_items xs f r (omega arith) hs) hx

  read-more_items :
      (xs : Items) (f : ℕ) (r : Str)
      → size_items xs ≤ f
      → is_plain_items xs ≡ true
      → read_more_items f (print_more_items xs ++ r) ≡ some (xs, r)
  read-more_items nil zero r len h = absurd (omega arith)
  read-more_items nil (suc f) r len h = refl
  read-more_items (cons x xs) zero r len h = absurd (omega arith)
  read-more_items (cons x xs) (suc f) r len h =
      let (hx, hs) = &&-true (is_plain x) _ h in
      read-next_item f x xs r
        (read-value x f (print_more_items xs ++ r) (omega arith) hx (EndsNumber-more_items xs r))
        (read-more_items xs f r (omega arith) hs)

  read-fields :
      (fs : Fields) (f : ℕ) (r : Str)
      → size_fields fs ≤ f
      → is_plain_fields fs ≡ true
      → read_fields f (print_fields fs ++ r) ≡ some (fs, r)
  read-fields end zero r len h = absurd (omega arith)
  read-fields end (suc f) r len h = refl
  read-fields (field k v fs) zero r len h = absurd (omega arith)
  read-fields (field k v fs) (suc zero) r len h = absurd (omega arith)
  read-fields (field k v fs) (suc (suc f)) r len h =
      let (hv, hs) = &&-true (is_plain v) _ h in
      read-first_field f k v fs r
        (read-value v f (print_more_fields fs ++ r) (omega arith) hv (EndsNumber-more_fields fs r))
        (read-more_fields fs f r (omega arith) hs)

  read-more_fields :
      (fs : Fields) (f : ℕ) (r : Str)
      → size_fields fs ≤ f
      → is_plain_fields fs ≡ true
      → read_more_fields f (print_more_fields fs ++ r) ≡ some (fs, r)
  read-more_fields end zero r len h = absurd (omega arith)
  read-more_fields end (suc f) r len h = refl
  read-more_fields (field k v fs) zero r len h = absurd (omega arith)
  read-more_fields (field k v fs) (suc zero) r len h = absurd (omega arith)
  read-more_fields (field k v fs) (suc (suc f)) r len h =
      let (hv, hs) = &&-true (is_plain v) _ h in
      read-next_field f k v fs r
        (read-value v f (print_more_fields fs ++ r) (omega arith) hv (EndsNumber-more_fields fs r))
        (read-more_fields fs f r (omega arith) hs)
