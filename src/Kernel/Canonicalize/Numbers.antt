-- ===== src/Kernel/Canonicalize/Numbers.antt =====
-- The decimal digits of a number and their reader.
use verity_os_v.Base.{
  ℕ, zero, suc, ◌+◌, ◌*◌, ◌/◌, ◌%◌, ◌<◌, Str, true, false, [], ◌∷◌, ◌++◌, ltb, ◌≡◌, refl, arith,
  append_assoc, Bool-cases, inl, inr, ap, ◌∙◌,
}
use verity_os_v.Kernel.Canonicalize.{decimal, decimal_digits}
use verity_os_v.Kernel.Canonicalize.Decode.{is_digit, read_digits}

-- The text does not go on with a digit.
abbrev pub EndsNumber : Str → Type 0
EndsNumber [] = Unit
EndsNumber (c ∷ s) = is_digit c ≡ false

read_digits-step :
    (acc d : ℕ) (t : Str) → d < 10 → read_digits acc ((b'0' + d) ∷ t) ≡ read_digits (acc * 10 + d) t
unfolding read_digits
read_digits-step acc d t h = elim (Bool-cases (is_digit (b'0' + d))) [
  | inl e ↦ rw e (ap (λ x. read_digits (acc * 10 + x) t) (omega arith))
  | inr e ↦ absurd (ground arith)
]

read_digits-decimal_digits :
    (fuel n : ℕ) (t : Str) → n < fuel → read_digits 0 (decimal_digits fuel n ++ t) ≡ read_digits n t
unfolding decimal_digits
read_digits-decimal_digits zero n t h = absurd (omega arith)
read_digits-decimal_digits (suc fuel) n t h = elim (Bool-cases (ltb n 10)) [
  | inl e ↦ rw e (read_digits-step 0 n t (ground arith) ∙ ap (λ x. read_digits x t) (omega arith))
  | inr e ↦
      rw (e, append_assoc)
        (read_digits-decimal_digits fuel (n / 10) ((b'0' + n % 10) ∷ t) (ground arith)
          ∙ read_digits-step (n / 10) (n % 10) t (omega arith)
          ∙ ap (λ x. read_digits x t) (omega arith))
]

pub read_digits-decimal : (n : ℕ) (t : Str) → EndsNumber t → read_digits 0 (decimal n ++ t) ≡ (n, t)
unfolding decimal
read_digits-decimal n t h = read_digits-decimal_digits (suc n) n t (omega arith) ∙ stop n t h
  where
    stop : (k : ℕ) (u : Str) → EndsNumber u → read_digits k u ≡ (k, u)
    stop k [] e = unfold read_digits in refl
    stop k (c ∷ u) e = unfold read_digits in rw e

-- A decimal begins with a digit.
decimal_digits-head :
    (fuel n : ℕ)
    → n < fuel
    → (c : ℕ) × (s : Str) × (decimal_digits fuel n ≡ c ∷ s) × (is_digit c ≡ true)
unfolding decimal_digits
decimal_digits-head zero n h = absurd (omega arith)
decimal_digits-head (suc fuel) n h = elim (Bool-cases (ltb n 10)) [
  | inl e ↦ (b'0' + n, [], rw e, ground arith)
  | inr e ↦
      let (c, s, es, d) = decimal_digits-head fuel (n / 10) (ground arith) in
      (c, s ++ (b'0' + n % 10) ∷ [], rw (e, es), d)
]

pub decimal-head : (n : ℕ) → (c : ℕ) × (s : Str) × (decimal n ≡ c ∷ s) × (is_digit c ≡ true)
unfolding decimal
decimal-head n = decimal_digits-head (suc n) n (omega arith)
