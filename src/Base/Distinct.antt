-- ===== src/Base/Distinct.antt =====
-- Tables under a unique key, and queries on them.
use verity_os_v.Base.Tests.{Bool-cases}
use verity_os_v.Base.Lists.{Member, All, select, any, find?}
use mathlib.Core.Path.{◌≡◌, refl, sym, ap, ◌∙◌}
use mathlib.Core.Logic.{inl, inr}
use mathlib.Core.Bool.{Bool, true, false}
use mathlib.Core.List.{List, [], ◌∷◌, ◌++◌}
use mathlib.Core.Option.{some}
use native.Mathlib.Omega.{arith}

module _ {A : Type 0} where
  -- No two rows have the same key.
  abbrev pub Distinct : (A → A → Bool) → List A → Type 0
  Distinct same [] = Unit
  Distinct same (x ∷ xs) = All (λ y. same x y ≡ false) xs × Distinct same xs

  All-snoc : (P : A → Type 0) (xs : List A) (y : A) → All P xs → P y → All P (xs ++ y ∷ [])
  All-snoc P [] y h p = (p, tt)
  All-snoc P (x ∷ xs) y h p = (h.0, All-snoc P xs y h.1 p)

  -- A row is added whose key no row has.
  pub Distinct-snoc :
      (same : A → A → Bool) (xs : List A) (y : A)
      → Distinct same xs
      → any (λ x. same x y) xs ≡ false
      → Distinct same (xs ++ y ∷ [])
  Distinct-snoc same [] y d h = (tt, tt)
  Distinct-snoc same (x ∷ xs) y d h = (
    All-snoc (λ z. same x z ≡ false) xs y d.0 (ground arith),
    Distinct-snoc same xs y d.1 (ground arith),
  )

  pub select-none : (p : A → Bool) (xs : List A) → any p xs ≡ false → select p xs ≡ []
  select-none p [] h = refl
  select-none p (x ∷ xs) h = ground (arith, select-none p xs)

  none-select : (p : A → Bool) (xs : List A) → All (λ x. p x ≡ false) xs → select p xs ≡ []
  none-select p [] h = refl
  none-select p (x ∷ xs) h = ground (arith, none-select p xs h.1, h.0)

  All-false :
      (same : A → A → Bool) (p : A → Bool) (x : A) (xs : List A)
      → ((y z : A) → p y ≡ true → p z ≡ true → same y z ≡ true)
      → p x ≡ true
      → All (λ y. same x y ≡ false) xs
      → All (λ y. p y ≡ false) xs
  All-false same p x [] key e h = tt
  All-false same p x (y ∷ xs) key e h = (
    elim (Bool-cases (p y)) [
      | inl other ↦ let clash : true ≡ false = sym (key x y e other) ∙ h.0 in cc
      | inr no_key ↦ no_key
    ],
    All-false same p x xs key e h.1,
  )

  -- A query by the key gives the row that has it, and no other.
  pub select-key :
      (same : A → A → Bool) (p : A → Bool) (xs : List A) (x : A)
      → ((y z : A) → p y ≡ true → p z ≡ true → same y z ≡ true)
      → Distinct same xs
      → Member x xs
      → p x ≡ true
      → select p xs ≡ x ∷ []
  select-key same p [] x key d m e = absurd m
  select-key same p (y ∷ xs) x key d (inl same_row) e =
      let first : p y ≡ true = ap p (sym same_row) ∙ e in
      rw first (
        ap (λ l. y ∷ l) (none-select p xs (All-false same p y xs key first d.0))
        ∙ ap (λ r. r ∷ []) (sym same_row))
  select-key same p (y ∷ xs) x key d (inr later) e = elim (Bool-cases (p y)) [
    | inl clash ↦
        let none_left = none-select p xs (All-false same p y xs key clash d.0) in
        let found = select-key same p xs x key d.1 later e in cc
    | inr skip ↦ rw skip (select-key same p xs x key d.1 later e)
  ]

  pub Member-any : (p : A → Bool) (x : A) (xs : List A) → Member x xs → p x ≡ true → any p xs ≡ true
  Member-any p x [] m h = absurd m
  Member-any p x (y ∷ xs) (inl e) h = let own : p y ≡ true = ap p (sym e) ∙ h in ground (arith)
  Member-any p x (y ∷ xs) (inr m) h = ground (arith, Member-any p x xs m h)

  pub find-Member :
      (p : A → Bool) (xs : List A) (x : A) → find? p xs ≡ some x → Member x xs × (p x ≡ true)
  find-Member p [] x h = cc
  find-Member p (y ∷ xs) x h = elim (Bool-cases (p y)) [
    | inl e ↦ let own : y ≡ x = ground arith in (inl (sym own), ap p (sym own) ∙ e)
    | inr e ↦ let rest = find-Member p xs x (ground arith) in (inr (rest.0), rest.1)
  ]

  pub Member-select :
      (p : A → Bool) (xs : List A) (x : A) → Member x (select p xs) → Member x xs × (p x ≡ true)
  Member-select p [] x m = absurd m
  Member-select p (y ∷ xs) x m = elim (Bool-cases (p y)) [
    | inl e ↦
        let kept : Member x (y ∷ select p xs) = rw e at m in
        elim kept [
          | inl own ↦ (inl own, ap p own ∙ e)
          | inr later ↦ let rest = Member-select p xs x later in (inr (rest.0), rest.1)
        ]
    | inr e ↦ let rest = Member-select p xs x (rw e at m) in (inr (rest.0), rest.1)
  ]

  pub All-select : (P : A → Type 0) (p : A → Bool) (xs : List A) → All P xs → All P (select p xs)
  All-select P p [] h = tt
  All-select P p (x ∷ xs) h = elim (Bool-cases (p x)) [
    | inl e ↦ rw e (h.0, All-select P p xs h.1)
    | inr e ↦ rw e (All-select P p xs h.1)
  ]

  pub Distinct-select :
      (same : A → A → Bool) (p : A → Bool) (xs : List A)
      → Distinct same xs
      → Distinct same (select p xs)
  Distinct-select same p [] d = tt
  Distinct-select same p (x ∷ xs) d = elim (Bool-cases (p x)) [
    | inl e ↦ rw e (All-select (λ y. same x y ≡ false) p xs d.0, Distinct-select same p xs d.1)
    | inr e ↦ rw e (Distinct-select same p xs d.1)
  ]
