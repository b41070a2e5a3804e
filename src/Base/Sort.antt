-- ===== src/Base/Sort.antt =====
-- Array.prototype.sort with a comparator: the stable sort, as insertion sort by a strict order.
use Prim.Native.Nat.{suc}
use mathlib.Core.Path.{◌≡◌, refl, sym, ap, subst, ◌∙◌}
use mathlib.Core.Logic.{◌⊎◌, inl, inr}
use mathlib.Core.Bool.{Bool, true, false}
use mathlib.Core.List.{List, [], ◌∷◌, map, Permᴰ}
use native.Mathlib.Omega.{arith}
use verity_os_v.Base.Tests.{if◌then◌else◌, Bool-cases}
use verity_os_v.Base.Lists.{length, All}

module _ {A : Type 0} (lt : A → A → Bool) where
  -- An equal element stays behind those that stood before it.
  unfoldable pub insert_by : A → List A → List A
  insert_by x [] = x ∷ []
  insert_by x (y ∷ ys) = let rest = insert_by x ys in if lt y x then y ∷ rest else x ∷ y ∷ ys

  unfoldable pub sort_by : List A → List A
  unfolding insert_by
  sort_by [] = []
  sort_by (x ∷ xs) = insert_by x (sort_by xs)

module _ {A : Type 0} (P : A → Type 0) where
  pub All-Perm : {xs ys : List A} → Permᴰ xs ys → All P xs → All P ys
  All-Perm Permᴰ.nil h = tt
  All-Perm (Permᴰ.cons e p) h = (subst P e h.0, All-Perm p h.1)
  All-Perm (Permᴰ.swap e f) h = (subst P f h.1.0, (subst P e h.0, h.1.1))
  All-Perm (Permᴰ.trans p q) h = All-Perm q (All-Perm p h)

module _ {A : Type 0} (lt : A → A → Bool) where
  -- One of the two is strictly less.
  abbrev pub Comparable : A → A → Type 0
  Comparable x y = (lt x y ≡ true) ⊎ (lt y x ≡ true)

  abbrev pub AllComparable : List A → Type 0
  AllComparable [] = Unit
  AllComparable (x ∷ xs) = All (Comparable x) xs × AllComparable xs

  -- No element is less than the one before it.
  abbrev pub Sorted : List A → Type 0
  Sorted [] = Unit
  Sorted (x ∷ []) = Unit
  Sorted (x ∷ y ∷ ys) = (lt y x ≡ false) × Sorted (y ∷ ys)

  -- A sorted list is left as it is.
  pub sort-id : (xs : List A) → Sorted xs → sort_by lt xs ≡ xs
  unfolding sort_by
  sort-id [] h = refl
  sort-id (x ∷ []) h = refl
  sort-id (x ∷ y ∷ ys) h = rw (sort-id (y ∷ ys) h.1) (ground arith)

  length-insert : (x : A) (xs : List A) → length (insert_by lt x xs) ≡ suc (length xs)
  unfolding insert_by
  length-insert x [] = refl
  length-insert x (y ∷ ys) = ground (arith, length-insert x ys)

  pub length-sort : (xs : List A) → length (sort_by lt xs) ≡ length xs
  unfolding sort_by
  length-sort [] = refl
  length-sort (x ∷ xs) = length-insert x (sort_by lt xs) ∙ ap suc (length-sort xs)

  -- Inserting puts the element somewhere, and keeps the rest.
  insert-All : (P : A → Type 0) (x : A) (xs : List A) → P x → All P xs → All P (insert_by lt x xs)
  unfolding insert_by
  insert-All P x [] p h = (p, tt)
  insert-All P x (y ∷ ys) p h = elim (Bool-cases (lt y x)) [
    | inl e ↦ rw e (h.0, insert-All P x ys p h.1)
    | inr e ↦ rw e (p, h)
  ]

  pub sort-All : (P : A → Type 0) (xs : List A) → All P xs → All P (sort_by lt xs)
  unfolding sort_by
  sort-All P [] h = tt
  sort-All P (x ∷ xs) h = insert-All P x (sort_by lt xs) h.0 (sort-All P xs h.1)

  module _ (asym : (a b : A) → lt a b ≡ true → lt b a ≡ false)
      (trans : (a b c : A) → lt a b ≡ true → lt b c ≡ true → lt a c ≡ true) where
    insert_comm_lt :
        (x y : A) (zs : List A)
        → lt x y ≡ true
        → insert_by lt x (insert_by lt y zs) ≡ insert_by lt y (insert_by lt x zs)
    unfolding insert_by
    insert_comm_lt x y [] h = ground (arith, asym x y)
    insert_comm_lt x y (z ∷ zs) h = ground (arith, asym x y, trans z x y, insert_comm_lt x y zs)

    insert_comm :
        (x y : A) (zs : List A)
        → Comparable x y
        → insert_by lt x (insert_by lt y zs) ≡ insert_by lt y (insert_by lt x zs)
    insert_comm x y zs (inl h) = insert_comm_lt x y zs h
    insert_comm x y zs (inr h) = sym (insert_comm_lt y x zs h)

    Comparable-swap : (x y : A) → Comparable x y → Comparable y x
    Comparable-swap x y (inl h) = inr h
    Comparable-swap x y (inr h) = inl h

    AllComparable-Perm : {xs ys : List A} → Permᴰ xs ys → AllComparable xs → AllComparable ys
    AllComparable-Perm Permᴰ.nil h = tt
    AllComparable-Perm (Permᴰ.cons {b = b} {l₂ = l₂} e p) h =
        (subst (λ x. All (Comparable x) l₂) e (All-Perm _ p h.0), AllComparable-Perm p h.1)
    AllComparable-Perm (Permᴰ.swap {a = a} {b = b} {l = l} e f) h = (
      (rw (← e, ← f) (Comparable-swap a b h.0.0), subst (λ x. All (Comparable x) l) f h.1.0),
      (subst (λ x. All (Comparable x) l) e h.0.1, h.1.1),
    )
    AllComparable-Perm (Permᴰ.trans p q) h = AllComparable-Perm q (AllComparable-Perm p h)

    -- Two arrangements of strictly comparable elements sort to one list.
    pub sort-Perm :
        {xs ys : List A} → Permᴰ xs ys → AllComparable xs → sort_by lt xs ≡ sort_by lt ys
    unfolding sort_by
    sort-Perm Permᴰ.nil h = refl
    sort-Perm (Permᴰ.cons e p) h = rw (e, sort-Perm p h.1)
    sort-Perm (Permᴰ.swap {a = a} {b = b} {l = l} e f) h =
        rw (← e, ← f) (insert_comm a b (sort_by lt l) h.0.0)
    sort-Perm (Permᴰ.trans p q) h = sort-Perm p h ∙ sort-Perm q (AllComparable-Perm p h)

module _ {A : Type 0} (lt : A → A → Bool) where
  insert-All_back :
      (P : A → Type 0) (x : A) (xs : List A) → All P (insert_by lt x xs) → P x × All P xs
  unfolding insert_by
  insert-All_back P x [] h = h
  insert-All_back P x (y ∷ ys) h = elim (Bool-cases (lt y x)) [
    | inl e ↦
        let (py, rest) = rw e at h in let (px, pys) = insert-All_back P x ys rest in (px, (py, pys))
    | inr e ↦ rw e at h
  ]

  -- What holds of each element of the sorted list holds of each element.
  pub sort-All_back : (P : A → Type 0) (xs : List A) → All P (sort_by lt xs) → All P xs
  unfolding sort_by
  sort-All_back P [] h = tt
  sort-All_back P (x ∷ xs) h =
      let (px, rest) = insert-All_back P x (sort_by lt xs) h in (px, sort-All_back P xs rest)

module _ {A B : Type 0} (lt : A → A → Bool) (lt' : B → B → Bool) (f : A → B)
    (same : (a b : A) → lt' (f a) (f b) ≡ lt a b) where
  map-insert : (x : A) (xs : List A) → insert_by lt' (f x) (map f xs) ≡ map f (insert_by lt x xs)
  unfolding insert_by
  map-insert x [] = refl
  map-insert x (y ∷ ys) = elim (Bool-cases (lt y x)) [
    | inl e ↦ rw (same y x, e, map-insert x ys)
    | inr e ↦ rw (same y x, e)
  ]

  -- A map that keeps the order commutes with sorting.
  pub map-sort : (xs : List A) → sort_by lt' (map f xs) ≡ map f (sort_by lt xs)
  unfolding sort_by
  map-sort [] = refl
  map-sort (x ∷ xs) = rw (map-sort xs, map-insert x (sort_by lt xs))
