-- ===== src/Base/Text.antt =====
-- JavaScript strings: lists of UTF-16 code units, their equality and the order of `<`.
use Prim.Native.Nat.{ℕ}
use Prim.Native.Char.{code}
use Prim.Native.String.{String}
use mathlib.Core.Path.{◌≡◌, refl}
use mathlib.Core.Logic.{◌↔◌, inl, inr}
use mathlib.Core.Bool.{Bool, true, false, ◌&&◌, ◌||◌}
use mathlib.Core.List.{List, [], ◌∷◌}
use native.Mathlib.Omega.{arith}
use verity_os_v.Base.Tests.{ltb, ◌==◌}
use verity_os_v.Base.Lists.{Member}

abbrev pub Str : Type 0
Str = List ℕ

-- The code units of a literal (ASCII, so one unit for each character).
abbrev pub codes : String → Str
codes String.[] = []
codes (String.◌∷◌ c s) = code c ∷ codes s

-- a === b
unfoldable pub str_eq : Str → Str → Bool
str_eq [] [] = true
str_eq [] (y ∷ t) = false
str_eq (x ∷ s) [] = false
str_eq (x ∷ s) (y ∷ t) = x == y && str_eq s t

-- a < b, by code units
unfoldable pub str_lt : Str → Str → Bool
str_lt [] [] = false
str_lt [] (y ∷ t) = true
str_lt (x ∷ s) [] = false
str_lt (x ∷ s) (y ∷ t) = ltb x y || (x == y && str_lt s t)

-- the truth value of a string
unfoldable pub is_empty : Str → Bool
is_empty [] = true
is_empty (x ∷ s) = false

pub str_eq_refl : (a : Str) → str_eq a a ≡ true
unfolding str_eq
str_eq_refl [] = refl
str_eq_refl (x ∷ a) = ground (arith, str_eq_refl a)

str_eq_sound : (a b : Str) → str_eq a b ≡ true → a ≡ b
unfolding str_eq
str_eq_sound [] [] h = refl
str_eq_sound [] (y ∷ b) h = cc
str_eq_sound (x ∷ a) [] h = cc
str_eq_sound (x ∷ a) (y ∷ b) h = ground (arith, str_eq_sound a b)

pub str_eq_iff : (a b : Str) → (str_eq a b ≡ true) ↔ (a ≡ b)
str_eq_iff a b = (str_eq_sound a b, λ e. rw e (str_eq_refl b))

pub str_lt_irrefl : (a : Str) → str_lt a a ≡ false
unfolding str_lt
str_lt_irrefl [] = refl
str_lt_irrefl (x ∷ a) = ground (arith, str_lt_irrefl a)

pub str_lt-asym : (a b : Str) → str_lt a b ≡ true → str_lt b a ≡ false
unfolding str_lt
str_lt-asym [] [] h = refl
str_lt-asym [] (y ∷ b) h = refl
str_lt-asym (x ∷ a) [] h = cc
str_lt-asym (x ∷ a) (y ∷ b) h = ground (arith, str_lt-asym a b)

pub str_lt_trans : (a b c : Str) → str_lt a b ≡ true → str_lt b c ≡ true → str_lt a c ≡ true
unfolding str_lt
str_lt_trans a [] [] h k = cc
str_lt_trans [] [] (z ∷ c) h k = refl
str_lt_trans (x ∷ a) [] (z ∷ c) h k = cc
str_lt_trans a (y ∷ b) [] h k = cc
str_lt_trans [] (y ∷ b) (z ∷ c) h k = refl
str_lt_trans (x ∷ a) (y ∷ b) (z ∷ c) h k = ground (arith, str_lt_trans a b c)

-- Two strings are equal or one is less.
pub str_lt-connex : (a b : Str) → str_lt a b ≡ false → str_lt b a ≡ false → a ≡ b
unfolding str_lt
str_lt-connex [] [] h k = refl
str_lt-connex [] (y ∷ b) h k = cc
str_lt-connex (x ∷ a) [] h k = cc
str_lt-connex (x ∷ a) (y ∷ b) h k = ground (arith, str_lt-connex a b)

-- Array.prototype.includes and Set.prototype.has, on strings
unfoldable pub includes : List Str → Str → Bool
includes [] a = false
includes (x ∷ xs) a = str_eq x a || includes xs a

pub includes-Member : (xs : List Str) (a : Str) → includes xs a ≡ true → Member a xs
unfolding includes
includes-Member [] a h = cc
includes-Member (x ∷ xs) a h = ground (arith, str_eq_iff x a, includes-Member xs a)

pub Member-includes : (xs : List Str) (a : Str) → Member a xs → includes xs a ≡ true
unfolding includes
Member-includes [] a m = absurd m
Member-includes (x ∷ xs) a (inl e) = rw (← e) (ground (arith, str_eq_refl a))
Member-includes (x ∷ xs) a (inr m) = ground (arith, Member-includes xs a m)
