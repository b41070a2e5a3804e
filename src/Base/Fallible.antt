-- ===== src/Base/Fallible.antt =====
-- Code that may throw: a value or the error, with `do` blocks and the inversion of a bind.
use mathlib.Core.Path.{◌≡◌, refl}
use mathlib.Core.Bool.{Bool, true, false}
use mathlib.Core.Option.{Option, none, some}

pub data Result {ℓ κ} (E : Type κ) (A : Type ℓ) : Type (ℓ ⊔ κ) where
  ok : A → Result E A
  throw : E → Result E A

infixl 5 ◌>>=◌ ◌>>◌
abbrev pub ◌>>=◌ {ℓ κ μ} :
    {E : Type κ} {A : Type ℓ} {B : Type μ} → Result E A → (A → Result E B) → Result E B
ok a >>= f = f a
throw e >>= f = throw e

abbrev pub ◌>>◌ {κ μ} : {E : Type κ} {B : Type μ} → Result E (Unit {0}) → Result E B → Result E B
m >> k = m >>= λ _. k

-- A successful bind had a successful first part.
pub >>=-eq-ok {ℓ κ μ} :
    {E : Type κ} {A : Type ℓ} {B : Type μ} (first : Result E A) (next : A → Result E B) {last : B}
    → (first >>= next) ≡ ok last
    → (given : A) × (first ≡ ok given) × (next given ≡ ok last)
>>=-eq-ok (ok given) next done = (given, refl, done)
>>=-eq-ok (throw error) next done = cc

-- `if (!test) throw e`
abbrev pub guard {κ} : {E : Type κ} → Bool → E → Result E (Unit {0})
guard true e = ok tt
guard false e = throw e

-- `none` as a thrown error
abbrev pub or_throw {ℓ κ} : {E : Type κ} {A : Type ℓ} → E → Option A → Result E A
or_throw e none = throw e
or_throw e (some a) = ok a

-- Two continuations that agree on every result of the first part.
pub >>=-agree {ℓ κ μ} :
    {E : Type κ} {A : Type ℓ} {B : Type μ} (m : Result E A) (f g : A → Result E B)
    → ((a : A) → m ≡ ok a → f a ≡ g a)
    → (m >>= f) ≡ (m >>= g)
>>=-agree (ok a) f g h = h a refl
>>=-agree (throw e) f g h = refl

pub >>=-assoc {ℓ κ μ ν} :
    {E : Type κ} {A : Type ℓ} {B : Type μ} {C : Type ν} (m : Result E A) (f : A → Result E B)
    (g : B → Result E C)
    → ((m >>= f) >>= g) ≡ (m >>= λ a. f a >>= g)
>>=-assoc (ok a) f g = refl
>>=-assoc (throw e) f g = refl

pub ok-pair {ℓ κ μ} :
    {E : Type κ} {A : Type ℓ} {B : Type μ} {r : Result E (A × B)} {a a' : A} {b b' : B}
    → r ≡ ok (a, b)
    → r ≡ ok (a', b')
    → (a ≡ a') × (b ≡ b')
ok-pair h h' = (cc, cc)

pub ok-injective {ℓ κ} :
    {E : Type κ} {A : Type ℓ} {a a' : A} → ok a ≡ (let r : Result E A = ok a' in r) → a ≡ a'
ok-injective h = cc

-- A test that did not throw.
pub guard-ok {κ} : {E : Type κ} (b : Bool) (e : E) (u : Unit {0}) → guard b e ≡ ok u → b ≡ true
guard-ok true e u h = refl
guard-ok false e u h = cc

pub or_throw-ok {ℓ κ} :
    {E : Type κ} {A : Type ℓ} (e : E) (o : Option A) {a : A} → or_throw e o ≡ ok a → o ≡ some a
or_throw-ok e none h = cc
or_throw-ok e (some b) h = cc
