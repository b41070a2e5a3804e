-- ===== src/Base/Stateful.antt =====
-- Code that changes a state and may throw: what it did before a throw stays done.
use mathlib.Core.Path.{◌≡◌, refl}
use mathlib.Core.Logic.{◌⊎◌, inl, inr}
use verity_os_v.Base.Fallible.{Result, ok, throw}

abbrev pub Stateful : Type 0 → Type 0 → Type 0 → Type 0
Stateful E S A = S → Result E A × S

module _ {E S : Type 0} where
  abbrev pub run_next : {A B : Type 0} → (A → Stateful E S B) → Result E A × S → Result E B × S
  run_next f (ok a, s) = f a s
  run_next f (throw e, s) = (throw e, s)

  infixl 5 ◌>>=◌ ◌>>◌
  unfoldable pub ◌>>=◌ : {A B : Type 0} → Stateful E S A → (A → Stateful E S B) → Stateful E S B
  ◌>>=◌ m f s = run_next f (m s)

  abbrev pub ◌>>◌ : {B : Type 0} → Stateful E S (Unit {0}) → Stateful E S B → Stateful E S B
  m >> k = m >>= λ _. k

  abbrev pub pure : {A : Type 0} → A → Stateful E S A
  pure a s = (ok a, s)

  -- Reading the state, and a computed result.
  abbrev pub query : {A : Type 0} → (S → A) → Stateful E S A
  query f s = (ok (f s), s)

  abbrev pub lift : {A : Type 0} → Result E A → Stateful E S A
  lift r s = (r, s)

  -- A statement that changes the state or throws with no effect.
  abbrev pub after : Result E S → S → Result E (Unit {0}) × S
  after (ok s') s = (ok tt, s')
  after (throw e) s = (throw e, s)

  unfoldable pub execute : (S → Result E S) → Stateful E S (Unit {0})
  execute f s = after (f s) s

  -- BEGIN … COMMIT, or ROLLBACK and the error raised again.
  abbrev pub or_rollback : {A : Type 0} → Result E A × S → S → Result E A × S
  or_rollback (ok a, s') s = (ok a, s')
  or_rollback (throw e, s') s = (throw e, s)

  unfoldable pub transaction : {A : Type 0} → Stateful E S A → Stateful E S A
  transaction m s = or_rollback (m s) s

module _ {E S : Type 0} where
  next-ok :
      {A B : Type 0} (f : A → Stateful E S B) (r : Result E A × S) {b : B} {last : S}
      → run_next f r ≡ (ok b, last)
      → (a : A) × (s : S) × (r ≡ (ok a, s)) × (f a s ≡ (ok b, last))
  next-ok f (ok a, s) h = (a, s, refl, h)
  next-ok f (throw e, s) h = cc

  -- Code that returned had a first part that returned.
  pub >>=-ok :
      {A B : Type 0} (m : Stateful E S A) (f : A → Stateful E S B) (start : S) {b : B} {last : S}
      → (m >>= f) start ≡ (ok b, last)
      → (a : A) × (s : S) × (m start ≡ (ok a, s)) × (f a s ≡ (ok b, last))
  unfolding ◌>>=◌
  >>=-ok m f start h = next-ok f (m start) h

  next-throw :
      {A B : Type 0} (f : A → Stateful E S B) (r : Result E A × S) {e : E} {last : S}
      → run_next f r ≡ (throw e, last)
      → (r ≡ (throw e, last)) ⊎ ((a : A) × (s : S) × (r ≡ (ok a, s)) × (f a s ≡ (throw e, last)))
  next-throw f (ok a, s) h = inr (a, s, refl, h)
  next-throw f (throw e, s) h = inl (cc)

  -- Code that threw did so in its first part, or after it.
  pub >>=-throw :
      {A B : Type 0} (m : Stateful E S A) (f : A → Stateful E S B) (start : S) {e : E} {last : S}
      → (m >>= f) start ≡ (throw e, last)
      → (m start ≡ (throw e, last))
        ⊎ ((a : A) × (s : S) × (m start ≡ (ok a, s)) × (f a s ≡ (throw e, last)))
  unfolding ◌>>=◌
  >>=-throw m f start h = next-throw f (m start) h

  pub pure-ne_throw :
      {A : Type 0} (a : A) (start s : S) (e : E)
      → (let r : Result E A × S = (throw e, s) in pure a start ≡ r)
      → ⊥
  pure-ne_throw a start s e h = cc

  pub lift-throw :
      {A : Type 0} (r : Result E A) (start s : S) (e : E)
      → lift r start ≡ (throw e, s)
      → (r ≡ throw e) × (s ≡ start)
  lift-throw r start s e h = (cc, cc)

  after-throw :
      (r : Result E S) (start s : S) (e : E)
      → after r start ≡ (throw e, s)
      → (r ≡ throw e) × (s ≡ start)
  after-throw (ok s') start s e h = cc
  after-throw (throw e') start s e h = (cc, cc)

  pub execute-throw :
      (f : S → Result E S) (start s : S) (e : E)
      → execute f start ≡ (throw e, s)
      → (f start ≡ throw e) × (s ≡ start)
  unfolding execute
  execute-throw f start s e h = after-throw (f start) start s e h

  pub lift-ok :
      {A : Type 0} (r : Result E A) (start s : S) (a : A)
      → lift r start ≡ (ok a, s)
      → (r ≡ ok a) × (s ≡ start)
  lift-ok r start s a h = (cc, cc)

  pub pure-ok :
      {A : Type 0} (a a' : A) (start s : S)
      → (let r : Result E A × S = (ok a', s) in pure a start ≡ r)
      → (a' ≡ a) × (s ≡ start)
  pure-ok a a' start s h = (cc, cc)

  after-ok : (r : Result E S) (start s : S) (u : Unit {0}) → after r start ≡ (ok u, s) → r ≡ ok s
  after-ok (ok s') start s u h = cc
  after-ok (throw e) start s u h = cc

  pub execute-ok :
      (f : S → Result E S) (start s : S) (u : Unit {0})
      → execute f start ≡ (ok u, s)
      → f start ≡ ok s
  unfolding execute
  execute-ok f start s u h = after-ok (f start) start s u h

module _ {E S : Type 0} (P : S → Type 0) where
  -- The code leads from states where the predicate holds to such states, whether or not it throws.
  abbrev pub Keeps : {A : Type 0} → Stateful E S A → Type 0
  Keeps m = (s : S) → P s → P ((m s).1)

  next-Keeps :
      {A B : Type 0} (f : A → Stateful E S B) (r : Result E A × S)
      → ((a : A) → Keeps (f a))
      → P (r.1)
      → P ((run_next f r).1)
  next-Keeps f (ok a, s) hf h = hf a s h
  next-Keeps f (throw e, s) hf h = h

  pub bind-Keeps :
      {A B : Type 0} (m : Stateful E S A) (f : A → Stateful E S B)
      → Keeps m
      → ((a : A) → Keeps (f a))
      → Keeps (m >>= f)
  unfolding ◌>>=◌
  bind-Keeps m f hm hf s h = next-Keeps f (m s) hf (hm s h)

  after-P : (r : Result E S) (s : S) → ((s' : S) → r ≡ ok s' → P s') → P s → P ((after r s).1)
  after-P (ok s') s h p = h s' refl
  after-P (throw e) s h p = p

  pub execute-Keeps :
      (f : S → Result E S) → ((s s' : S) → P s → f s ≡ ok s' → P s') → Keeps (execute f)
  unfolding execute
  execute-Keeps f h s p = after-P (f s) s (λ s' e. h s s' p e) p

  rollback-P : {A : Type 0} (r : Result E A × S) (s : S) → P (r.1) → P s → P ((or_rollback r s).1)
  rollback-P (ok a, s') s h p = h
  rollback-P (throw e, s') s h p = p

  pub transaction-Keeps : {A : Type 0} (m : Stateful E S A) → Keeps m → Keeps (transaction m)
  unfolding transaction
  transaction-Keeps m h s p = rollback-P (m s) s (h s p) p
