-- ===== src/RateLimit/Window.antt =====
-- The calls that a limiter of apps/core-api/src/rate-limit.ts grants to one key over time.
use verity_os_v.Base.{
  ℕ, ◌+◌, ◌≤◌, ◌<◌, Str, str_eq, str_eq_iff, Bool, true, false, List, [], ◌∷◌, ◌++◌, length,
  length-append, select, select-append, leb, leb_iff, ltb_iff, if◌then◌else◌, Bool-cases, ◌≡◌, refl,
  sym, ap, ◌∙◌, subst, arith, inl, inr,
}
use verity_os_v.RateLimit.{MemoryRateLimiter, set_hits, is_live, live_hits, take_hit, allow}

-- A call of `allow`: the key and the time.
abbrev pub Call : Type 0
Call = Str × ℕ

-- The times at which a key was granted a call, the limiter at the end, and the last time.
pub record Run : Type 0 where
  pub limiter : MemoryRateLimiter
  pub granted : List ℕ
  pub now : ℕ

abbrev log_call : Str → Call → Bool → List ℕ → List ℕ
log_call key (k, now) granted log =
    if granted then (if str_eq key k then log ++ now ∷ [] else log) else log

unfoldable pub run : Str → List Call → Run → Run
run key [] r = r
run key (c ∷ calls) r =
    let (granted, limiter) = allow r.limiter c.0 c.1 in
    run key calls
      (record { limiter = limiter; granted = log_call key c granted r.granted; now = c.1 })

-- Times that never go back.
abbrev pub Ascending : ℕ → List Call → Type 0
Ascending now [] = Unit
Ascending now (c ∷ calls) = (now ≤ c.1) × Ascending c.1 calls

-- The bucket of the key has all grants that are still in the window, and at most `max` of them.
record IsTracked (window limit : ℕ) (key : Str) (r : Run) : Type 0 where
  window_is : r.limiter.window_ms ≡ window
  max_is : r.limiter.max ≡ limit
  bounded : length (r.limiter.hits key) ≤ limit
  tracked :
      (t : ℕ)
      → r.now ≤ t
      → select (is_live window t) r.granted ≡ select (is_live window t) (r.limiter.hits key)

length-select : {A : Type 0} (p : A → Bool) (xs : List A) → length (select p xs) ≤ length xs
length-select p [] = omega arith
length-select p (x ∷ xs) = let r = length-select p xs in ground arith

-- What is live later was live before.
select-live :
    (window now t : ℕ) (xs : List ℕ)
    → now ≤ t
    → select (is_live window t) (select (is_live window now) xs) ≡ select (is_live window t) xs
select-live window now t [] h = refl
select-live window now t (x ∷ xs) h =
    let r = select-live window now t xs h in
    ground (arith, ltb_iff now (x + window), ltb_iff t (x + window))

module _ (window limit : ℕ) (key : Str) (r : Run) (s : IsTracked window limit key r) (k : Str)
    (now : ℕ) (later : r.now ≤ now) where
  next : List ℕ
  next = live_hits r.limiter k now

  -- The state after the bucket of the call's key is set, with the log that goes with it.
  after : List ℕ → List ℕ → Run
  after bucket log = record { limiter = set_hits k bucket r.limiter; granted = log; now = now }

  -- The live hits of the key are those of the bucket before.
  next-live :
      (t : ℕ)
      → now ≤ t
      → key ≡ k
      → select (is_live window t) r.granted ≡ select (is_live window t) next
  unfolding next live_hits
  next-live t h same =
      s.tracked t (omega (arith, later, h))
      ∙ ap (λ x. select (is_live window t) (r.limiter.hits x)) same
      ∙ sym (select-live window now t (r.limiter.hits k) h)
      ∙ ap (λ w. select (is_live window t) (select (is_live w now) (r.limiter.hits k)))
          (sym s.window_is)

  other-IsTracked :
      (bucket : List ℕ) → str_eq key k ≡ false → IsTracked window limit key (after bucket r.granted)
  unfolding after set_hits
  other-IsTracked bucket differ = record {
    window_is = s.window_is;
    max_is = s.max_is;
    bounded = rw differ s.bounded;
    tracked = λ t h. rw differ (s.tracked t (omega (arith, later, h)));
  }

  refused-IsTracked : str_eq key k ≡ true → IsTracked window limit key (after next r.granted)
  unfolding after set_hits next live_hits
  refused-IsTracked same =
      let e = (str_eq_iff key k).0 same in
      let b : length (r.limiter.hits k) ≤ limit =
        subst (λ x. length (r.limiter.hits x) ≤ limit) e s.bounded in
      record {
        window_is = s.window_is;
        max_is = s.max_is;
        bounded =
            rw same (
              omega (arith, b, length-select (is_live r.limiter.window_ms now) (r.limiter.hits k)));
        tracked = λ t h. rw same (next-live t h e);
      }

  granted-IsTracked :
      str_eq key k ≡ true
      → leb r.limiter.max (length next) ≡ false
      → IsTracked window limit key (after (next ++ now ∷ []) (r.granted ++ now ∷ []))
  unfolding after set_hits
  granted-IsTracked same room =
      let e = (str_eq_iff key k).0 same in
      let m = s.max_is in
      let short : length next < limit = ground (arith, leb_iff r.limiter.max (length next), m) in
      record {
        window_is = s.window_is;
        max_is = s.max_is;
        bounded = rw same (omega (arith, short, length-append next (now ∷ [])));
        tracked = λ t h. rw same (
            select-append (is_live window t) r.granted (now ∷ [])
            ∙ ap (λ xs. xs ++ select (is_live window t) (now ∷ [])) (next-live t h e)
            ∙ sym (select-append (is_live window t) next (now ∷ [])));
      }

  taken-IsTracked :
      (full : Bool)
      → leb r.limiter.max (length next) ≡ full
      → IsTracked window limit key (record {
        limiter = (take_hit full r.limiter k now next).1;
        granted = log_call key (k, now) ((take_hit full r.limiter k now next).0) r.granted;
        now = now;
      })
  unfolding take_hit
  taken-IsTracked true full = elim (Bool-cases (str_eq key k)) [
    | inl same ↦ unfold after in refused-IsTracked same
    | inr differ ↦ unfold after in other-IsTracked next differ
  ]
  taken-IsTracked false room = elim (Bool-cases (str_eq key k)) [
    | inl same ↦ rw same (unfold after in granted-IsTracked same room)
    | inr differ ↦ rw differ (unfold after in other-IsTracked (next ++ now ∷ []) differ)
  ]

run-IsTracked :
    (window limit : ℕ) (key : Str) (calls : List Call) (r : Run)
    → Ascending r.now calls
    → IsTracked window limit key r
    → IsTracked window limit key (run key calls r)
unfolding run
run-IsTracked window limit key [] r up s = s
run-IsTracked window limit key ((k, now) ∷ calls) r (later, up) s =
    run-IsTracked window limit key calls _ up
      (unfold allow next in taken-IsTracked window limit key r s k now later _ refl)

-- A limiter as it is constructed, at some time.
abbrev pub fresh_run : ℕ → ℕ → ℕ → Run
fresh_run window limit now = record {
  limiter = record { window_ms = window; max = limit; hits = λ k. [] };
  granted = [];
  now = now;
}

-- However calls of any keys come in, as long as the clock does not go back, the calls granted to a
-- key within one window before any later time are never more than the maximum.
pub run-bound :
    (window limit start : ℕ) (key : Str) (calls : List Call) (t : ℕ)
    → Ascending start calls
    → (run key calls (fresh_run window limit start)).now ≤ t
    → length (select (is_live window t) (run key calls (fresh_run window limit start)).granted)
      ≤ limit
run-bound window limit start key calls t up later =
    let r = run key calls (fresh_run window limit start) in
    let s =
      run-IsTracked window limit key calls (fresh_run window limit start) up (record {
        window_is = refl;
        max_is = refl;
        bounded = omega arith;
        tracked = λ t h. refl;
      }) in
    let b = s.bounded in
    let e = ap length (s.tracked t later) in
    omega (arith, b, e, length-select (is_live window t) (r.limiter.hits key))
