-- ===== src/RateLimit.antt =====
-- apps/core-api/src/rate-limit.ts: a limit on the calls of a key within a window of time.
pub mod Window
use verity_os_v.Base.{
  ℕ, ◌+◌, Str, str_eq, Bool, true, false, not, List, [], ◌∷◌, ◌++◌, length, select, leb, ltb,
  Result, ok, throw, if◌then◌else◌,
}

-- `new MemoryRateLimiter(windowMs, max)`, with the map of hits as the function of `get(key) ?? []`.
pub record MemoryRateLimiter : Type 0 where
  pub window_ms : ℕ
  pub max : ℕ
  pub hits : Str → List ℕ

-- hits.set(key, bucket)
unfoldable pub set_hits : Str → List ℕ → MemoryRateLimiter → MemoryRateLimiter
set_hits key bucket limiter = record limiter {
  hits = λ k. if str_eq k key then bucket else limiter.hits k;
}

-- now - ts < windowMs, on numbers that may be in either order
abbrev pub is_live : ℕ → ℕ → ℕ → Bool
is_live window now ts = ltb now (ts + window)

unfoldable pub live_hits : MemoryRateLimiter → Str → ℕ → List ℕ
live_hits limiter key now = select (is_live limiter.window_ms now) (limiter.hits key)

-- Where the live hits fill the limit the call is refused, and otherwise it is one more hit.
unfoldable pub take_hit : Bool → MemoryRateLimiter → Str → ℕ → List ℕ → Bool × MemoryRateLimiter
take_hit true limiter key now next = (false, set_hits key next limiter)
take_hit false limiter key now next = (true, set_hits key (next ++ now ∷ []) limiter)

unfoldable pub allow : MemoryRateLimiter → Str → ℕ → Bool × MemoryRateLimiter
allow limiter key now =
    let next = live_hits limiter key now in
    take_hit (leb limiter.max (length next)) limiter key now next

unfoldable pub reset : MemoryRateLimiter → MemoryRateLimiter
reset limiter = record limiter { hits = λ k. [] }

pub data LimitError : Type 0 where
  rate_limited : LimitError

unfoldable pub granted_or_thrown :
    Bool × MemoryRateLimiter → Result LimitError (Unit {0}) × MemoryRateLimiter
granted_or_thrown (true, limiter) = (ok tt, limiter)
granted_or_thrown (false, limiter) = (throw rate_limited, limiter)

-- `enabled` is what the environment says.
unfoldable pub enforce_limit :
    Bool → MemoryRateLimiter → Str → ℕ → Result LimitError (Unit {0}) × MemoryRateLimiter
unfolding granted_or_thrown
enforce_limit enabled limiter key now =
    if not enabled then (ok tt, limiter) else granted_or_thrown (allow limiter key now)
