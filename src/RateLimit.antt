-- ===== src/RateLimit.antt =====
-- The sliding-window rate limiter (src/thumbelina/security/rate_limit.py). A time is a number of
-- clock ticks, and every reading of `time.time()` is an argument.
pub mod Window
pub mod Answers
mod Examples
use thumbelina.Prelude.{
  ℕ, ◌+◌, ◌-◌, String, Bool, true, false, Option, none, some, List, [], ◌∷◌, ◌++◌, Dict, lookup,
  insert, pop, ltb, leb, length, keep, map, if◌then◌else◌,
}

pub record RateLimiter : Type 0 where
  pub max_requests : ℕ
  pub window_seconds : ℕ
  pub requests : Dict (List ℕ)
  pub last_cleanup : ℕ
  pub cleanup_interval : ℕ

-- `self._requests.get(key, [])`
abbrev pub times : String → Dict (List ℕ) → List ℕ
times key d = elim (lookup key d) [ none ↦ [] | some ts ↦ ts ]

-- `t > now - window`, with the window on the other side
abbrev pub live : ℕ → ℕ → ℕ → Bool
live window now t = ltb now (t + window)

-- a list under its key, or no entry where the list is empty
abbrev pub store : String → List ℕ → Dict (List ℕ) → Dict (List ℕ)
store key [] d = pop key d
store key (t ∷ ts) d = insert key (t ∷ ts) d

-- one key's list without its expired times
unfoldable pub clean_key : ℕ → ℕ → String → Dict (List ℕ) → Dict (List ℕ)
clean_key window now key d = store key (keep (live window now) (times key d)) d

unfoldable pub clean_old_requests : ℕ → String → RateLimiter → RateLimiter
unfolding clean_key
clean_old_requests now key s = record s { requests = clean_key s.window_seconds now key s.requests }

-- The loop of `_cleanup_all_expired` over the keys. Its second loop, which deletes the keys whose
-- list became empty, is done key by key.
unfoldable pub sweep : ℕ → ℕ → List String → Dict (List ℕ) → Dict (List ℕ)
unfolding clean_key
sweep window now [] d = d
sweep window now (key ∷ keys) d = sweep window now keys (clean_key window now key d)

abbrev pub keys_of : Dict (List ℕ) → List String
keys_of d = map (λ e. e.0) d

unfoldable pub cleanup_all_expired : ℕ → RateLimiter → RateLimiter
unfolding sweep
cleanup_all_expired now s = record s {
  requests = sweep s.window_seconds now (keys_of s.requests) s.requests;
  last_cleanup = now;
}

-- The readings of the clock in one call of `is_allowed`, in their order.
pub record Readings : Type 0 where
  pub at_check : ℕ
  pub at_sweep : ℕ
  pub at_clean : ℕ
  pub at_append : ℕ

unfoldable pub maybe_cleanup : Readings → RateLimiter → RateLimiter
unfolding cleanup_all_expired
maybe_cleanup r s =
    if ltb (s.last_cleanup + s.cleanup_interval) r.at_check
    then cleanup_all_expired r.at_sweep s
    else s

unfoldable pub admit : ℕ → String → RateLimiter → Bool × RateLimiter
admit now key s =
    if leb s.max_requests (length (times key s.requests))
    then (false, s)
    else (true, record s { requests = insert key (times key s.requests ++ now ∷ []) s.requests })

unfoldable pub is_allowed : Readings → String → RateLimiter → Bool × RateLimiter
unfolding maybe_cleanup clean_old_requests admit
is_allowed r key s = admit r.at_append key (clean_old_requests r.at_clean key (maybe_cleanup r s))

unfoldable pub get_remaining : ℕ → String → RateLimiter → ℕ × RateLimiter
unfolding clean_old_requests
get_remaining now key s =
    let s' = clean_old_requests now key s in (s'.max_requests - length (times key s'.requests), s')

unfoldable pub reset : String → RateLimiter → RateLimiter
reset key s = record s { requests = pop key s.requests }
