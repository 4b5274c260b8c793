-- ===== src/RateLimit/Window.antt =====
-- What the limiter holds for a key, as later moments see it.
use thumbelina.Prelude.{
  ℕ, ◌+◌, ◌≤◌, String, Bool, List, [], ◌∷◌, ◌++◌, ◌≡◌, refl, ◌∙◌, ap, arith, Dict, insert, pop,
  lookup-insert, lookup-pop, str_eq, eq_iff, eq_refl, Bool-cases, inl, inr, ltb, keep,
  if◌then◌else◌,
}
use thumbelina.RateLimit.{
  RateLimiter, Readings, times, live, store, clean_key, sweep, keys_of, maybe_cleanup,
}

-- what is live later is live now
pub keep-live-keep :
    (w now later : ℕ) (ts : List ℕ)
    → now ≤ later
    → keep (live w later) (keep (live w now) ts) ≡ keep (live w later) ts
keep-live-keep w now later [] h = refl
keep-live-keep w now later (t ∷ ts) h = ground (arith, keep-live-keep w now later ts h)

pub keep-append : (p : ℕ → Bool) (xs ys : List ℕ) → keep p (xs ++ ys) ≡ keep p xs ++ keep p ys
keep-append p [] ys = refl
keep-append p (x ∷ xs) ys = ground (arith, keep-append p xs ys)

pub times-store :
    (key j : String) (ts : List ℕ) (d : Dict (List ℕ))
    → times j (store key ts d) ≡ (if str_eq key j then ts else times j d)
times-store key j [] d = ground (arith, lookup-pop key j d)
times-store key j (t ∷ ts) d = ground (arith, lookup-insert key j (t ∷ ts) d)

pub times-insert :
    (key j : String) (ts : List ℕ) (d : Dict (List ℕ))
    → times j (insert key ts d) ≡ (if str_eq key j then ts else times j d)
times-insert key j ts d = ground (arith, lookup-insert key j ts d)

pub times-clean_key-pop :
    (w now : ℕ) (key : String) (d : Dict (List ℕ))
    → times key (clean_key w now key (pop key d)) ≡ []
unfolding clean_key
times-clean_key-pop w now key d =
    let none_left : times key (pop key d) ≡ [] =
      ground (arith, lookup-pop key key d, eq_refl key) in
    times-store key key (keep (live w now) (times key (pop key d))) (pop key d)
    ∙ rw (eq_refl, none_left)

-- What a moment `later` sees of every key is the same in both tables.
abbrev pub SameLive : ℕ → ℕ → Dict (List ℕ) → Dict (List ℕ) → Type 0
SameLive w later d e =
    (j : String) → keep (live w later) (times j d) ≡ keep (live w later) (times j e)

pub SameLive-clean_key :
    (w now later : ℕ) (key : String) (d : Dict (List ℕ))
    → now ≤ later
    → SameLive w later (clean_key w now key d) d
unfolding clean_key
SameLive-clean_key w now later key d h j = elim (Bool-cases (str_eq key j)) [
  | inl e ↦
      let same = (eq_iff key j).0 e in
      rw times-store (
        rw e (
          keep-live-keep w now later (times key d) h
          ∙ ap (λ k. keep (live w later) (times k d)) same))
  | inr e ↦ rw times-store (rw e)
]

SameLive-sweep :
    (w now later : ℕ) (keys : List String) (d : Dict (List ℕ))
    → now ≤ later
    → SameLive w later (sweep w now keys d) d
unfolding sweep
SameLive-sweep w now later [] d h j = refl
SameLive-sweep w now later (key ∷ keys) d h j =
    SameLive-sweep w now later keys (clean_key w now key d) h j
    ∙ SameLive-clean_key w now later key d h j

-- the housekeeping of a call changes no setting and nothing that a later moment sees
pub SameLive-maybe_cleanup :
    (r : Readings) (later : ℕ) (s : RateLimiter)
    → r.at_sweep ≤ later
    → SameLive s.window_seconds later (maybe_cleanup r s).requests s.requests
unfolding maybe_cleanup
SameLive-maybe_cleanup r later s h j =
    elim (Bool-cases (ltb (s.last_cleanup + s.cleanup_interval) r.at_check)) [
      | inl e ↦
          rw e
            (SameLive-sweep s.window_seconds r.at_sweep later (keys_of s.requests) s.requests h j)
      | inr e ↦ rw e
    ]

pub settings-maybe_cleanup :
    (r : Readings) (s : RateLimiter)
    → ((maybe_cleanup r s).window_seconds ≡ s.window_seconds)
      × ((maybe_cleanup r s).max_requests ≡ s.max_requests)
unfolding maybe_cleanup
settings-maybe_cleanup r s = (ground arith, ground arith)
