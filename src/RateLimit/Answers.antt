-- ===== src/RateLimit/Answers.antt =====
-- Requests over time: what the limiter admits in any window (src/thumbelina/security/rate_limit.py).
use thumbelina.Prelude.{
  ℕ, ◌≤◌, ◌<◌, String, Bool, true, false, List, [], ◌∷◌, ◌++◌, ◌≡◌, ◌⊎◌, ◌↔◌, refl, sym, ◌∙◌, ap,
  arith, lookup, insert, str_eq, eq_iff, Bool-cases, inl, inr, leb, length, length-append,
  length-keep-le, keep, if◌then◌else◌,
}
use mathlib.Core.List.{append-nil}
use mathlib.Core.Path.{subst}
use thumbelina.RateLimit.{
  RateLimiter, Readings, times, live, clean_key, clean_old_requests, maybe_cleanup, admit,
  is_allowed, get_remaining, reset,
}
use thumbelina.RateLimit.Window.{
  times-clean_key-pop, SameLive, SameLive-clean_key, SameLive-maybe_cleanup, settings-maybe_cleanup,
  keep-append, times-insert,
}

-- the admitted requests, oldest first
abbrev pub History : Type 0
History = List (String × ℕ)

abbrev pub times_of : String → History → List ℕ
times_of key [] = []
times_of key ((k, t) ∷ h) = if str_eq k key then t ∷ times_of key h else times_of key h

-- the admissions of a key that a moment still counts
abbrev pub in_window : ℕ → ℕ → String → History → List ℕ
in_window w now key h = keep (live w now) (times_of key h)

pub record Call : Type 0 where
  pub key : String
  pub clock : Readings

-- one call, with the admissions recorded
unfoldable pub record_call : Bool × RateLimiter → Call → History → RateLimiter × History
record_call (false, s) c h = (s, h)
record_call (true, s) c h = (s, h ++ (c.key, c.clock.at_append) ∷ [])

unfoldable pub serve : RateLimiter → History → List Call → RateLimiter × History
unfolding record_call
serve s h [] = (s, h)
serve s h (c ∷ cs) = let (s', h') = record_call (is_allowed c.clock c.key s) c h in serve s' h' cs

-- the clock does not run backwards, within a call and from call to call
abbrev pub InOrder : ℕ → List Call → Type 0
InOrder now [] = Unit
InOrder now (c ∷ cs) =
    (now ≤ c.clock.at_check)
    × (c.clock.at_check ≤ c.clock.at_sweep)
    × (c.clock.at_sweep ≤ c.clock.at_clean)
    × (c.clock.at_clean ≤ c.clock.at_append)
    × InOrder c.clock.at_append cs

-- from `now` on, the table shows what was admitted, and no window holds more than the maximum
pub record IsWindow (w limit now : ℕ) (s : RateLimiter) (h : History) : Type 0 where
  pub window : s.window_seconds ≡ w
  pub limit_kept : s.max_requests ≡ limit
  pub seen :
      (later : ℕ) (j : String)
      → now ≤ later
      → keep (live w later) (times j s.requests) ≡ in_window w later j h
  pub bound : (later : ℕ) (j : String) → now ≤ later → length (in_window w later j h) ≤ limit

times_of-append :
    (j k : String) (t : ℕ) (h : History)
    → times_of j (h ++ (k, t) ∷ []) ≡ times_of j h ++ (if str_eq k j then t ∷ [] else [])
times_of-append j k t [] = ground arith
times_of-append j k t ((i, u) ∷ h) = ground (arith, times_of-append j k t h)

-- an admission at `t` under `key`, where the table has fewer than the maximum under that key
module _ (w limit now t : ℕ) (key : String) (s : RateLimiter) (h : History) (late : now ≤ t)
    (v : IsWindow w limit now s h) where
  times-admitted :
      (j : String)
      → times j (insert key (times key s.requests ++ t ∷ []) s.requests)
        ≡ times j s.requests ++ (if str_eq key j then t ∷ [] else [])
  times-admitted j =
      times-insert key j (times key s.requests ++ t ∷ []) s.requests
      ∙ split (Bool-cases (str_eq key j))
    where
      split :
          (str_eq key j ≡ true) ⊎ (str_eq key j ≡ false)
          → (if str_eq key j then times key s.requests ++ t ∷ [] else times j s.requests)
            ≡ times j s.requests ++ (if str_eq key j then t ∷ [] else [])
      split (inl e) = rw e (ap (λ k. times k s.requests ++ t ∷ []) ((eq_iff key j).0 e))
      split (inr e) = rw e (sym (append-nil (times j s.requests)))

  admitted-seen :
      (later : ℕ) (j : String)
      → t ≤ later
      → keep (live w later) (times j (insert key (times key s.requests ++ t ∷ []) s.requests))
        ≡ in_window w later j (h ++ (key, t) ∷ [])
  admitted-seen later j k =
      rw (times-admitted, times_of-append)
        (keep-append (live w later) (times j s.requests) (if str_eq key j then t ∷ [] else [])
          ∙ ap (λ xs. xs ++ keep (live w later) (if str_eq key j then t ∷ [] else []))
              (v.seen later j (omega arith))
          ∙ sym (keep-append (live w later) (times_of j h) (if str_eq key j then t ∷ [] else [])))

  admitted-bound :
      length (times key s.requests) < limit
      → (later : ℕ) (j : String) → t ≤ later
      → length (in_window w later j (h ++ (key, t) ∷ [])) ≤ limit
  admitted-bound room later j k = elim (Bool-cases (str_eq key j)) [
    | inl e ↦
        let fits : length (keep (live w later) (times j s.requests)) < limit = omega (
          arith,
          length-keep-le (live w later) (times j s.requests),
          ap (λ i. length (times i s.requests)) ((eq_iff key j).0 e),
        ) in
        rw (times_of-append, e, keep-append, length-append)
          (omega (
            arith,
            fits,
            ap length (v.seen later j (omega arith)),
            length-keep-le (live w later) (t ∷ []),
          ))
    | inr e ↦ rw (times_of-append, e, append-nil) (v.bound later j (omega arith))
  ]

  admitted-IsWindow :
      length (times key s.requests) < limit
      → IsWindow w limit t
          (record s { requests = insert key (times key s.requests ++ t ∷ []) s.requests })
          (h ++ (key, t) ∷ [])
  admitted-IsWindow room = record {
    window = v.window;
    limit_kept = v.limit_kept;
    seen = admitted-seen;
    bound = admitted-bound room;
  }

later-IsWindow :
    {w limit now later : ℕ} {s : RateLimiter} {h : History}
    → now ≤ later
    → IsWindow w limit now s h
    → IsWindow w limit later s h
later-IsWindow k v = record {
  window = v.window;
  limit_kept = v.limit_kept;
  seen = λ m j l. v.seen m j (omega arith);
  bound = λ m j l. v.bound m j (omega arith);
}

-- the cleaning before the decision
cleaned-IsWindow :
    (w limit now : ℕ) (r : Readings) (key : String) (s : RateLimiter) (h : History)
    → now ≤ r.at_sweep
    → r.at_sweep ≤ r.at_clean
    → IsWindow w limit now s h
    → IsWindow w limit r.at_clean (clean_old_requests r.at_clean key (maybe_cleanup r s)) h
unfolding clean_old_requests
cleaned-IsWindow w limit now r key s h a b v =
    let (same_window, same_limit) = settings-maybe_cleanup r s in
    record {
      window = same_window ∙ v.window;
      limit_kept = same_limit ∙ v.limit_kept;
      seen = λ later j l.
          subst
            (λ x.
              keep (live w later)
                (times j (clean_key x r.at_clean key (maybe_cleanup r s).requests))
              ≡ in_window w later j h)
            (sym (same_window ∙ v.window))
            (SameLive-clean_key w r.at_clean later key (maybe_cleanup r s).requests l j
              ∙ subst (λ x. SameLive x later (maybe_cleanup r s).requests s.requests) v.window
                  (SameLive-maybe_cleanup r later s (omega arith)) j
              ∙ v.seen later j (omega arith));
      bound = λ later j l. v.bound later j (omega arith);
    }

-- the decision, on a cleaned table
admit-IsWindow :
    (w limit now : ℕ) (c : Call) (s : RateLimiter) (h : History)
    → now ≤ c.clock.at_append
    → IsWindow w limit now s h
    → let (s', h') = record_call (admit c.clock.at_append c.key s) c h in
      IsWindow w limit c.clock.at_append s' h'
unfolding admit record_call
admit-IsWindow w limit now c s h late v =
    elim (Bool-cases (leb s.max_requests (length (times c.key s.requests)))) [
      | inl full ↦ rw full (later-IsWindow late v)
      | inr room ↦ rw room (
          admitted-IsWindow w limit now c.clock.at_append c.key s h late v
            (ground (arith, v.limit_kept)))
    ]

abbrev pub last_moment : ℕ → List Call → ℕ
last_moment now [] = now
last_moment now (c ∷ cs) = last_moment c.clock.at_append cs

serve-IsWindow :
    (w limit now : ℕ) (s : RateLimiter) (h : History) (cs : List Call)
    → InOrder now cs
    → IsWindow w limit now s h
    → IsWindow w limit (last_moment now cs) (serve s h cs).0 (serve s h cs).1
unfolding serve is_allowed
serve-IsWindow w limit now s h [] order v = v
serve-IsWindow w limit now s h (c ∷ cs) (a, b, d, e, order) v =
    let cleaned = cleaned-IsWindow w limit now c.clock c.key s h (omega arith) d v in
    serve-IsWindow w limit c.clock.at_append _ _ cs order
      (admit-IsWindow w limit c.clock.at_clean c _ h e cleaned)

abbrev pub fresh : ℕ → ℕ → ℕ → ℕ → RateLimiter
fresh limit w interval now = record {
  max_requests = limit;
  window_seconds = w;
  requests = [];
  last_cleanup = now;
  cleanup_interval = interval;
}

fresh-IsWindow : (w limit interval now : ℕ) → IsWindow w limit now (fresh limit w interval now) []
unfolding lookup
fresh-IsWindow w limit interval now = record {
  window = refl;
  limit_kept = refl;
  seen = λ later j k. refl;
  bound = λ later j k. omega arith;
}

-- A new limiter answers any calls, of any keys, whose clock readings do not run backwards. From the
-- last call on, whatever moment is taken, no key has had more than `max_requests` admissions in the
-- window that ends there, and the limiter's list for the key, as that moment filters it, is exactly
-- the list of those admissions.
pub no_window_exceeds :
    (limit w interval now : ℕ) (cs : List Call) (later : ℕ) (key : String)
    → InOrder now cs
    → last_moment now cs ≤ later
    → let (s, h) = serve (fresh limit w interval now) [] cs in
      (length (in_window w later key h) ≤ limit)
      × (keep (live w later) (times key s.requests) ≡ in_window w later key h)
no_window_exceeds limit w interval now cs later key order l =
    let v =
      serve-IsWindow w limit now (fresh limit w interval now) [] cs order
        (fresh-IsWindow w limit interval now) in
    (v.bound later key l, v.seen later key l)

-- At one moment, with the table cleaned for the key, the limiter has a remaining request for the key
-- exactly when it would admit one; and a reset leaves the full number.
pub remaining_iff_admitted :
    (now : ℕ) (key : String) (s : RateLimiter)
    → let (n, s') = get_remaining now key s in
      ((0 < n) ↔ ((admit now key s').0 ≡ true))
      × ((get_remaining now key (reset key s)).0 ≡ s.max_requests)
unfolding get_remaining admit reset
remaining_iff_admitted now key s = (
  (λ h. ground arith, λ h. ground arith),
  omega (arith, ap length (times-clean_key-pop s.window_seconds now key s.requests)),
)
