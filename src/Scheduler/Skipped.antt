-- ===== src/Scheduler/Skipped.antt =====
-- What the count of skipped cron occurrences counts (`_count_skipped_occurrences` of
-- src/thumbelina/scheduler/scheduler.py).
use mathlib.Core.Path.{subst}
use thumbelina.Prelude.{
  ℕ, zero, suc, ◌+◌, ◌≤◌, ◌<◌, String, Option, none, some, ◌≡◌, refl, ◌⊎◌, inl, inr, arith, ltb,
  if_known,
}
use thumbelina.Scheduler.Cron.{
  Croniter, next_after, skipped_from, count_skipped_occurrences, max_skipped_occurrences,
}

-- that many consecutive fire times not after `now`, from a moment on, with the last of them
pub data Fires (next : ℕ → Option ℕ) (now : ℕ) : ℕ → ℕ → ℕ → Type 0 where
  no_more : {at : ℕ} → Fires next now at 0 at
  one_more :
      {at u n last : ℕ}
      → next at ≡ some u
      → u ≤ now
      → Fires next now u n last
      → Fires next now at (suc n) last

-- after `last` there is no fire time, or the next one is after `now`
pub data IsLast (next : ℕ → Option ℕ) (now last : ℕ) : Type 0 where
  ended : next last ≡ none → IsLast next now last
  later : {u : ℕ} → next last ≡ some u → now < u → IsLast next now last

Counts : (ℕ → Option ℕ) → ℕ → ℕ → ℕ → ℕ → ℕ → Type 0
Counts next now left count cursor result =
    (k : ℕ) × (last : ℕ) × (result ≡ count + k)
    × Fires next now cursor k last
    × (k ≤ left)
    × ((k ≡ left) ⊎ IsLast next now last)

Counts-none :
    (next : ℕ → Option ℕ) (now left count cursor : ℕ)
    → IsLast next now cursor
    → Counts next now left count cursor count
unfolding Counts
Counts-none next now left count cursor h = (0, cursor, omega arith, no_more, omega arith, inr h)

Counts-one :
    (next : ℕ → Option ℕ) (now left count cursor u result : ℕ)
    → next cursor ≡ some u
    → u ≤ now
    → Counts next now left (count + 1) u result
    → Counts next now (suc left) count cursor result
unfolding Counts
Counts-one next now left count cursor u result e h (k, last, r, f, l, inl x) =
    (suc k, last, omega (arith, r), one_more e h f, omega (arith, l), inl (omega (arith, x)))
Counts-one next now left count cursor u result e h (k, last, r, f, l, inr x) =
    (suc k, last, omega (arith, r), one_more e h f, omega (arith, l), inr x)

Counts-end : (next : ℕ → Option ℕ) (now count cursor : ℕ) → Counts next now 0 count cursor count
unfolding Counts
Counts-end next now count cursor = (0, cursor, omega arith, no_more, omega arith, inl refl)

skipped_from-Counts :
    (next : ℕ → Option ℕ) (now left count cursor : ℕ)
    → Counts next now left count cursor (skipped_from next now left count cursor)
unfolding skipped_from
skipped_from-Counts next now zero count cursor = Counts-end next now count cursor
skipped_from-Counts next now (suc left) count cursor =
    split (next cursor) refl (λ u. skipped_from-Counts next now left (count + 1) u)
  where
    split :
        (o : Option ℕ)
        → next cursor ≡ o
        → ((u : ℕ) → Counts next now left (count + 1) u (skipped_from next now left (count + 1) u))
        → Counts next now (suc left) count cursor (skipped_from next now (suc left) count cursor)
    split none e rest =
        rw (e, skipped_from) (Counts-none next now (suc left) count cursor (ended e))
    split (some u) e rest =
        rw (e, skipped_from)
          (if_known (λ n. Counts next now (suc left) count cursor n) (ltb now u)
            (λ h. Counts-none next now (suc left) count cursor (later e (ground (arith, h))))
            (λ h.
              Counts-one next now left count cursor u (skipped_from next now left (count + 1) u) e
                (ground (arith, h)) (rest u)))

-- The count is the number of consecutive fire times of the expression after `after` that are not
-- after `now`: so many there are, and either the count is the cap or there is no further one.
pub count_skipped_occurrences_lem :
    (c : Croniter) (expr : String) (after now : ℕ)
    → (last : ℕ) × Fires
        (next_after c expr)
        now
        after
        (count_skipped_occurrences c expr after now)
        last
      × (count_skipped_occurrences c expr after now ≤ max_skipped_occurrences)
      × ((count_skipped_occurrences c expr after now ≡ max_skipped_occurrences)
          ⊎ IsLast (next_after c expr) now last)
unfolding count_skipped_occurrences Counts
count_skipped_occurrences_lem c expr after now =
    let (k, last, r, f, l, x) =
      skipped_from-Counts (next_after c expr) now max_skipped_occurrences 0 after in
    let same : k ≡ skipped_from (next_after c expr) now max_skipped_occurrences 0 after =
      omega (arith, r) in
    (
      last,
      subst (λ n. Fires (next_after c expr) now after n last) same f,
      omega (arith, r, l),
      subst (λ n. (n ≡ max_skipped_occurrences) ⊎ IsLast (next_after c expr) now last) same x,
    )
