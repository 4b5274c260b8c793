-- ===== src/Approvals/Timers.antt =====
-- No request waits without a timer that will deny it
-- (src/thumbelina/api/permission_broker.py).
use mathlib.Core.Path.{subst}
use thumbelina.Prelude.{
  ℕ, ◌<◌, String, true, false, Option, none, some, List, Dict, lookup, pop, lookup-pop, is_some,
  str_eq, eq_iff, ◌≡◌, refl, sym, ap, ◌∙◌, ◌⊎◌, arith, if◌then◌else◌, if_known,
}
use thumbelina.Approvals.{
  Decision, Pending, PermissionBroker, update, done, set_result, cancel_timer, deny_pending,
  on_timeout, settle, discard_found,
}

-- what holds of an entry: its timer carries its key, and is armed unless the request is answered
pub record HasTimer (s : PermissionBroker) (k : String) (p : Pending) (i : ℕ) : Type 0 where
  pub handle : p.timeout_handle ≡ some i
  pub known : i < s.next_timer
  pub carries : s.request_of i ≡ k
  pub waits : (done s p ≡ true) ⊎ (s.armed i ≡ true)

pub record IsTimed (s : PermissionBroker) : Type 0 where
  pub timed : 0 < s.timeout
  pub timers :
      (k : String) (p : Pending)
      → lookup k s.pending ≡ some p
      → (p.future < s.next_future) × ((i : ℕ) × HasTimer s k p i)

-- a change of answers, timers and entries that takes no timer from a request that waits
pub record Keeps (s s' : PermissionBroker) : Type 0 where
  timeout : s'.timeout ≡ s.timeout
  futures : s'.next_future ≡ s.next_future
  timers : s'.next_timer ≡ s.next_timer
  requests : s'.request_of ≡ s.request_of
  entries : (k : String) (p : Pending) → lookup k s'.pending ≡ some p → lookup k s.pending ≡ some p
  answers : (f : ℕ) → is_some (s.results f) ≡ true → is_some (s'.results f) ≡ true
  arms :
      (k : String) (p : Pending) (i : ℕ)
      → lookup k s'.pending ≡ some p
      → HasTimer s k p i
      → (done s' p ≡ true) ⊎ (s'.armed i ≡ true)

pub Keeps-IsTimed : {s s' : PermissionBroker} → Keeps s s' → IsTimed s → IsTimed s'
Keeps-IsTimed {s} {s'} c h = record {
  timed = omega (arith, c.timeout, h.timed);
  timers = λ k p e.
      let (f, (i, t)) = h.timers k p (c.entries k p e) in
      (
        omega (arith, f, c.futures),
        (
          i,
          record {
            handle = t.handle;
            known = omega (arith, t.known, c.timers);
            carries = ap (λ (r : ℕ → String). r i) c.requests ∙ t.carries;
            waits = c.arms k p i e t;
          },
        ),
      );
}

-- the entry of a timer's request is the one that the timer belongs to
same_entry :
    (s : PermissionBroker) (k : String) (p : Pending) (i j : ℕ) (o : Option Pending)
    → lookup (s.request_of i) s.pending ≡ o
    → lookup k s.pending ≡ some p
    → HasTimer s k p j
    → i ≡ j
    → o ≡ some p
same_entry s k p i j o at e t same =
    sym at
    ∙ ap (λ n. lookup (s.request_of n) s.pending) same
    ∙ ap (λ n. lookup n s.pending) t.carries
    ∙ e

-- disarming timer i and denying the entry of its request
deny-Keeps :
    (i : ℕ) (s : PermissionBroker) (o : Option Pending)
    → lookup (s.request_of i) s.pending ≡ o
    → Keeps s (deny_pending o (record s { armed = update s.armed i false }))
unfolding deny_pending
deny-Keeps i s none at = record {
  timeout = refl;
  futures = refl;
  timers = refl;
  requests = refl;
  entries = λ k p e. e;
  answers = λ f h. h;
  arms = λ k p j e t. ground (arith, same_entry s k p i j none at e t, t.waits);
}
deny-Keeps i s (some q) at =
    if_known (λ (s' : PermissionBroker). Keeps s s') (done s q)
      (λ d. record {
        timeout = refl;
        futures = refl;
        timers = refl;
        requests = refl;
        entries = λ k p e. e;
        answers = λ f h. h;
        arms = λ k p j e t. ground (arith, same_entry s k p i j (some q) at e t, t.waits, d);
      })
      (λ d. record {
        timeout = refl;
        futures = refl;
        timers = refl;
        requests = refl;
        entries = λ k p e. e;
        answers = λ f h. ground (arith, h);
        arms = λ k p j e t. ground (arith, same_entry s k p i j (some q) at e t, t.waits, d);
      })

pub on_timeout-Keeps : (i : ℕ) (s : PermissionBroker) → Keeps s (on_timeout i s)
unfolding on_timeout
on_timeout-Keeps i s = deny-Keeps i s (lookup (s.request_of i) s.pending) refl

-- two entries with one timer are one entry
same_owner :
    (s : PermissionBroker) (id k : String) (q p : Pending) (i j : ℕ)
    → lookup id s.pending ≡ some q
    → HasTimer s id q i
    → lookup k s.pending ≡ some p
    → HasTimer s k p j
    → i ≡ j
    → (id ≡ k) × (some q ≡ some p)
same_owner s id k q p i j at u e t same =
    let key = sym u.carries ∙ ap s.request_of same ∙ t.carries in
    (key, sym at ∙ ap (λ n. lookup n s.pending) key ∙ e)

settle_at : Option ℕ → Pending → List Decision → PermissionBroker → PermissionBroker
unfolding cancel_timer
settle_at o q ds s = let s' = cancel_timer o s in if done s' q then s' else set_result q ds s'

pub settle-Keeps :
    (id : String) (q : Pending) (i : ℕ) (ds : List Decision) (s : PermissionBroker)
    → lookup id s.pending ≡ some q
    → HasTimer s id q i
    → Keeps s (settle q ds s)
unfolding settle settle_at
settle-Keeps id q i ds s at u =
    subst (λ o. Keeps s (settle_at o q ds s)) (sym u.handle)
      (if_known (λ (s' : PermissionBroker). Keeps s s') (done s q)
        (λ d. record {
          timeout = refl;
          futures = refl;
          timers = refl;
          requests = refl;
          entries = λ k p e. e;
          answers = λ f h. h;
          arms = λ k p j e t. ground (arith, same_owner s id k q p i j at u e t, t.waits, d);
        })
        (λ d. record {
          timeout = refl;
          futures = refl;
          timers = refl;
          requests = refl;
          entries = λ k p e. e;
          answers = λ f h. ground (arith, h);
          arms = λ k p j e t. ground (arith, same_owner s id k q p i j at u e t, t.waits, d);
        }))

-- a change of the answers that came early changes nothing else
pub early-Keeps :
    (early : Dict (List Decision)) (s : PermissionBroker) → Keeps s (record s { early = early })
early-Keeps early s = record {
  timeout = refl;
  futures = refl;
  timers = refl;
  requests = refl;
  entries = λ k p e. e;
  answers = λ f h. h;
  arms = λ k p j e t. t.waits;
}

pub discard_found-Keeps :
    (id : String) (s : PermissionBroker) (o : Option Pending)
    → lookup id s.pending ≡ o
    → IsTimed s
    → Keeps s (discard_found o (record s { pending = pop id s.pending }))
unfolding discard_found
discard_found-Keeps id s none at h = record {
  timeout = refl;
  futures = refl;
  timers = refl;
  requests = refl;
  entries = λ k p e. ground (arith, lookup-pop id k s.pending, e);
  answers = λ f d. d;
  arms = λ k p j e t. t.waits;
}
discard_found-Keeps id s (some q) at h =
    let (f, (i, u)) = h.timers id q at in
    subst (λ o. Keeps s (cancel_timer o (record s { pending = pop id s.pending }))) (sym u.handle)
      (cancel_popped i u)
  where
    cancel_popped :
        (i : ℕ)
        → HasTimer s id q i
        → Keeps s (cancel_timer (some i) (record s { pending = pop id s.pending }))
    cancel_popped i u = record {
      timeout = refl;
      futures = refl;
      timers = refl;
      requests = refl;
      entries = λ k p e. ground (arith, lookup-pop id k s.pending, e);
      answers = λ f d. d;
      arms = λ k p j e t.
          let still : lookup k s.pending ≡ some p = ground (arith, lookup-pop id k s.pending, e) in
          let other : str_eq id k ≡ false = ground (arith, lookup-pop id k s.pending, e) in
          ground (arith, same_owner s id k q p i j at u still t, eq_iff id k, other, t.waits);
    }
