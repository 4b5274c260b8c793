-- ===== src/Approvals/Deadlines.antt =====
-- In every reachable state a request that waits has a timer that will deny it
-- (src/thumbelina/api/permission_broker.py).
use mathlib.Core.Option.{some_inj}
use mathlib.Core.Path.{subst}
use thumbelina.Prelude.{
  ℕ, ◌<◌, String, Bool, true, false, Option, none, some, List, [], ◌∷◌, lookup, pop, lookup-insert,
  str_eq, eq_iff, ltb, ◌≡◌, refl, sym, ap, ◌∙◌, inr, arith, if_known, if_both,
}
use thumbelina.Approvals.{
  Decision, Payload, Pending, PermissionBroker, done, deny_all, request_id_of, register_with,
  register, deny_pending, on_timeout, resolve_found, resolve, discard_found, discard, settle_early,
  wait_found, wait_begin, stale_of, discard_all, clear_conversation,
}
use thumbelina.Approvals.Timers.{
  HasTimer, IsTimed, Keeps-IsTimed, on_timeout-Keeps, settle-Keeps, early-Keeps,
  discard_found-Keeps,
}
use thumbelina.Approvals.Steps.{
  Step, Steps, here, next, registers, times_out, resolves, begins_wait, ends_wait, clears,
}

discard-IsTimed : (id : String) (s : PermissionBroker) → IsTimed s → IsTimed (discard id s)
unfolding discard
discard-IsTimed id s h =
    let s' = discard_found (lookup id s.pending) (record s { pending = pop id s.pending }) in
    Keeps-IsTimed (early-Keeps (pop id s'.early) s')
      (Keeps-IsTimed (discard_found-Keeps id s (lookup id s.pending) refl h) h)

discard_all-IsTimed :
    (ids : List String) (s : PermissionBroker) → IsTimed s → IsTimed (discard_all ids s)
unfolding discard_all
discard_all-IsTimed [] s h = h
discard_all-IsTimed (id ∷ ids) s h = discard_all-IsTimed ids (discard id s) (discard-IsTimed id s h)

resolve-IsTimed :
    (id : String) (ds : List Decision) (s : PermissionBroker) (o : Option Pending)
    → lookup id s.pending ≡ o
    → IsTimed s
    → IsTimed (resolve_found o ds s).1
unfolding resolve_found
resolve-IsTimed id ds s none at h = h
resolve-IsTimed id ds s (some q) at h =
    let (f, (i, u)) = h.timers id q at in
    if_both (λ (r : Bool × PermissionBroker). IsTimed (r.1)) (done s q) h
      (Keeps-IsTimed (settle-Keeps id q i ds s at u) h)

wait-IsTimed :
    (id : String) (s : PermissionBroker) (o : Option Pending)
    → lookup id s.pending ≡ o
    → IsTimed s
    → IsTimed (wait_found o id s).1
unfolding wait_found settle_early
wait-IsTimed id s none at h = Keeps-IsTimed (early-Keeps (pop id s.early) s) h
wait-IsTimed id s (some q) at h = early (lookup id s.early)
  where
    early : (e : Option (List Decision)) → IsTimed (settle_early e id q s)
    early none = h
    early (some ds) =
        let s' = record s { early = pop id s.early } in
        let h' = Keeps-IsTimed (early-Keeps (pop id s.early) s) h in
        let (f, (i, u)) = h'.timers id q at in Keeps-IsTimed (settle-Keeps id q i ds s' at u) h'

-- the entry that a registration makes
abbrev entry_of : Option String → Payload → String → PermissionBroker → Pending
entry_of conversation payload id s = record {
  conversation_id = conversation;
  payload = record payload { request_id = some id };
  future = s.next_future;
  timeout_handle = some s.next_timer;
}

-- the property of one entry that `IsTimed` asks for
abbrev Owned : PermissionBroker → String → Pending → Type 0
Owned s k p = (p.future < s.next_future) × ((i : ℕ) × HasTimer s k p i)

register_with-fresh :
    (conversation : Option String) (payload : Payload) (id : String) (s : PermissionBroker)
    → Owned (register_with true conversation payload id s) id (entry_of conversation payload id s)
unfolding register_with
register_with-fresh conversation payload id s = (
  omega arith,
  (
    s.next_timer,
    record {
      handle = refl;
      known = omega arith;
      carries = ground arith;
      waits = inr (ground arith);
    },
  ),
)

register_with-old :
    (conversation : Option String) (payload : Payload) (id k : String) (p : Pending)
    (s : PermissionBroker)
    → Owned s k p
    → Owned (register_with true conversation payload id s) k p
unfolding register_with
register_with-old conversation payload id k p s (f, (i, t)) = (
  omega (arith, f),
  (
    i,
    record {
      handle = t.handle;
      known = omega (arith, t.known);
      carries = ground (arith, t.known, t.carries);
      waits = ground (arith, t.known, t.waits, f);
    },
  ),
)

register_with-IsTimed :
    (conversation : Option String) (payload : Payload) (id : String) (s : PermissionBroker)
    → IsTimed s
    → IsTimed (register_with true conversation payload id s)
unfolding register_with
register_with-IsTimed conversation payload id s h = record {
  timed = h.timed;
  timers = λ k p e.
      if_known
        (λ (o : Option Pending).
          o ≡ some p → Owned (register_with true conversation payload id s) k p)
        (str_eq id k)
        (λ same e'.
          subst
            (λ (r : String × Pending).
              Owned (register_with true conversation payload id s) (r.0) (r.1))
            (λ i. ((eq_iff id k).0 same i, some_inj.0 e' i))
            (register_with-fresh conversation payload id s))
        (λ other e'. register_with-old conversation payload id k p s (h.timers k p e'))
        (sym (lookup-insert id k (entry_of conversation payload id s) s.pending) ∙ e);
}

register-IsTimed :
    (conversation : Option String) (payload : Payload) (id : String) (s : PermissionBroker)
    → IsTimed s
    → IsTimed (register_with (ltb 0 s.timeout) conversation payload id s)
register-IsTimed conversation payload id s h =
    subst (λ b. IsTimed (register_with b conversation payload id s)) (ground (arith, h.timed))
      (register_with-IsTimed conversation payload id s h)

Step-IsTimed : {s t : PermissionBroker} → Step s t → IsTimed s → IsTimed t
unfolding register resolve wait_begin clear_conversation
Step-IsTimed {s} (registers conversation payload generated) h =
    register-IsTimed conversation payload (request_id_of payload generated) s h
Step-IsTimed {s} (times_out i armed) h = Keeps-IsTimed (on_timeout-Keeps i s) h
Step-IsTimed {s} (resolves id ds) h = resolve-IsTimed id ds s (lookup id s.pending) refl h
Step-IsTimed {s} (begins_wait id) h = wait-IsTimed id s (lookup id s.pending) refl h
Step-IsTimed {s} (ends_wait id) h = discard-IsTimed id s h
Step-IsTimed {s} (clears conversation) h = discard_all-IsTimed (stale_of conversation s.pending) s h

Steps-IsTimed : {s t : PermissionBroker} → Steps s t → IsTimed s → IsTimed t
Steps-IsTimed here h = h
Steps-IsTimed (next r st) h = Step-IsTimed st (Steps-IsTimed r h)

-- `PermissionBroker(timeout)`
abbrev pub new_broker : ℕ → PermissionBroker
new_broker timeout = record {
  timeout = timeout;
  pending = [];
  early = [];
  results = λ f. none;
  next_future = 0;
  request_of = λ i. "";
  armed = λ i. false;
  next_timer = 0;
}

new_broker-IsTimed : (timeout : ℕ) → 0 < timeout → IsTimed (new_broker timeout)
unfolding lookup
new_broker-IsTimed timeout h = record { timed = h; timers = λ k p e. cc }

-- With a time limit, in every state that any sequence of steps leads to: an entry that is not
-- answered has an armed timer of its own, and when that timer fires, every call of the request is
-- answered by a denial.
pub waiting_is_denied :
    (timeout : ℕ) (s : PermissionBroker) (k : String) (p : Pending)
    → 0 < timeout
    → Steps (new_broker timeout) s
    → lookup k s.pending ≡ some p
    → done s p ≡ false
    → (i : ℕ) × (p.timeout_handle ≡ some i)
      × (s.armed i ≡ true)
      × ((on_timeout i s).results p.future ≡ some (deny_all p.payload))
unfolding on_timeout deny_pending
waiting_is_denied timeout s k p h r e d =
    let (f, (i, t)) = (Steps-IsTimed r (new_broker-IsTimed timeout h)).timers k p e in
    let found : lookup (s.request_of i) s.pending ≡ some p =
      ap (λ n. lookup n s.pending) t.carries ∙ e in
    (i, t.handle, ground (arith, t.waits), rw (found, deny_pending) (ground arith))
