-- ===== src/Events/Subscribed.antt =====
-- The hooks of a type are those whose last word was to subscribe, each once
-- (src/thumbelina/scheduler/events.py).
use mathlib.Core.Path.{subst}
use thumbelina.Prelude.{
  ℕ, suc, ◌+◌, ◌≤◌, Bool, true, false, Option, none, some, List, [], ◌∷◌, ◌++◌, length, ◌==◌,
  if◌then◌else◌, ◌≡◌, refl, sym, ap, ◌∙◌, arith, Bool-cases, inl, inr,
}
use thumbelina.Scheduler.Models.{TaskEventType, TaskEvent}
use thumbelina.Events.{
  EventBus, type_index, same_type, among, hooks_or_none, subscribe, remove_first, or_deleted,
  unsubscribe_found, unsubscribe, dispatch, emit,
}

pub data Operation : Type 0 where
  subscribes unsubscribes : TaskEventType → ℕ → Operation

-- the bus after operations, of which the last stands first
unfoldable pub after : List Operation → EventBus
after [] = λ t. none
after (subscribes t h ∷ ops) = subscribe t h (after ops)
after (unsubscribes t h ∷ ops) = unsubscribe t h (after ops)

-- whether the last operation on a hook and a type subscribes it
unfoldable pub subscribed : List Operation → TaskEventType → ℕ → Bool
subscribed [] t h = false
subscribed (subscribes u k ∷ ops) t h =
    let rest = subscribed ops t h in if same_type u t then (if k == h then true else rest) else rest
subscribed (unsubscribes u k ∷ ops) t h =
    let rest = subscribed ops t h in
    if same_type u t then (if k == h then false else rest) else rest

-- how often a hook stands in a list
unfoldable pub times_in : ℕ → List ℕ → ℕ
times_in h [] = 0
times_in h (k ∷ ks) = let rest = times_in h ks in if k == h then suc rest else rest

abbrev pub once_if : Bool → ℕ
once_if true = 1
once_if false = 0

times_in-append : (h : ℕ) (xs ys : List ℕ) → times_in h (xs ++ ys) ≡ times_in h xs + times_in h ys
unfolding times_in
times_in-append h [] ys = omega arith
times_in-append h (x ∷ xs) ys = ground (arith, times_in-append h xs ys)

among-times_in : (h : ℕ) (xs : List ℕ) → among h xs ≡ false → times_in h xs ≡ 0
unfolding among times_in
among-times_in h [] e = refl
among-times_in h (x ∷ xs) e = ground (arith, among-times_in h xs, e)

among_counted : (h : ℕ) (xs : List ℕ) → among h xs ≡ true → 1 ≤ times_in h xs
unfolding among times_in
among_counted h [] e = cc
among_counted h (x ∷ xs) e = ground (arith, among_counted h xs, e)

times_in-remove_first :
    (h k : ℕ) (xs : List ℕ)
    → times_in h xs ≤ 1
    → times_in h (remove_first k xs) ≡ (if k == h then 0 else times_in h xs)
unfolding times_in remove_first
times_in-remove_first h k [] b = ground arith
times_in-remove_first h k (x ∷ xs) b = ground (arith, times_in-remove_first h k xs, b)

or_deleted_same : (hs : List ℕ) → hooks_or_none (or_deleted hs) ≡ hs
or_deleted_same [] = refl
or_deleted_same (h ∷ hs) = refl

-- the hooks of a type
abbrev hooks : EventBus → TaskEventType → List ℕ
hooks bus t = hooks_or_none (bus t)

type_of_index : ℕ → TaskEventType
type_of_index n =
    if n == 0
    then TaskEventType.created
    else if n == 1
    then TaskEventType.due
    else if n == 2
    then TaskEventType.completed
    else if n == 3
    then TaskEventType.failed
    else if n == 4
    then TaskEventType.missed
    else TaskEventType.cancelled

type_of_index-type_index : (t : TaskEventType) → type_of_index (type_index t) ≡ t
unfolding type_of_index
type_of_index-type_index TaskEventType.created = refl
type_of_index-type_index TaskEventType.due = refl
type_of_index-type_index TaskEventType.completed = refl
type_of_index-type_index TaskEventType.failed = refl
type_of_index-type_index TaskEventType.missed = refl
type_of_index-type_index TaskEventType.cancelled = refl

same_type-equal : (t u : TaskEventType) → same_type t u ≡ true → t ≡ u
same_type-equal t u e =
    let indices : type_index t ≡ type_index u = ground (arith, e) in
    sym (type_of_index-type_index t) ∙ ap type_of_index indices ∙ type_of_index-type_index u

-- what the last operation does to the hooks of its own type
subscribe_own :
    (k h : ℕ) (hs : List ℕ) (b : Bool)
    → times_in h hs ≡ once_if b
    → times_in h (if among k hs then hs else hs ++ k ∷ []) ≡ once_if (if k == h then true else b)
unfolding times_in
subscribe_own k h hs b e =
    ground (arith, e, among-times_in h hs, among_counted h hs, times_in-append h hs (k ∷ []))

unsubscribe_own :
    (k h : ℕ) (hs : List ℕ) (b : Bool)
    → times_in h hs ≡ once_if b
    → times_in h (hooks_or_none (or_deleted (remove_first k hs)))
      ≡ once_if (if k == h then false else b)
unsubscribe_own k h hs b e =
    ap (times_in h) (or_deleted_same (remove_first k hs))
    ∙ ground (arith, e, times_in-remove_first h k hs)

subscribe_times :
    (u t : TaskEventType) (k h : ℕ) (bus : EventBus) (b : TaskEventType → Bool)
    → ((v : TaskEventType) → times_in h (hooks bus v) ≡ once_if (b v))
    → times_in h (hooks (subscribe u k bus) t)
      ≡ once_if (if same_type u t then (if k == h then true else b t) else b t)
unfolding subscribe
subscribe_times u t k h bus b f = elim (Bool-cases (same_type u t)) [
  | inl same ↦ rw same (
      subst
        (λ v.
          times_in h (if among k (hooks bus u) then hooks bus u else hooks bus u ++ k ∷ [])
          ≡ once_if (if k == h then true else b v))
        (same_type-equal u t same) (subscribe_own k h (hooks bus u) (b u) (f u)))
  | inr other ↦ rw other (f t)
]

unsubscribe_times :
    (u t : TaskEventType) (k h : ℕ) (o : Option (List ℕ)) (bus : EventBus)
    (b : TaskEventType → Bool)
    → bus u ≡ o
    → ((v : TaskEventType) → times_in h (hooks bus v) ≡ once_if (b v))
    → times_in h (hooks (unsubscribe_found u k o bus) t)
      ≡ once_if (if same_type u t then (if k == h then false else b t) else b t)
unfolding unsubscribe_found times_in
unsubscribe_times u t k h none bus b e f = elim (Bool-cases (same_type u t)) [
  | inl same ↦
      let empty : times_in h (hooks bus t) ≡ 0 =
        ap (λ v. times_in h (hooks bus v)) (sym (same_type-equal u t same))
        ∙ ap (λ q. times_in h (hooks_or_none q)) e in
      rw same (ground (arith, empty, f t))
  | inr other ↦ rw other (f t)
]
unsubscribe_times u t k h (some hs) bus b e f = elim (Bool-cases (same_type u t)) [
  | inl same ↦ rw same (
      subst
        (λ v.
          times_in h (hooks_or_none (or_deleted (remove_first k hs)))
          ≡ once_if (if k == h then false else b v))
        (same_type-equal u t same)
        (unsubscribe_own k h hs (b u) (ap (λ q. times_in h (hooks_or_none q)) (sym e) ∙ f u)))
  | inr other ↦ rw other (f t)
]

-- After any operations: a hook stands among the hooks of a type once where the last operation on the
-- two subscribes it, and otherwise not.
hooks-subscribed :
    (ops : List Operation) (h : ℕ) (t : TaskEventType)
    → times_in h (hooks (after ops) t) ≡ once_if (subscribed ops t h)
unfolding after subscribed times_in unsubscribe
hooks-subscribed [] h t = refl
hooks-subscribed (subscribes u k ∷ ops) h t =
    subscribe_times u t k h (after ops) (λ v. subscribed ops v h) (hooks-subscribed ops h)
hooks-subscribed (unsubscribes u k ∷ ops) h t =
    unsubscribe_times u t k h (after ops u) (after ops) (λ v. subscribed ops v h) refl
      (hooks-subscribed ops h)

dispatch-awaited :
    (await_hook : ℕ → TaskEvent → EventBus → Bool × EventBus) (hs : List ℕ) (event : TaskEvent)
    (bus : EventBus)
    → ((dispatch await_hook hs event bus).awaited ≡ hs)
      × ((dispatch await_hook hs event bus).dispatched ≤ length hs)
unfolding dispatch
dispatch-awaited await_hook [] event bus = (refl, omega arith)
dispatch-awaited await_hook (h ∷ hs) event bus =
    let (same, bound) = dispatch-awaited await_hook hs event (await_hook h event bus).1 in
    (ap (◌∷◌ h) same, ground (arith, bound))

-- After any subscriptions and cancellations of them, and whatever the hooks do to the bus or raise while
-- the event is emitted: each hook whose last operation on the event's type subscribes it is awaited
-- once and no other hook is, and the number that is answered is at most that of the hooks awaited.
pub emit-subscribed :
    (await_hook : ℕ → TaskEvent → EventBus → Bool × EventBus) (ops : List Operation)
    (event : TaskEvent) (h : ℕ)
    → let e = emit await_hook event (after ops) in
      (times_in h e.awaited ≡ once_if (subscribed ops event.type h))
      × (e.dispatched ≤ length e.awaited)
unfolding emit
emit-subscribed await_hook ops event h =
    let hs = hooks (after ops) event.type in
    let (same, bound) = dispatch-awaited await_hook hs event (after ops) in
    (ap (times_in h) same ∙ hooks-subscribed ops h event.type, omega (arith, bound, ap length same))
