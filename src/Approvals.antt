-- ===== src/Approvals.antt =====
-- The broker of permission requests (src/thumbelina/api/permission_broker.py). Futures and timers are
-- objects that a coroutine or the event loop holds on to after their entry is gone, so they stand in
-- stores of their own, by number; the next number is that of the next object.
pub mod Steps
pub mod Timers
pub mod Deadlines
mod Examples
use thumbelina.Prelude.{
  ℕ, suc, ◌+◌, ◌≡◌, String, Bool, true, false, not, ◌&&◌, Option, none, some, List, [], ◌∷◌, map,
  Dict, lookup, insert, pop, is_some, str_eq, ltb, ◌==◌, if◌then◌else◌,
}

pub record Decision : Type 0 where
  pub call_id : String
  pub approved : Bool

-- the `request_id` of the payload and the `call_id` of each of its calls, where there are any
pub record Payload : Type 0 where
  pub request_id : Option String
  pub calls : List (Option String)

pub record Pending : Type 0 where
  pub conversation_id : Option String
  pub payload : Payload
  pub future : ℕ
  pub timeout_handle : Option ℕ

pub record PermissionBroker : Type 0 where
  pub timeout : ℕ
  pub pending : Dict Pending
  pub early : Dict (List Decision)
  -- the result of each future that is done
  pub results : ℕ → Option (List Decision)
  pub next_future : ℕ
  -- the request of each timer, and whether it is still to fire
  pub request_of : ℕ → String
  pub armed : ℕ → Bool
  pub next_timer : ℕ

abbrev pub update {ℓ} : {A : Type ℓ} → (ℕ → A) → ℕ → A → ℕ → A
update f i v j = if i == j then v else f j

abbrev pub call_id_of : Option String → String
call_id_of none = ""
call_id_of (some id) = id

abbrev pub deny_all : Payload → List Decision
deny_all p = map (λ c. record { call_id = call_id_of c; approved = false }) p.calls

-- `payload.get("request_id") or …`, with the generated id
abbrev pub request_id_of : Payload → String → String
request_id_of p generated = elim p.request_id [
  | none ↦ generated
  | some id ↦ if str_eq id "" then generated else id
]

unfoldable pub arm : Bool → String → PermissionBroker → PermissionBroker
arm false id s = s
arm true id s = record s {
  request_of = update s.request_of s.next_timer id;
  armed = update s.armed s.next_timer true;
  next_timer = suc s.next_timer;
}

-- `register` from the future on, with the request's id and whether there is a time limit
unfoldable pub register_with :
    Bool → Option String → Payload → String → PermissionBroker → PermissionBroker
unfolding arm
register_with timed conversation payload id s =
    let entry : Pending = record {
      conversation_id = conversation;
      payload = record payload { request_id = some id };
      future = s.next_future;
      timeout_handle = if timed then some s.next_timer else none;
    } in
    let s' = arm timed id s in
    record s' {
      pending = insert id entry s'.pending;
      results = update s'.results s'.next_future none;
      next_future = suc s'.next_future;
    }

unfoldable pub register :
    Option String → Payload → String → PermissionBroker → String × PermissionBroker
unfolding register_with
register conversation payload generated s =
    let id = request_id_of payload generated in
    (id, register_with (ltb 0 s.timeout) conversation payload id s)

abbrev pub done : PermissionBroker → Pending → Bool
done s p = is_some (s.results p.future)

abbrev pub set_result : Pending → List Decision → PermissionBroker → PermissionBroker
set_result p ds s = record s { results = update s.results p.future (some ds) }

unfoldable pub cancel_timer : Option ℕ → PermissionBroker → PermissionBroker
cancel_timer none s = s
cancel_timer (some i) s = record s { armed = update s.armed i false }

unfoldable pub deny_pending : Option Pending → PermissionBroker → PermissionBroker
deny_pending none s = s
deny_pending (some p) s = if done s p then s else set_result p (deny_all p.payload) s

-- `_on_timeout`, when the event loop runs the timer i
unfoldable pub on_timeout : ℕ → PermissionBroker → PermissionBroker
unfolding deny_pending
on_timeout i s =
    let s' = record s { armed = update s.armed i false } in
    deny_pending (lookup (s.request_of i) s'.pending) s'

unfoldable pub settle : Pending → List Decision → PermissionBroker → PermissionBroker
unfolding cancel_timer
settle p ds s =
    let s' = cancel_timer p.timeout_handle s in if done s' p then s' else set_result p ds s'

unfoldable pub resolve_found :
    Option Pending → List Decision → PermissionBroker → Bool × PermissionBroker
unfolding settle
resolve_found none ds s = (false, s)
resolve_found (some p) ds s = if done s p then (false, s) else (true, settle p ds s)

unfoldable pub resolve : String → List Decision → PermissionBroker → Bool × PermissionBroker
unfolding resolve_found
resolve id ds s = resolve_found (lookup id s.pending) ds s

unfoldable pub discard_found : Option Pending → PermissionBroker → PermissionBroker
unfolding cancel_timer
discard_found none s = s
discard_found (some p) s = cancel_timer p.timeout_handle s

unfoldable pub discard : String → PermissionBroker → PermissionBroker
unfolding discard_found
discard id s =
    let s' = discard_found (lookup id s.pending) (record s { pending = pop id s.pending }) in
    record s' { early = pop id s'.early }

-- What `wait` does before it awaits: it returns at once, or goes on to await a future.
pub data Waiting : Type 0 where
  answered : List Decision → Waiting
  awaits : ℕ → Waiting

unfoldable pub settle_early :
    Option (List Decision) → String → Pending → PermissionBroker → PermissionBroker
unfolding settle
settle_early none id p s = s
settle_early (some ds) id p s = settle p ds (record s { early = pop id s.early })

unfoldable pub wait_found : Option Pending → String → PermissionBroker → Waiting × PermissionBroker
unfolding settle_early
wait_found none id s = (
  answered (elim (lookup id s.early) [ none ↦ [] | some ds ↦ ds ]),
  record s { early = pop id s.early },
)
wait_found (some p) id s = (awaits p.future, settle_early (lookup id s.early) id p s)

unfoldable pub wait_begin : String → PermissionBroker → Waiting × PermissionBroker
unfolding wait_found
wait_begin id s = wait_found (lookup id s.pending) id s

unfoldable pub same_conversation : Option String → Option String → Bool
same_conversation none none = true
same_conversation (some a) (some b) = str_eq a b
same_conversation _ _ = false

-- the entries of a conversation
unfoldable pub stale_of : Option String → Dict Pending → List String
unfolding same_conversation
stale_of conversation [] = []
stale_of conversation ((id, p) ∷ rest) =
    if same_conversation p.conversation_id conversation
    then id ∷ stale_of conversation rest
    else stale_of conversation rest

unfoldable pub discard_all : List String → PermissionBroker → PermissionBroker
discard_all [] s = s
discard_all (id ∷ ids) s = discard_all ids (discard id s)

unfoldable pub clear_conversation : Option String → PermissionBroker → PermissionBroker
unfolding stale_of discard_all
clear_conversation conversation s = discard_all (stale_of conversation s.pending) s

unfoldable pub pending_from :
    Option String → Dict Pending → PermissionBroker → Option (String × List (Option String))
unfolding same_conversation
pending_from conversation [] s = none
pending_from conversation ((id, p) ∷ rest) s =
    if same_conversation p.conversation_id conversation && not (done s p)
    then some (id, p.payload.calls)
    else pending_from conversation rest s

-- `pending_for`, and `snapshot`
unfoldable pub pending_for :
    Option String → PermissionBroker → Option (String × List (Option String))
unfolding pending_from
pending_for conversation s = pending_from conversation s.pending s
