-- ===== src/Approvals/Steps.antt =====
-- Everything that changes the broker, as steps in any order
-- (src/thumbelina/api/permission_broker.py).
use thumbelina.Prelude.{ℕ, String, true, Option, List, ◌≡◌}
use thumbelina.Approvals.{
  Decision, Payload, PermissionBroker, register, on_timeout, resolve, wait_begin, discard,
  clear_conversation,
}

-- `wait` ends, by its future or by a cancellation, with a discard.
pub data Step (s : PermissionBroker) : PermissionBroker → Type 0 where
  registers :
      (conversation : Option String) (payload : Payload) (generated : String)
      → Step s (register conversation payload generated s).1
  times_out : (i : ℕ) → s.armed i ≡ true → Step s (on_timeout i s)
  resolves : (id : String) (ds : List Decision) → Step s (resolve id ds s).1
  begins_wait : (id : String) → Step s (wait_begin id s).1
  ends_wait : (id : String) → Step s (discard id s)
  clears : (conversation : Option String) → Step s (clear_conversation conversation s)

pub data Steps (s : PermissionBroker) : PermissionBroker → Type 0 where
  here : Steps s s
  next : {t u : PermissionBroker} → Steps s t → Step t u → Steps s u
