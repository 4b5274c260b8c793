-- ===== src/Approvals/Examples.antt =====
-- One request that nobody answers (src/thumbelina/api/permission_broker.py).
use thumbelina.Prelude.{ℕ, true, none, some, [], ◌∷◌, lookup, insert, ◌≡◌, refl, arith}
use thumbelina.Approvals.{
  Payload, Pending, PermissionBroker, arm, deny_all, register, register_with, on_timeout,
}
use thumbelina.Approvals.Steps.{here, next, registers}
use thumbelina.Approvals.Deadlines.{new_broker, waiting_is_denied}

abbrev shell_calls : Payload
shell_calls = record { request_id = some "perm-1"; calls = some "call-1" ∷ none ∷ [] }

abbrev asked : PermissionBroker
asked = (register (some "chat") shell_calls "perm-2" (new_broker 600)).1

abbrev entry : Pending
entry = record {
  conversation_id = some "chat";
  payload = shell_calls;
  future = 0;
  timeout_handle = some 0;
}

waiting_is_denied_example :
    (i : ℕ) × (entry.timeout_handle ≡ some i)
    × (asked.armed i ≡ true)
    × ((on_timeout i asked).results 0 ≡ some (deny_all shell_calls))
unfolding register register_with lookup insert arm
waiting_is_denied_example =
    waiting_is_denied 600 asked "perm-1" entry (omega arith)
      (next here (registers (some "chat") shell_calls "perm-2")) refl refl
