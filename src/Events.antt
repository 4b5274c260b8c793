-- ===== src/Events.antt =====
-- The bus of task events (src/thumbelina/scheduler/events.py). A hook is a number; the dict of hooks is
-- a function. What a hook does when it is awaited is a parameter: it may change the bus, and ends with
-- or without an exception.
pub mod Subscribed
mod Examples
use thumbelina.Prelude.{
  ℕ, suc, ◌+◌, Bool, true, false, Option, none, some, List, [], ◌∷◌, ◌++◌, ◌==◌, if◌then◌else◌,
}
use thumbelina.Scheduler.Models.{TaskEventType, TaskEvent}

abbrev pub type_index : TaskEventType → ℕ
type_index TaskEventType.created = 0
type_index TaskEventType.due = 1
type_index TaskEventType.completed = 2
type_index TaskEventType.failed = 3
type_index TaskEventType.missed = 4
type_index TaskEventType.cancelled = 5

abbrev pub same_type : TaskEventType → TaskEventType → Bool
same_type a b = type_index a == type_index b

-- `_hooks`, by the event type
abbrev pub EventBus : Type 0
EventBus = TaskEventType → Option (List ℕ)

abbrev pub set_hooks : TaskEventType → Option (List ℕ) → EventBus → EventBus
set_hooks type hooks bus = λ t. if same_type type t then hooks else bus t

-- `hook in hooks`
unfoldable pub among : ℕ → List ℕ → Bool
among h [] = false
among h (k ∷ ks) = if k == h then true else among h ks

abbrev pub hooks_or_none : Option (List ℕ) → List ℕ
hooks_or_none none = []
hooks_or_none (some hs) = hs

unfoldable pub subscribe : TaskEventType → ℕ → EventBus → EventBus
subscribe type hook bus =
    let hooks = hooks_or_none (bus type) in
    set_hooks type (some (if among hook hooks then hooks else hooks ++ hook ∷ [])) bus

-- `hooks.remove(hook)`, with the `ValueError` of a hook that is not there passed over
unfoldable pub remove_first : ℕ → List ℕ → List ℕ
remove_first h [] = []
remove_first h (k ∷ ks) = let rest = remove_first h ks in if k == h then ks else k ∷ rest

-- an empty list is deleted
abbrev pub or_deleted : List ℕ → Option (List ℕ)
or_deleted [] = none
or_deleted (h ∷ hs) = some (h ∷ hs)

unfoldable pub unsubscribe_found : TaskEventType → ℕ → Option (List ℕ) → EventBus → EventBus
unsubscribe_found type hook none bus = bus
unsubscribe_found type hook (some hooks) bus =
    set_hooks type (or_deleted (remove_first hook hooks)) bus

unfoldable pub unsubscribe : TaskEventType → ℕ → EventBus → EventBus
unsubscribe type hook bus = unsubscribe_found type hook (bus type) bus

-- what an emission leaves: the bus, the hooks that were awaited in order, and how many completed
pub record Emission : Type 0 where
  pub bus : EventBus
  pub awaited : List ℕ
  pub dispatched : ℕ

module _ (await_hook : ℕ → TaskEvent → EventBus → Bool × EventBus) where
  -- the `for` loop over the snapshot
  unfoldable pub dispatch : List ℕ → TaskEvent → EventBus → Emission
  dispatch [] event bus = record { bus = bus; awaited = []; dispatched = 0 }
  dispatch (h ∷ hs) event bus =
      let (completed, bus') = await_hook h event bus in
      let rest = dispatch hs event bus' in
      record {
        bus = rest.bus;
        awaited = h ∷ rest.awaited;
        dispatched = if completed then suc rest.dispatched else rest.dispatched;
      }

  unfoldable pub emit : TaskEvent → EventBus → Emission
  emit event bus = dispatch (hooks_or_none (bus event.type)) event bus
