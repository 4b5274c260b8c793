-- ===== src/Scheduler/State.antt =====
-- The scheduler object and its internal helpers (src/thumbelina/scheduler/scheduler.py). A task
-- object is shared by reference through `_tasks`, so a write to it is a write at its key.
use mathlib.Core.Option
use thumbelina.Prelude.{
  ℕ, String, Bool, Option, none, some, List, [], ◌∷◌, ◌++◌, Dict, lookup, insert, if◌then◌else◌,
}
use thumbelina.Scheduler.Models.{ScheduledTask, TaskEvent, TaskEventType, PayloadValue}
use thumbelina.Scheduler.Store
use thumbelina.Scheduler.Store.{TaskStore, upsert_task}

-- `loop_alive` says that `_poll_task` is there and not done. `emitted` is what the bus was given.
pub record TaskScheduler : Type 0 where
  pub tasks : Dict ScheduledTask
  pub inflight : List String
  pub running : Bool
  pub loop_alive : Bool
  pub store : Option TaskStore
  pub has_bus : Bool
  pub emitted : List TaskEvent
  pub missed_policy : String
  pub missed_grace : ℕ

-- A store failure is swallowed.
unfoldable pub persist : ScheduledTask → TaskScheduler → TaskScheduler
persist t s = record s { store = Option.map (upsert_task t) s.store }

unfoldable pub emit : TaskEvent → TaskScheduler → TaskScheduler
emit e s = record s { emitted = if s.has_bus then s.emitted ++ e ∷ [] else s.emitted }

unfoldable pub make_event : ScheduledTask → TaskEventType → Dict PayloadValue → TaskEvent
make_event t type payload = record {
  type = type;
  task_id = t.id;
  trigger = t.trigger;
  channel = t.channel;
  content = t.content;
  payload = payload;
}

-- the object at a key has new field values
unfoldable pub write : String → ScheduledTask → TaskScheduler → TaskScheduler
write key t s = record s { tasks = insert key t s.tasks }

-- A write of the object's fields, followed by `_persist`.
unfoldable pub save : String → ScheduledTask → TaskScheduler → TaskScheduler
unfolding write persist
save key t s = persist t (write key t s)

-- What `_lookup_task` does with the store's answer: a failure is a miss, and a hit is cached.
unfoldable pub cache_answer :
    String → TaskScheduler → Option (Option ScheduledTask) → Option ScheduledTask × TaskScheduler
cache_answer key s none = (none, s)
cache_answer key s (some none) = (none, s)
cache_answer key s (some (some t)) = (some t, record s { tasks = insert key t s.tasks })

unfoldable pub lookup_stored :
    String → TaskScheduler → Option TaskStore → Option ScheduledTask × TaskScheduler
unfolding cache_answer
lookup_stored key s none = (none, s)
lookup_stored key s (some st) =
    cache_answer key (record s { store = some (Store.get_task key st).1 }) (Store.get_task key st).0

unfoldable pub lookup_memory :
    String → TaskScheduler → Option ScheduledTask → Option ScheduledTask × TaskScheduler
unfolding lookup_stored
lookup_memory key s (some t) = (some t, s)
lookup_memory key s none = lookup_stored key s s.store

-- `_lookup_task`
unfoldable pub lookup_task : String → TaskScheduler → Option ScheduledTask × TaskScheduler
unfolding lookup_memory
lookup_task key s = lookup_memory key s (lookup key s.tasks)

abbrev pub with_found :
    Option ScheduledTask
    → (ScheduledTask → TaskScheduler → TaskScheduler)
    → TaskScheduler
    → TaskScheduler
with_found none f s = s
with_found (some t) f s = f t s

-- a piece of code that holds the object at `key` and goes on from the state `s`
unfoldable pub with_task :
    String → (ScheduledTask → TaskScheduler → TaskScheduler) → TaskScheduler → TaskScheduler
with_task key f s = with_found (lookup key s.tasks) f s

-- `task.cron_expr or ""`
abbrev pub cron_text : ScheduledTask → String
cron_text t = elim t.cron_expr [ none ↦ "" | some e ↦ e ]
