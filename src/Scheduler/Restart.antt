-- ===== src/Scheduler/Restart.antt =====
-- A scheduler object from its constructor to its polling loop (`__init__` and `start` of
-- src/thumbelina/scheduler/scheduler.py).
use thumbelina.Prelude.{ℕ, String, Bool, true, false, Option, [], if◌then◌else◌}
use thumbelina.Scheduler.Store.{TaskStore}
use thumbelina.Scheduler.State.{TaskScheduler}

-- `__init__` with the settings that the configuration gives
unfoldable pub new_scheduler : Option TaskStore → Bool → String → ℕ → TaskScheduler
new_scheduler store has_bus policy grace = record {
  tasks = [];
  inflight = [];
  running = false;
  loop_alive = false;
  store = store;
  has_bus = has_bus;
  emitted = [];
  missed_policy = policy;
  missed_grace = grace;
}

-- `start`; false is its `RuntimeError`
unfoldable pub start : TaskScheduler → Bool × TaskScheduler
start s = if s.running then (false, s) else (true, record s { running = true; loop_alive = true })
