-- ===== src/Scheduler/Examples.antt =====
-- Runs of the scheduler on a small task table (src/thumbelina/scheduler).
use mathlib.Core.Option
use thumbelina.Prelude.{◌≤◌, ◌⊎◌, ℕ, ◌+◌, true, none, some, [], ◌∷◌, ◌≡◌, refl, lookup, arith}
use thumbelina.Scheduler.Models.{ScheduledTask, TaskStatus, TriggerKind, DeliveryChannel}
use thumbelina.Scheduler.Cron.{
  count_skipped_occurrences, max_skipped_occurrences, Croniter, IsForward, next_after,
  validate_cron, starts_at, field_count,
}
use thumbelina.Scheduler.Store
use thumbelina.Scheduler.Store.{TaskStore, to_record}
use thumbelina.Scheduler.State.{TaskScheduler, cron_text}
use thumbelina.Scheduler.Crud.{add_task, cancel_task}
use thumbelina.Scheduler.Fire.{Outcome, started, fire_begin, settle_notify}
use thumbelina.Scheduler.Heartbeat.{reap_task}
use thumbelina.Scheduler.Recover.{recover}
use thumbelina.Scheduler.Restart.{new_scheduler}
use thumbelina.Scheduler.Steps.{Steps}
use thumbelina.Scheduler.Skipped.{Fires, IsLast, count_skipped_occurrences_lem}
use thumbelina.Scheduler.Slots.{IsRearmed, consumed_slot}
use thumbelina.Scheduler.Verdicts.{reaped_verdict_stays}
use thumbelina.Scheduler.Codec.{to_model-to_record}

-- a croniter whose every expression fires each sixty units of time
abbrev each_sixty : Croniter
each_sixty = record { available = true; accepts = λ e. true; get_next = λ e t. some (t + 60) }

each_sixty-IsForward : IsForward each_sixty
each_sixty-IsForward e t u h = ground (arith, h)

abbrev hourly_task : ScheduledTask
hourly_task = record {
  id = "a";
  description = "drink water";
  trigger = TriggerKind.cron;
  cron_expr = some "@hourly";
  scheduled_time = none;
  next_run = some 40;
  last_run = none;
  status = TaskStatus.pending;
  channel = DeliveryChannel.web;
  content = "drink water";
  mode = "notify";
  condition = none;
  result = none;
  error = none;
  source = "user";
  conversation_id = none;
  created_at = 1;
  updated_at = 1;
}

abbrev no_rows : TaskStore
no_rows = record { rows = []; calls = 0; up = λ n. true }

abbrev empty_scheduler : TaskScheduler
empty_scheduler = record {
  tasks = [];
  inflight = [];
  running = true;
  loop_alive = true;
  store = some no_rows;
  has_bus = true;
  emitted = [];
  missed_policy = "mark";
  missed_grace = 5;
}

-- added, then cancelled
abbrev after_add : TaskScheduler
after_add = (add_task each_sixty 10 hourly_task empty_scheduler).1

abbrev after_cancel : TaskScheduler
after_cancel = (cancel_task "a" after_add).1

-- and the process is restarted
abbrev after_restart : TaskScheduler
after_restart = recover each_sixty 90 (new_scheduler after_cancel.store true "mark" 5)

to_model-to_record_example : Store.to_model (to_record hourly_task) ≡ some hourly_task
to_model-to_record_example = to_model-to_record hourly_task

-- one task in the working set
abbrev one_task : TaskScheduler
one_task = record empty_scheduler { tasks = ("a", hourly_task) ∷ [] }

hourly_fires : (t : ℕ) → next_after each_sixty (cron_text hourly_task) t ≡ some (t + 60)
unfolding next_after validate_cron starts_at field_count
hourly_fires t = refl

one_task_there : lookup "a" one_task.tasks ≡ some hourly_task
unfolding lookup
one_task_there = refl

consumed_slot_example :
    (t' : ScheduledTask) × (lookup "a"
        (settle_notify each_sixty 40 "a" (some 40) 3 (Outcome.raised "offline") one_task).tasks
      ≡ some t')
    × IsRearmed 40 100 t'
consumed_slot_example =
    consumed_slot each_sixty each_sixty-IsForward 40 3 "a" (some 40) (Outcome.raised "offline")
      hourly_task one_task 100 one_task_there refl (λ e. cc) (hourly_fires 40)

abbrev fired_at_40 : TaskScheduler
fired_at_40 = fire_begin each_sixty 40 40 true 3 "a" hourly_task one_task

abbrev reaped_at_700 : TaskScheduler
reaped_at_700 = reap_task 700 600 [] "a" fired_at_40

reaped_verdict_stays_example :
    (settle_notify each_sixty 710 "a" (some 40) 3 (Outcome.returned (some "sent")) reaped_at_700
      ≡ reaped_at_700)
    × (lookup "a" reaped_at_700.tasks
        ≡ some (record (started 40 hourly_task) {
          status = TaskStatus.failed;
          error = some "stale running";
        }))
reaped_verdict_stays_example =
    reaped_verdict_stays each_sixty 40 40 700 600 710 3 true "a" [] (some 40)
      (Outcome.returned (some "sent")) hourly_task one_task refl refl (omega arith)

-- the stored task, found RUNNING and behind its time
abbrev interrupted_task : ScheduledTask
interrupted_task = record hourly_task { status = TaskStatus.running }

abbrev one_row : TaskStore
one_row = record { rows = ("a", to_record interrupted_task) ∷ []; calls = 0; up = λ n. true }

abbrev restarted : TaskScheduler
restarted = record empty_scheduler { store = some one_row }

abbrev failed_task_row : ScheduledTask
failed_task_row = record hourly_task {
  status = TaskStatus.failed;
  error = some "interrupted by restart";
}

count_skipped_occurrences_lem_example :
    (last : ℕ) × Fires
      (next_after each_sixty "@hourly")
      200
      40
      (count_skipped_occurrences each_sixty "@hourly" 40 200)
      last
    × (count_skipped_occurrences each_sixty "@hourly" 40 200 ≤ max_skipped_occurrences)
    × ((count_skipped_occurrences each_sixty "@hourly" 40 200 ≡ max_skipped_occurrences)
        ⊎ IsLast (next_after each_sixty "@hourly") 200 last)
count_skipped_occurrences_lem_example = count_skipped_occurrences_lem each_sixty "@hourly" 40 200
