-- ===== src/Scheduler/Steps.antt =====
-- The ways in which the working set and the task table change, as steps that may follow one another in
-- any order: the operations of the API, the two halves of firing rounds, heartbeat cycles, and a
-- restart of the process, in which a new scheduler object on the same table recovers
-- (src/thumbelina/scheduler/scheduler.py and heartbeat.py).
use thumbelina.Prelude.{ℕ, String, Bool, Option, some, lookup, ◌≡◌}
use thumbelina.Scheduler.Models.{ScheduledTask}
use thumbelina.Scheduler.Cron.{Croniter}
use thumbelina.Scheduler.State.{TaskScheduler}
use thumbelina.Scheduler.Crud.{add_task, cancel_task, complete_task, pause_task, resume_task}
use thumbelina.Scheduler.Fire.{Outcome, fire_begin, settle_notify, execute_prompt}
use thumbelina.Scheduler.Recover.{recover}
use thumbelina.Scheduler.Restart.{new_scheduler, start}
use thumbelina.Scheduler.Heartbeat.{run_checks}

-- A firing round begins on the object that stands at its key; the callback may end in any way.
pub data Step (c : Croniter) (s : TaskScheduler) : TaskScheduler → Type 0 where
  add : (now : ℕ) (t : ScheduledTask) → Step c s (add_task c now t s).1
  cancel : (key : String) → Step c s (cancel_task key s).1
  complete : (key : String) → Step c s (complete_task key s)
  pause : (key : String) → Step c s (pause_task key s).1
  resume : (now : ℕ) (key : String) → Step c s (resume_task c now key s).1
  fire :
      (now later ms : ℕ) (runner : Bool) (key : String) (t : ScheduledTask)
      → lookup key s.tasks ≡ some t
      → Step c s (fire_begin c now later runner ms key t s)
  settle :
      (now ms : ℕ) (key : String) (at : Option ℕ) (o : Outcome)
      → Step c s (settle_notify c now key at ms o s)
  reply :
      (ms : ℕ) (key : String) (at : Option ℕ) (o : Outcome)
      → Step c s (execute_prompt key at ms o s)
  restart :
      (now : ℕ) (bus : Bool) (policy : String) (grace : ℕ)
      → Step c s (recover c now (new_scheduler s.store bus policy grace))
  begin : Step c s (start s).1
  beat : (now grace stale : ℕ) → Step c s (run_checks c now grace stale s)

pub data Steps (c : Croniter) (s : TaskScheduler) : TaskScheduler → Type 0 where
  here : Steps c s s
  next : {t u : TaskScheduler} → Steps c s t → Step c t u → Steps c s u
