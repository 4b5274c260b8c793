-- ===== src/Scheduler/Crud.antt =====
-- The public operations on tasks, pause and resume (src/thumbelina/scheduler/scheduler.py). `now` is
-- the answer of `datetime.now()` at the call.
use thumbelina.Prelude.{
  ℕ, String, Bool, true, false, not, ◌||◌, ◌&&◌, Option, none, some, [], ◌∷◌, Dict, str_eq, is_some,
  leb, if◌then◌else◌,
}
use thumbelina.Scheduler.Models.{
  ScheduledTask, TaskEventType, TaskStatus, PayloadValue, trigger_time, is_pending, is_paused,
  is_cron,
}
use thumbelina.Scheduler.Cron.{Croniter, next_after}
use thumbelina.Scheduler.State.{TaskScheduler, emit, make_event, save, lookup_task, cron_text}

-- The two `ValueError`s of `add_task`.
pub data AddError : Type 0 where
  cron_expr_missing cron_expr_invalid : AddError

abbrev created_payload : ScheduledTask → Dict PayloadValue
created_payload t = ("source", PayloadValue.text t.source) ∷ []

-- the end of `add_task`, once `next_run` is settled
unfoldable pub admit : ScheduledTask → TaskScheduler → TaskScheduler
admit t s = emit (make_event t TaskEventType.created (created_payload t)) (save t.id t s)

unfoldable pub admit_at : ScheduledTask → Option ℕ → TaskScheduler → Option AddError × TaskScheduler
unfolding admit
admit_at t none s = (some AddError.cron_expr_invalid, s)
admit_at t (some u) s = (none, admit (record t { next_run = some u }) s)

-- the base of the first fire time
abbrev base_time : ℕ → ScheduledTask → ℕ
base_time now t = elim t.scheduled_time [ none ↦ now | some base ↦ base ]

unfoldable pub add_task :
    Croniter → ℕ → ScheduledTask → TaskScheduler → Option AddError × TaskScheduler
unfolding admit_at
add_task c now t s =
    if is_cron t.trigger && not (is_some t.next_run)
    then (if str_eq (cron_text t) ""
        then (some AddError.cron_expr_missing, s)
        else admit_at t (next_after c (cron_text t) (base_time now t)) s)
    else (none, admit t s)

-- Each operation on a key is `_lookup_task` and then what follows on its answer.
unfoldable pub cancel_found : String → Option ScheduledTask → TaskScheduler → Bool × TaskScheduler
cancel_found key none s = (false, s)
cancel_found key (some t) s =
    let t' = record t { status = TaskStatus.cancelled } in
    (
      true,
      emit (make_event t' TaskEventType.cancelled (("by", PayloadValue.text "scheduler") ∷ []))
          (save key t' s),
    )

unfoldable pub cancel_task : String → TaskScheduler → Bool × TaskScheduler
unfolding cancel_found
cancel_task key s = let (found, s') = lookup_task key s in cancel_found key found s'

unfoldable pub complete_found : String → Option ScheduledTask → TaskScheduler → TaskScheduler
complete_found key none s = s
complete_found key (some t) s = save key (record t { status = TaskStatus.completed }) s

unfoldable pub complete_task : String → TaskScheduler → TaskScheduler
unfolding complete_found
complete_task key s = let (found, s') = lookup_task key s in complete_found key found s'

-- The test of `get_due_tasks` on one task.
unfoldable pub is_due : ℕ → ScheduledTask → Bool
unfolding trigger_time
is_due now t =
    if is_pending t.status
    then elim (trigger_time t) [ none ↦ false | some at ↦ leb at now ]
    else false

unfoldable pub due_of : ℕ → Dict ScheduledTask → Dict ScheduledTask
unfolding is_due
due_of now [] = []
due_of now ((k, t) ∷ rest) = if is_due now t then (k, t) ∷ due_of now rest else due_of now rest

unfoldable pub get_due_tasks : ℕ → TaskScheduler → Dict ScheduledTask
unfolding due_of
get_due_tasks now s = due_of now s.tasks

unfoldable pub pause_found : String → Option ScheduledTask → TaskScheduler → Bool × TaskScheduler
pause_found key none s = (false, s)
pause_found key (some t) s =
    if not (is_cron t.trigger) || not (is_pending t.status)
    then (false, s)
    else (true, save key (record t { status = TaskStatus.paused }) s)

unfoldable pub pause_task : String → TaskScheduler → Bool × TaskScheduler
unfolding pause_found
pause_task key s = let (found, s') = lookup_task key s in pause_found key found s'

-- `next` is the answer of `next_after` for the task's expression, where it is asked.
unfoldable pub resume_with :
    String → ScheduledTask → Option ℕ → TaskScheduler → Bool × TaskScheduler
resume_with key t none s = (false, s)
resume_with key t (some u) s =
    (true, save key (record t { next_run = some u; status = TaskStatus.pending }) s)

unfoldable pub resume_found :
    Croniter → ℕ → String → Option ScheduledTask → TaskScheduler → Bool × TaskScheduler
unfolding resume_with
resume_found c now key none s = (false, s)
resume_found c now key (some t) s =
    if not (is_cron t.trigger) || not (is_paused t.status)
    then (false, s)
    else resume_with key t (next_after c (cron_text t) now) s

unfoldable pub resume_task : Croniter → ℕ → String → TaskScheduler → Bool × TaskScheduler
unfolding resume_found
resume_task c now key s = let (found, s') = lookup_task key s in resume_found c now key found s'
