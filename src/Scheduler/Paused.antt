-- ===== src/Scheduler/Paused.antt =====
-- A pause and the resumption after it (`pause_task`, `resume_task` and `get_due_tasks` of
-- src/thumbelina/scheduler/scheduler.py).
use thumbelina.Prelude.{ℕ, String, true, false, some, ◌≡◌, refl, arith, lookup}
use thumbelina.Scheduler.Models.{ScheduledTask, TaskStatus, TriggerKind}
use thumbelina.Scheduler.Cron.{Croniter, IsForward, next_after}
use thumbelina.Scheduler.State.{TaskScheduler, save, cron_text, lookup_task}
use thumbelina.Scheduler.Crud.{
  is_due, pause_task, pause_found, resume_task, resume_found, resume_with,
}
use thumbelina.Scheduler.Slots.{IsRearmed, lookup-save, next_after-IsForward}

abbrev paused : ScheduledTask → ScheduledTask
paused t = record t { status = TaskStatus.paused }

pause_pending :
    (key : String) (t : ScheduledTask) (s : TaskScheduler)
    → lookup key s.tasks ≡ some t
    → t.trigger ≡ TriggerKind.cron
    → t.status ≡ TaskStatus.pending
    → pause_task key s ≡ (true, save key (paused t) s)
unfolding pause_task pause_found lookup_task
pause_pending key t s e k p = rw (e, pause_task, lookup_task) (rw (k, p) refl)

resume_paused :
    (c : Croniter) (now : ℕ) (key : String) (t : ScheduledTask) (s : TaskScheduler) (u : ℕ)
    → lookup key s.tasks ≡ some t
    → t.trigger ≡ TriggerKind.cron
    → t.status ≡ TaskStatus.paused
    → next_after c (cron_text t) now ≡ some u
    → resume_task c now key s
      ≡ (true, save key (record t { next_run = some u; status = TaskStatus.pending }) s)
unfolding resume_task resume_found resume_with lookup_task
resume_paused c now key t s u e k p x = rw (e, resume_task, lookup_task) (rw (k, p, x) refl)

resumed-IsRearmed :
    (c : Croniter) (now : ℕ) (t : ScheduledTask) (u : ℕ)
    → IsForward c
    → t.trigger ≡ TriggerKind.cron
    → next_after c (cron_text t) now ≡ some u
    → IsRearmed now u (record t { next_run = some u; status = TaskStatus.pending })
unfolding is_due
resumed-IsRearmed c now t u f k x = record {
  status = refl;
  next_run = refl;
  not_due = ground (arith, next_after-IsForward c f (cron_text t) now u x);
}

-- A pending cron task is paused by `pause_task`, is then due at no time, and `resume_task` at `now`
-- gives it back as PENDING with the next fire time after `now`, not due at `now`: what was missed
-- while it was paused is not made up. It is assumed of croniter that `get_next` is strictly after
-- its start.
pub pause_task-resume_task :
    (c : Croniter) (now later : ℕ) (key : String) (t : ScheduledTask) (s : TaskScheduler) (u : ℕ)
    → IsForward c
    → lookup key s.tasks ≡ some t
    → t.trigger ≡ TriggerKind.cron
    → t.status ≡ TaskStatus.pending
    → next_after c (cron_text t) now ≡ some u
    → let (done, s') = pause_task key s in
      let (resumed, s'') = resume_task c now key s' in
      (done ≡ true)
      × (lookup key s'.tasks ≡ some (paused t))
      × (is_due later (paused t) ≡ false)
      × (resumed ≡ true)
      × ((t' : ScheduledTask) × (lookup key s''.tasks ≡ some t') × IsRearmed now u t')
unfolding is_due
pause_task-resume_task c now later key t s u f e k p x =
    let s' = save key (paused t) s in
    let there = lookup-save key (paused t) s in
    let back = record t { next_run = some u; status = TaskStatus.pending } in
    rw (pause_pending key t s e k p) (
      rw (resume_paused c now key (paused t) s' u there k refl x) (
        refl,
        there,
        refl,
        refl,
        (back, lookup-save key back s', resumed-IsRearmed c now t u f k x),
      ))
