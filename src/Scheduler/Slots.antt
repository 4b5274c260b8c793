-- ===== src/Scheduler/Slots.antt =====
-- What a firing round does to the schedule (src/thumbelina/scheduler/scheduler.py, `_fire_task`).
use thumbelina.Prelude.{
  ℕ, ◌<◌, String, false, Option, none, some, ◌≡◌, ◌≢◌, arith, lookup, refl, lookup-insert, eq_refl,
}
use thumbelina.Scheduler.Models.{TaskEvent, ScheduledTask, TaskStatus, TriggerKind}
use thumbelina.Scheduler.Cron.{Croniter, IsForward, next_after}
use thumbelina.Scheduler.State.{TaskScheduler, emit, save, with_task, cron_text}
use thumbelina.Scheduler.Crud.{is_due}
use thumbelina.Scheduler.Fire.{
  Outcome, returned, raised, timed_out, settle_notify, settle_delivery, notify_outcome, with_result,
  failed_task, completed_task,
}

pub next_after-IsForward :
    (c : Croniter) → IsForward c → (e : String) (t u : ℕ) → next_after c e t ≡ some u → t < u
unfolding next_after
next_after-IsForward c f e t u h = ground (arith, f e t u)

cron_text-with_result :
    (o : Option String) (t : ScheduledTask) → cron_text (with_result o t) ≡ cron_text t
cron_text-with_result none t = refl
cron_text-with_result (some r) t = refl

-- PENDING at the given next fire time, and not due now
pub record IsRearmed (now u : ℕ) (t : ScheduledTask) : Type 0 where
  pub status : t.status ≡ TaskStatus.pending
  pub next_run : t.next_run ≡ some u
  pub not_due : is_due now t ≡ false

module _ (c : Croniter) (f : IsForward c) (now : ℕ) (t : ScheduledTask) (u : ℕ) where
  failed_task-IsRearmed :
      (message : String)
      → t.trigger ≡ TriggerKind.cron
      → next_after c (cron_text t) now ≡ some u
      → IsRearmed now u (failed_task c now message t)
  unfolding failed_task is_due
  failed_task-IsRearmed message k x = ground (arith, next_after-IsForward c f (cron_text t) now u x)

  completed_task-IsRearmed :
      (o : Option String)
      → t.trigger ≡ TriggerKind.cron
      → next_after c (cron_text t) now ≡ some u
      → IsRearmed now u (completed_task c now o t)
  unfolding completed_task is_due
  completed_task-IsRearmed none k x = ground (arith, next_after-IsForward c f (cron_text t) now u x)
  completed_task-IsRearmed (some r) k x =
      ground (arith, next_after-IsForward c f (cron_text t) now u x)

lookup-emit : (e : TaskEvent) (s : TaskScheduler) → (emit e s).tasks ≡ s.tasks
unfolding emit
lookup-emit e s = refl

pub lookup-save :
    (key : String) (t : ScheduledTask) (s : TaskScheduler)
    → lookup key (save key t s).tasks ≡ some t
unfolding save
lookup-save key t s = simp (lookup-insert, eq_refl)

-- the object under the key after a delivery is settled
settled_object :
    (c : Croniter) (now ms : ℕ) (key : String) (at : Option ℕ) (o : Outcome) (t : ScheduledTask)
    (s : TaskScheduler)
    → t.status ≢ TaskStatus.failed
    → settle_delivery c now key at ms o t s ≡ notify_outcome c now key at ms o t s
unfolding settle_delivery
settled_object c now ms key at o t s n = ground arith

module _ (c : Croniter) (f : IsForward c) (now ms : ℕ) (key : String) (at : Option ℕ) where
  rearmed :
      (o : Outcome) (t : ScheduledTask) (s : TaskScheduler) (u : ℕ)
      → t.trigger ≡ TriggerKind.cron
      → next_after c (cron_text t) now ≡ some u
      → (t' : ScheduledTask) × (lookup key (notify_outcome c now key at ms o t s).tasks ≡ some t')
        × IsRearmed now u t'
  unfolding notify_outcome emit
  rearmed (returned r) t s u k x =
      (completed_task c now r t, lookup-save key _ s, completed_task-IsRearmed c f now t u r k x)
  rearmed (raised m) t s u k x =
      (failed_task c now m t, lookup-save key _ s, failed_task-IsRearmed c f now t u m k x)
  rearmed timed_out t s u k x =
      (failed_task c now "" t, lookup-save key _ s, failed_task-IsRearmed c f now t u "" k x)

  -- A cron task whose delivery is settled at `now` by the notify path with any outcome, and which is
  -- not FAILED by then and has a next fire time after `now`, is afterwards PENDING with that fire time
  -- for its `next_run` and not due at `now`: the slot that fired is consumed after a success and after a
  -- failure alike. It is assumed of croniter that `get_next` is strictly after its start.
  pub consumed_slot :
      (o : Outcome) (t : ScheduledTask) (s : TaskScheduler) (u : ℕ)
      → lookup key s.tasks ≡ some t
      → t.trigger ≡ TriggerKind.cron
      → t.status ≢ TaskStatus.failed
      → next_after c (cron_text t) now ≡ some u
      → (t' : ScheduledTask) × (lookup key (settle_notify c now key at ms o s).tasks ≡ some t')
        × IsRearmed now u t'
  unfolding settle_notify
  consumed_slot o t s u e k n x =
      rw (e, settle_notify, with_task)
        (rw (settled_object c now ms key at o t s n) (rearmed o t s u k x))
