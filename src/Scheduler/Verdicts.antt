-- ===== src/Scheduler/Verdicts.antt =====
-- What becomes of a verdict that another operation gives while a delivery is in flight
-- (src/thumbelina/scheduler/scheduler.py `_fire_task`, `cancel_task`; heartbeat.py).
use thumbelina.Prelude.{
  ℕ, ◌+◌, ◌<◌, String, Bool, true, false, Option, some, List, ◌≡◌, refl, arith, lookup, str_eq,
  contains,
}
use thumbelina.Scheduler.Models.{ScheduledTask, TaskStatus}
use thumbelina.Scheduler.Cron.{Croniter}
use thumbelina.Scheduler.State.{TaskScheduler, emit, with_task}
use thumbelina.Scheduler.Fire.{Outcome, fire_begin, started, settle_notify, settle_delivery}
use thumbelina.Scheduler.Heartbeat.{reap_task, reap, is_stale}
use thumbelina.Scheduler.Slots.{lookup-save}

-- a notify task is RUNNING once its round has begun
fired_object :
    (c : Croniter) (now later ms : ℕ) (runner : Bool) (key : String) (t : ScheduledTask)
    (s : TaskScheduler)
    → str_eq t.mode "prompt" ≡ false
    → lookup key (fire_begin c now later runner ms key t s).tasks ≡ some (started now t)
unfolding fire_begin emit
fired_object c now later ms runner key t s m = rw (m, fire_begin) (lookup-save key _ s)

reaped_object :
    (now stale : ℕ) (inflight : List String) (key : String) (t : ScheduledTask) (s : TaskScheduler)
    → lookup key s.tasks ≡ some t
    → is_stale now stale inflight t ≡ true
    → lookup key (reap_task now stale inflight key s).tasks
      ≡ some (record t { status = TaskStatus.failed; error = some "stale running" })
unfolding reap_task reap with_task emit
reaped_object now stale inflight key t s e h =
    rw (e, reap_task, with_task) (rw h (lookup-save key _ s))

failed_kept :
    (c : Croniter) (now ms : ℕ) (key : String) (at : Option ℕ) (o : Outcome) (t : ScheduledTask)
    (s : TaskScheduler)
    → lookup key s.tasks ≡ some t
    → t.status ≡ TaskStatus.failed
    → settle_notify c now key at ms o s ≡ s
unfolding settle_notify settle_delivery
failed_kept c now ms key at o t s e h = rw (e, settle_notify, with_task) (ground arith)

-- A delivery of a notify task begins at `now`; the heartbeat finds the task stale and fails it; the
-- delivery then ends in any way. The end of the delivery changes nothing, and the task is FAILED
-- with the heartbeat's error: a verdict of the heartbeat is final.
pub reaped_verdict_stays :
    (c : Croniter) (now later beat stale end ms : ℕ) (runner : Bool) (key : String)
    (inflight : List String) (at : Option ℕ) (o : Outcome) (t : ScheduledTask) (s : TaskScheduler)
    → str_eq t.mode "prompt" ≡ false
    → contains inflight t.id ≡ false
    → now + stale < beat
    → let fired = fire_begin c now later runner ms key t s in
      let reaped = reap_task beat stale inflight key fired in
      (settle_notify c end key at ms o reaped ≡ reaped)
      × (lookup key reaped.tasks
          ≡ some
              (record (started now t) { status = TaskStatus.failed; error = some "stale running" }))
unfolding is_stale
reaped_verdict_stays c now later beat stale end ms runner key inflight at o t s m i late =
    let r =
      reaped_object beat stale inflight key (started now t) _
        (fired_object c now later ms runner key t s m) (ground arith) in
    (failed_kept c end ms key at o _ _ r refl, r)
