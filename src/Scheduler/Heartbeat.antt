-- ===== src/Scheduler/Heartbeat.antt =====
-- The inspection items of the heartbeat (src/thumbelina/scheduler/heartbeat.py), and the polling
-- loop's restart. A cycle is given by its `now`; pruning and counting read the event table only.
use thumbelina.Prelude.{
  ℕ, ◌+◌, String, Bool, true, false, not, ◌&&◌, none, some, List, [], ◌∷◌, ltb, contains,
  if◌then◌else◌,
}
use thumbelina.Scheduler.Models.{
  ScheduledTask, TaskEventType, TaskStatus, PayloadValue, trigger_time, is_running, is_pending,
  is_once, is_cron,
}
use thumbelina.Scheduler.Cron.{Croniter}
use thumbelina.Scheduler.State.{TaskScheduler, emit, make_event, save, with_task}
use thumbelina.Scheduler.Recover.{recover_overdue_once, recover_slot, beyond_grace, keys_of}

-- `_restart_loop`
unfoldable pub restart_loop : TaskScheduler → TaskScheduler
restart_loop s =
    if not s.running then s else if s.loop_alive then s else record s { loop_alive = true }

unfoldable pub check_poll_loop : TaskScheduler → TaskScheduler × Bool
unfolding restart_loop
check_poll_loop s =
    if not s.running
    then (s, false)
    else if s.loop_alive
    then (s, false)
    else (restart_loop s, true)

-- RUNNING since longer than `stale`, and not owned by a background execution
unfoldable pub is_stale : ℕ → ℕ → List String → ScheduledTask → Bool
is_stale now stale inflight t =
    if is_running t.status
    then elim t.last_run [
      | none ↦ false
      | some at ↦ ltb (at + stale) now && not (contains inflight t.id)
    ]
    else false

unfoldable pub reap : String → ScheduledTask → TaskScheduler → TaskScheduler
unfolding trigger_time
reap key t s =
    let t' = record t { status = TaskStatus.failed; error = some "stale running" } in
    emit
      (make_event t' TaskEventType.failed (
        ("error", PayloadValue.text "stale running")
        ∷ ("scheduled_for", PayloadValue.moment (trigger_time t))
        ∷ []))
      (save key t' s)

-- the item `stale_running` on one key; `inflight` is the set as it was when the item began
unfoldable pub reap_task : ℕ → ℕ → List String → String → TaskScheduler → TaskScheduler
unfolding reap with_task
reap_task now stale inflight key s =
    with_task key (λ t u. if is_stale now stale inflight t then reap key t u else u) s

-- the item `cron_next_run` on one key
unfoldable pub check_cron_task : Croniter → ℕ → String → TaskScheduler → TaskScheduler
unfolding recover_slot with_task
check_cron_task c now key s =
    with_task key
      (λ t u.
        if is_cron t.trigger && is_pending t.status
        then recover_slot c now key t t.next_run u
        else u)
      s

-- the item `once_overdue` on one key
unfoldable pub check_once_task : ℕ → ℕ → String → TaskScheduler → TaskScheduler
unfolding recover_overdue_once with_task
check_once_task now grace key s =
    with_task key
      (λ t u.
        if is_once t.trigger && is_pending t.status && beyond_grace t.scheduled_time grace now
        then recover_overdue_once key t u
        else u)
      s

-- `for task in await list_tasks()`
unfoldable pub for_keys :
    (String → TaskScheduler → TaskScheduler) → List String → TaskScheduler → TaskScheduler
for_keys f [] s = s
for_keys f (key ∷ keys) s = for_keys f keys (f key s)

unfoldable pub check_stale_running : ℕ → ℕ → TaskScheduler → TaskScheduler
unfolding for_keys reap_task
check_stale_running now stale s = for_keys (reap_task now stale s.inflight) (keys_of s.tasks) s

unfoldable pub check_cron_next_run : Croniter → ℕ → TaskScheduler → TaskScheduler
unfolding for_keys check_cron_task
check_cron_next_run c now s = for_keys (check_cron_task c now) (keys_of s.tasks) s

unfoldable pub check_once_overdue : ℕ → ℕ → TaskScheduler → TaskScheduler
unfolding for_keys check_once_task
check_once_overdue now grace s =
    if not s.running
    then s
    else if s.loop_alive
    then s
    else for_keys (check_once_task now grace) (keys_of s.tasks) s

-- `_run_checks`, in its order
unfoldable pub run_checks : Croniter → ℕ → ℕ → ℕ → TaskScheduler → TaskScheduler
unfolding check_stale_running check_cron_next_run check_once_overdue check_poll_loop
run_checks c now grace stale s =
    let s1 = check_once_overdue now grace s in
    let s2 = (check_poll_loop s1).0 in
    let s3 = check_stale_running now stale s2 in check_cron_next_run c now s3
