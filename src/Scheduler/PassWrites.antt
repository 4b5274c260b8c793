-- ===== src/Scheduler/PassWrites.antt =====
-- Recovery and the heartbeat keep the working set and the task table in step (scheduler.py and heartbeat.py).
use thumbelina.Prelude.{
  ℕ, String, Bool, not, Option, none, some, List, [], ◌∷◌, Dict, ◌&&◌, str_eq, leb, if_both,
}
use thumbelina.Scheduler.Models.{PayloadValue, is_cron, is_once, is_pending, is_running}
use thumbelina.Scheduler.Cron.{Croniter, next_after}
use thumbelina.Scheduler.State.{TaskScheduler, cron_text}
use thumbelina.Scheduler.Recover.{
  recover_overdue_once, skip_to, recover_slot, recover_object, recover_task, recover_tasks,
  beyond_grace, keys_of,
}
use thumbelina.Scheduler.Heartbeat.{
  check_poll_loop, is_stale, reap_task, check_cron_task, check_once_task, for_keys,
  check_stale_running, check_once_overdue, run_checks,
}
use thumbelina.Scheduler.Synced.{IsSynced, emit-IsSynced, save-IsSynced, with_task-IsSynced, Keeps}

module _ (c : Croniter) (now : ℕ) (key : String) where
  recover_overdue_once-IsSynced : Keeps key (recover_overdue_once key)
  unfolding recover_overdue_once
  recover_overdue_once-IsSynced t s i h =
      if_both IsSynced (str_eq s.missed_policy "run") h
        (emit-IsSynced _ _ (save-IsSynced key _ s i h))

  skip_to-IsSynced :
      (payload : Dict PayloadValue) (o : Option ℕ) → Keeps key (λ t s. skip_to key t payload o s)
  unfolding skip_to
  skip_to-IsSynced payload none t s i h = h
  skip_to-IsSynced payload (some u) t s i h = emit-IsSynced _ _ (save-IsSynced key _ s i h)

  recover_slot-IsSynced : (o : Option ℕ) → Keeps key (λ t s. recover_slot c now key t o s)
  unfolding recover_slot
  recover_slot-IsSynced none t s i h = h
  recover_slot-IsSynced (some old) t s i h =
      if_both IsSynced (leb old now)
        (if_both IsSynced (str_eq s.missed_policy "run") (emit-IsSynced _ _ h)
          (skip_to-IsSynced _ (next_after c (cron_text t) now) t s i h))
        h

  recover_object-IsSynced : Keeps key (recover_object c now key)
  unfolding recover_object
  recover_object-IsSynced t s i h =
      if_both IsSynced (is_running t.status) (emit-IsSynced _ _ (save-IsSynced key _ s i h)) (
        if_both IsSynced (is_once t.trigger && is_pending t.status)
          (if_both IsSynced (beyond_grace t.scheduled_time s.missed_grace now)
            (recover_overdue_once-IsSynced t s i h) h)
          (if_both IsSynced (is_cron t.trigger && is_pending t.status)
            (recover_slot-IsSynced t.next_run t s i h) h))

  recover_task-IsSynced : (s : TaskScheduler) → IsSynced s → IsSynced (recover_task c now key s)
  unfolding recover_task
  recover_task-IsSynced s h = with_task-IsSynced key _ s recover_object-IsSynced h

  reap_task-IsSynced :
      (stale : ℕ) (inflight : List String) (s : TaskScheduler)
      → IsSynced s
      → IsSynced (reap_task now stale inflight key s)
  unfolding reap_task
  reap_task-IsSynced stale inflight s h =
      with_task-IsSynced key _ s
        (λ t u i k.
          if_both IsSynced (is_stale now stale inflight t)
            (emit-IsSynced _ _ (save-IsSynced key _ u i k)) k)
        h

  check_cron_task-IsSynced :
      (s : TaskScheduler) → IsSynced s → IsSynced (check_cron_task c now key s)
  unfolding check_cron_task
  check_cron_task-IsSynced s h =
      with_task-IsSynced key _ s
        (λ t u i k.
          if_both IsSynced (is_cron t.trigger && is_pending t.status)
            (recover_slot-IsSynced t.next_run t u i k) k)
        h

  check_once_task-IsSynced :
      (grace : ℕ) (s : TaskScheduler) → IsSynced s → IsSynced (check_once_task now grace key s)
  unfolding check_once_task
  check_once_task-IsSynced grace s h =
      with_task-IsSynced key _ s
        (λ t u i k.
          if_both IsSynced
            (is_once t.trigger && is_pending t.status && beyond_grace t.scheduled_time grace now)
            (recover_overdue_once-IsSynced t u i k) k)
        h

for_keys-IsSynced :
    (f : String → TaskScheduler → TaskScheduler)
    → ((key : String) (s : TaskScheduler) → IsSynced s → IsSynced (f key s))
    → (keys : List String) (s : TaskScheduler) → IsSynced s
    → IsSynced (for_keys f keys s)
unfolding for_keys
for_keys-IsSynced f keeps [] s h = h
for_keys-IsSynced f keeps (key ∷ keys) s h =
    for_keys-IsSynced f keeps keys (f key s) (keeps key s h)

module _ (c : Croniter) (now : ℕ) where
  pub recover_tasks-IsSynced :
      (keys : List String) (s : TaskScheduler) → IsSynced s → IsSynced (recover_tasks c now keys s)
  unfolding recover_tasks
  recover_tasks-IsSynced [] s h = h
  recover_tasks-IsSynced (key ∷ keys) s h =
      recover_tasks-IsSynced keys (recover_task c now key s) (recover_task-IsSynced c now key s h)

  restart_loop-IsSynced : (s : TaskScheduler) → IsSynced s → IsSynced (check_poll_loop s).0
  unfolding check_poll_loop
  restart_loop-IsSynced s h =
      if_both (λ (r : TaskScheduler × Bool). IsSynced r.0) (not s.running) h
        (if_both (λ (r : TaskScheduler × Bool). IsSynced r.0) s.loop_alive h
          (if_both IsSynced (not s.running) h (
            if_both IsSynced s.loop_alive h
              (record { reliable = h.reliable; agrees = h.agrees; keyed = h.keyed }))))

  pub run_checks-IsSynced :
      (grace stale : ℕ) (s : TaskScheduler) → IsSynced s → IsSynced (run_checks c now grace stale s)
  unfolding run_checks
  run_checks-IsSynced grace stale s h =
      let s1 = check_once_overdue now grace s in
      let s2 = (check_poll_loop s1).0 in
      let s3 = check_stale_running now stale s2 in
      let h1 : IsSynced s1 = if_both IsSynced (not s.running) h (
        if_both IsSynced s.loop_alive h (
          for_keys-IsSynced _ (λ key. check_once_task-IsSynced c now key grace) (keys_of s.tasks) s
            h)) in
      let h2 : IsSynced s2 = restart_loop-IsSynced s1 h1 in
      let h3 : IsSynced s3 =
        for_keys-IsSynced _ (λ key. reap_task-IsSynced c now key stale s2.inflight)
          (keys_of s2.tasks) s2 h2 in
      for_keys-IsSynced _ (check_cron_task-IsSynced c now) (keys_of s3.tasks) s3 h3
