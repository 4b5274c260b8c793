-- ===== src/Scheduler/Writes.antt =====
-- Every operation of the scheduler keeps the working set and the task table in step.
use thumbelina.Prelude.{
  ℕ, String, not, Option, none, some, ◌≡◌, refl, ◌&&◌, ◌||◌, is_some, str_eq, if_both,
}
use thumbelina.Scheduler.Models.{ScheduledTask, is_cron, is_pending, is_paused}
use thumbelina.Scheduler.Cron.{Croniter}
use thumbelina.Scheduler.State.{TaskScheduler, cron_text}
use thumbelina.Scheduler.Crud.{
  add_task, admit, admit_at, cancel_task, cancel_found, complete_task, complete_found, pause_task,
  pause_found, resume_task, resume_found, resume_with,
}
use thumbelina.Scheduler.Synced.{IsSynced, emit-IsSynced, save-IsSynced, lookup_task-Finds}

abbrev Both {ℓ} : {A : Type ℓ} → A × TaskScheduler → Type 0
Both r = IsSynced r.1

admit-IsSynced : (t : ScheduledTask) (s : TaskScheduler) → IsSynced s → IsSynced (admit t s)
unfolding admit
admit-IsSynced t s h = emit-IsSynced _ _ (save-IsSynced t.id t s refl h)

admit_at-IsSynced :
    (t : ScheduledTask) (o : Option ℕ) (s : TaskScheduler)
    → IsSynced s
    → IsSynced (admit_at t o s).1
unfolding admit_at
admit_at-IsSynced t none s h = h
admit_at-IsSynced t (some u) s h = admit-IsSynced (record t { next_run = some u }) s h

pub add_task-IsSynced :
    (c : Croniter) (now : ℕ) (t : ScheduledTask) (s : TaskScheduler)
    → IsSynced s
    → IsSynced (add_task c now t s).1
unfolding add_task
add_task-IsSynced c now t s h =
    if_both Both (is_cron t.trigger && not (is_some t.next_run))
      (if_both Both (str_eq (cron_text t) "") h (admit_at-IsSynced t _ s h)) (admit-IsSynced t s h)

module _ (key : String) (s : TaskScheduler) (h : IsSynced s) where
  cancel_found-IsSynced :
      (o : Option ScheduledTask)
      → ((t : ScheduledTask) → o ≡ some t → t.id ≡ key)
      → IsSynced (cancel_found key o s).1
  unfolding cancel_found
  cancel_found-IsSynced none i = h
  cancel_found-IsSynced (some t) i = emit-IsSynced _ _ (save-IsSynced key _ s (i t refl) h)

  complete_found-IsSynced :
      (o : Option ScheduledTask)
      → ((t : ScheduledTask) → o ≡ some t → t.id ≡ key)
      → IsSynced (complete_found key o s)
  unfolding complete_found
  complete_found-IsSynced none i = h
  complete_found-IsSynced (some t) i = save-IsSynced key _ s (i t refl) h

  pause_found-IsSynced :
      (o : Option ScheduledTask)
      → ((t : ScheduledTask) → o ≡ some t → t.id ≡ key)
      → IsSynced (pause_found key o s).1
  unfolding pause_found
  pause_found-IsSynced none i = h
  pause_found-IsSynced (some t) i =
      if_both Both (not (is_cron t.trigger) || not (is_pending t.status)) h
        (save-IsSynced key _ s (i t refl) h)

  resume_with-IsSynced :
      (t : ScheduledTask) (o : Option ℕ) → t.id ≡ key → IsSynced (resume_with key t o s).1
  unfolding resume_with
  resume_with-IsSynced t none i = h
  resume_with-IsSynced t (some u) i = save-IsSynced key _ s i h

  resume_found-IsSynced :
      (c : Croniter) (now : ℕ) (o : Option ScheduledTask)
      → ((t : ScheduledTask) → o ≡ some t → t.id ≡ key)
      → IsSynced (resume_found c now key o s).1
  unfolding resume_found
  resume_found-IsSynced c now none i = h
  resume_found-IsSynced c now (some t) i =
      if_both Both (not (is_cron t.trigger) || not (is_paused t.status)) h
        (resume_with-IsSynced t _ (i t refl))

module _ (key : String) (s : TaskScheduler) (h : IsSynced s) where
  pub cancel_task-IsSynced : IsSynced (cancel_task key s).1
  unfolding cancel_task
  cancel_task-IsSynced =
      let (h', i) = lookup_task-Finds key s h in cancel_found-IsSynced key _ h' _ i

  pub complete_task-IsSynced : IsSynced (complete_task key s)
  unfolding complete_task
  complete_task-IsSynced =
      let (h', i) = lookup_task-Finds key s h in complete_found-IsSynced key _ h' _ i

  pub pause_task-IsSynced : IsSynced (pause_task key s).1
  unfolding pause_task
  pause_task-IsSynced = let (h', i) = lookup_task-Finds key s h in pause_found-IsSynced key _ h' _ i

  pub resume_task-IsSynced : (c : Croniter) (now : ℕ) → IsSynced (resume_task c now key s).1
  unfolding resume_task
  resume_task-IsSynced c now =
      let (h', i) = lookup_task-Finds key s h in resume_found-IsSynced key _ h' c now _ i
