-- ===== src/Scheduler/RoundWrites.antt =====
-- Firing rounds keep the working set and the task table in step (scheduler.py, `_fire_task`).
use thumbelina.Prelude.{ℕ, String, Bool, Option, none, some, ◌≡◌, arith, str_eq, if_both, ◌∙◌}
use thumbelina.Scheduler.Models.{ScheduledTask, is_cron, is_failed, trigger_time}
use thumbelina.Scheduler.Cron.{Croniter}
use thumbelina.Scheduler.State.{TaskScheduler}
use thumbelina.Scheduler.Fire.{
  Outcome, returned, raised, timed_out, settle_prompt_failed, settle_prompt_completed,
  settle_outcome, settle_prompt, execute_prompt, announce, started, enlist, launch_prompt,
  fire_begin, notify_failed, notify_completed, notify_outcome, settle_delivery, settle_notify,
  consume_slot, failed_task, completed_task,
}
use thumbelina.Scheduler.Synced.{IsSynced, Keeps, emit-IsSynced, save-IsSynced, with_task-IsSynced}

module _ (c : Croniter) (now : ℕ) (t : ScheduledTask) where
  id-consume_slot : (consume_slot c now t).id ≡ t.id
  unfolding consume_slot
  id-consume_slot = ground arith

  id-failed_task : (message : String) → (failed_task c now message t).id ≡ t.id
  unfolding failed_task
  id-failed_task message = ground arith

  id-completed_task : (o : Option String) → (completed_task c now o t).id ≡ t.id
  unfolding completed_task
  id-completed_task none = ground arith
  id-completed_task (some r) = ground arith

settle_prompt-IsSynced :
    (key : String) (at : Option ℕ) (ms : ℕ) (outcome : Outcome)
    → Keeps key (settle_prompt key at ms outcome)
unfolding settle_prompt settle_prompt_failed settle_prompt_completed
settle_prompt-IsSynced key at ms outcome t s i h =
    if_both IsSynced (is_failed t.status) h (settled outcome)
  where
    settled : (o : Outcome) → IsSynced (settle_outcome key at ms o t s)
    settled (returned none) = emit-IsSynced _ _ (save-IsSynced key _ s i h)
    settled (returned (some r)) = emit-IsSynced _ _ (save-IsSynced key _ s i h)
    settled (raised message) = emit-IsSynced _ _ (save-IsSynced key _ s i h)
    settled timed_out = emit-IsSynced _ _ (save-IsSynced key _ s i h)

pub execute_prompt-IsSynced :
    (key : String) (at : Option ℕ) (ms : ℕ) (outcome : Outcome) (s : TaskScheduler)
    → IsSynced s
    → IsSynced (execute_prompt key at ms outcome s)
unfolding execute_prompt
execute_prompt-IsSynced key at ms outcome s h =
    let k =
      with_task-IsSynced key (settle_prompt key at ms outcome) s
        (settle_prompt-IsSynced key at ms outcome) h in
    record { reliable = k.reliable; agrees = k.agrees; keyed = k.keyed }

enlist-IsSynced : (key : String) (s : TaskScheduler) → IsSynced s → IsSynced (enlist key s)
unfolding enlist
enlist-IsSynced key s h = record { reliable = h.reliable; agrees = h.agrees; keyed = h.keyed }

module _ (c : Croniter) (now : ℕ) (key : String) where
  launch_prompt-IsSynced :
      (runner : Bool) (ms : ℕ) (at : Option ℕ)
      → Keeps key (λ t s. launch_prompt c now runner ms key t at s)
  unfolding launch_prompt
  launch_prompt-IsSynced runner ms at t s i h =
      let t' = consume_slot c now t in
      let i' : t'.id ≡ key = id-consume_slot c now t ∙ i in
      let k = if_both IsSynced (is_cron t.trigger) (save-IsSynced key t' s i' h) h in
      if_both IsSynced runner (enlist-IsSynced key _ k)
        (settle_prompt-IsSynced key at ms (raised "prompt runner not configured") t' _ i' k)

  -- The first half of a firing round.
  pub fire_begin-IsSynced :
      (later : ℕ) (runner : Bool) (ms : ℕ)
      → Keeps key (λ t s. fire_begin c later now runner ms key t s)
  unfolding fire_begin announce
  fire_begin-IsSynced later runner ms t s i h =
      let k = emit-IsSynced _ _ (save-IsSynced key (started later t) s i h) in
      if_both IsSynced (str_eq t.mode "prompt")
        (launch_prompt-IsSynced runner ms (trigger_time t) (started later t) _ i k) k

  notify_failed-IsSynced :
      (at : Option ℕ) (ms : ℕ) (message : String)
      → Keeps key (notify_failed c now key at ms message)
  unfolding notify_failed
  notify_failed-IsSynced at ms message t s i h =
      emit-IsSynced _ _ (save-IsSynced key _ s (id-failed_task c now t message ∙ i) h)

  notify_completed-IsSynced :
      (ms : ℕ) (o : Option String) → Keeps key (notify_completed c now key ms o)
  unfolding notify_completed
  notify_completed-IsSynced ms o t s i h =
      emit-IsSynced _ _ (save-IsSynced key _ s (id-completed_task c now t o ∙ i) h)

  settle_delivery-IsSynced :
      (at : Option ℕ) (ms : ℕ) (outcome : Outcome)
      → Keeps key (settle_delivery c now key at ms outcome)
  unfolding settle_delivery
  settle_delivery-IsSynced at ms outcome t s i h =
      if_both IsSynced (is_failed t.status) h (settled outcome)
    where
      settled : (o : Outcome) → IsSynced (notify_outcome c now key at ms o t s)
      settled (returned o) = notify_completed-IsSynced ms o t s i h
      settled (raised message) = notify_failed-IsSynced at ms message t s i h
      settled timed_out = notify_failed-IsSynced at ms "" t s i h

  pub settle_notify-IsSynced :
      (at : Option ℕ) (ms : ℕ) (outcome : Outcome) (s : TaskScheduler)
      → IsSynced s
      → IsSynced (settle_notify c now key at ms outcome s)
  unfolding settle_notify
  settle_notify-IsSynced at ms outcome s h =
      with_task-IsSynced key _ s (settle_delivery-IsSynced at ms outcome) h
