-- ===== src/Scheduler/Recovered.antt =====
-- What startup recovery leaves behind under the policy `mark`
-- (src/thumbelina/scheduler/scheduler.py, `recover`).
use thumbelina.Prelude.{
  ℕ, String, true, false, ◌&&◌, Option, none, some, ◌≡◌, refl, arith, lookup, lookup-insert, eq_iff,
  str_eq, leb, if◌then◌else◌, Option-cases, if_both_rel, inl, inr, ◌⊎◌, Dict,
}
use thumbelina.Scheduler.Models.{
  TaskEvent, ScheduledTask, TaskStatus, PayloadValue, is_running, is_pending, is_once, is_cron,
}
use thumbelina.Scheduler.Cron.{Croniter, IsForward, next_after}
use thumbelina.Scheduler.State.{TaskScheduler, emit, save, cron_text}
use thumbelina.Scheduler.Recover.{
  recover_overdue_once, skip_to, recover_overdue_cron, recover_slot, recover_object, beyond_grace,
  reached,
}
use thumbelina.Scheduler.Slots.{next_after-IsForward}

-- not RUNNING; not a pending one-shot task beyond the grace; and not a pending cron task with a
-- `next_run` that is there and not after `now`, unless its expression has no next fire time
pub record IsRecovered (c : Croniter) (now grace : ℕ) (t : ScheduledTask) : Type 0 where
  pub idle : is_running t.status ≡ false
  pub in_time :
      (is_once t.trigger && is_pending t.status) ≡ true
      → beyond_grace t.scheduled_time grace now ≡ false
  pub ahead :
      (is_cron t.trigger && is_pending t.status) ≡ true
      → (reached t.next_run now ≡ false) ⊎ (next_after c (cron_text t) now ≡ none)

pub moved : Option ℕ → ScheduledTask → ScheduledTask
moved none t = t
moved (some u) t = record t { next_run = some u }

pub slot_after : Croniter → ℕ → Option ℕ → ScheduledTask → ScheduledTask
unfolding moved
slot_after c now none t = t
slot_after c now (some old) t = if leb old now then moved (next_after c (cron_text t) now) t else t

-- the object as recovery leaves it
pub after : Croniter → ℕ → ℕ → ScheduledTask → ScheduledTask
unfolding slot_after
after c now grace t =
    if is_running t.status
    then record t { status = TaskStatus.failed; error = some "interrupted by restart" }
    else if is_once t.trigger && is_pending t.status
    then (if beyond_grace t.scheduled_time grace now
        then record t { status = TaskStatus.missed }
        else t)
    else if is_cron t.trigger && is_pending t.status
    then slot_after c now t.next_run t
    else t

pub after-IsRecovered :
    (c : Croniter) (now grace : ℕ) (t : ScheduledTask)
    → IsForward c
    → IsRecovered c now grace (after c now grace t)
unfolding after
after-IsRecovered c now grace t f = elim (Option-cases (next_after c (cron_text t) now)) [
  | inl ended ↦ ground arith
  | inr (u, p) ↦ ground (arith, next_after-IsForward c f (cron_text t) now u p)
]

-- a step that leaves `t'` under `key` and every other object and setting as it was
pub record Sets (key : String) (s s' : TaskScheduler) (t' : ScheduledTask) : Type 0 where
  pub at : (j : String) → lookup j s'.tasks ≡ (if str_eq key j then some t' else lookup j s.tasks)
  pub policy : s'.missed_policy ≡ s.missed_policy
  pub grace : s'.missed_grace ≡ s.missed_grace

module _ (key : String) (s : TaskScheduler) where
  Sets-save : (e : TaskEvent) (t : ScheduledTask) → Sets key s (emit e (save key t s)) t
  unfolding emit save
  Sets-save e t = record { at = λ j. lookup-insert key j t s.tasks; policy = refl; grace = refl }

  module _ (t : ScheduledTask) (here : lookup key s.tasks ≡ some t) where
    Sets-same : Sets key s s t
    Sets-same = record { at = λ j. ground (arith, eq_iff key j); policy = refl; grace = refl }

    Sets-skip_to :
        (p : Dict PayloadValue) (o : Option ℕ) → Sets key s (skip_to key t p o s) (moved o t)
    unfolding skip_to moved
    Sets-skip_to p none = Sets-same
    Sets-skip_to p (some u) = Sets-save _ (record t { next_run = some u })

    module _ (c : Croniter) (now : ℕ) (mark : str_eq s.missed_policy "run" ≡ false) where
      Sets-recover_slot :
          (o : Option ℕ) → Sets key s (recover_slot c now key t o s) (slot_after c now o t)
      unfolding recover_slot slot_after
      Sets-recover_slot none = Sets-same
      Sets-recover_slot (some old) =
          if_both_rel (Sets key s) (leb old now)
            (rw (mark, recover_overdue_cron) (Sets-skip_to _ (next_after c (cron_text t) now)))
            Sets-same

      pub Sets-recover_object :
          Sets key s (recover_object c now key t s) (after c now s.missed_grace t)
      unfolding recover_object after
      Sets-recover_object = if_both_rel (Sets key s) (is_running t.status) (Sets-save _ _) (
          if_both_rel (Sets key s) (is_once t.trigger && is_pending t.status)
            (if_both_rel (Sets key s) (beyond_grace t.scheduled_time s.missed_grace now)
              (rw (mark, recover_overdue_once) (Sets-save _ _)) Sets-same)
            (if_both_rel (Sets key s) (is_cron t.trigger && is_pending t.status)
              (Sets-recover_slot t.next_run) Sets-same))
