-- ===== src/Scheduler/Recover.antt =====
-- Startup recovery (`recover`, `_recover_overdue_once`, `_recover_overdue_cron` of
-- src/thumbelina/scheduler/scheduler.py). It runs before `start`, so nothing comes in between.
use thumbelina.Prelude.{
  ℕ, ◌+◌, String, Bool, true, false, not, ◌||◌, ◌&&◌, Option, none, some, List, [], ◌∷◌, Dict,
  insert, str_eq, leb, map, if◌then◌else◌,
}
use thumbelina.Scheduler.Models.{
  ScheduledTask, TaskEventType, TaskStatus, PayloadValue, trigger_time, is_running, is_pending,
  is_paused, is_once, is_cron,
}
use thumbelina.Scheduler.Cron.{Croniter, validate_cron, next_after, count_skipped_occurrences}
use thumbelina.Scheduler.Store
use thumbelina.Scheduler.Store.{TaskStore}
use thumbelina.Scheduler.State.{
  TaskScheduler, persist, emit, make_event, save, with_task, cron_text,
}

abbrev runs_missed : TaskScheduler → Bool
runs_missed s = str_eq s.missed_policy "run"

-- rule 1, on the object at `key`
unfoldable pub recover_overdue_once : String → ScheduledTask → TaskScheduler → TaskScheduler
recover_overdue_once key t s =
    if runs_missed s
    then s
    else let t' = record t { status = TaskStatus.missed } in
      emit
        (make_event t' TaskEventType.missed (
          ("scheduled_for", PayloadValue.moment t.scheduled_time)
          ∷ ("policy", PayloadValue.text s.missed_policy)
          ∷ []))
        (save key t' s)

abbrev overdue_payload : Option ℕ → String → ℕ → Dict PayloadValue
overdue_payload old policy skipped =
    ("scheduled_for", PayloadValue.moment old)
    ∷ ("policy", PayloadValue.text policy)
    ∷ ("skipped_occurrences", PayloadValue.number skipped)
    ∷ []

-- `next_run` moves past the missed fire times, and one event sums them up
unfoldable pub skip_to :
    String → ScheduledTask → Dict PayloadValue → Option ℕ → TaskScheduler → TaskScheduler
skip_to key t payload none s = s
skip_to key t payload (some u) s =
    let t' = record t { next_run = some u } in
    emit (make_event t' TaskEventType.missed payload) (save key t' s)

-- rule 4; `old` is the task's `next_run`, which the callers have found to be there
unfoldable pub recover_overdue_cron :
    Croniter → ℕ → String → ScheduledTask → ℕ → TaskScheduler → TaskScheduler
unfolding skip_to
recover_overdue_cron c now key t old s =
    let skipped = count_skipped_occurrences c (cron_text t) old now in
    let payload = overdue_payload (some old) s.missed_policy skipped in
    if runs_missed s
    then emit (make_event t TaskEventType.missed payload) s
    else skip_to key t payload (next_after c (cron_text t) now) s

-- `task.next_run` or `task.scheduled_time` is there and not later than `limit`
abbrev pub reached : Option ℕ → ℕ → Bool
reached none limit = false
reached (some at) limit = leb at limit

-- `scheduled_time <= now - grace`, with the grace on the other side
abbrev pub beyond_grace : Option ℕ → ℕ → ℕ → Bool
beyond_grace none grace now = false
beyond_grace (some at) grace now = leb (at + grace) now

-- rules 3 and 5
unfoldable pub interrupt : String → ScheduledTask → TaskScheduler → TaskScheduler
unfolding trigger_time
interrupt key t s =
    let t' = record t { status = TaskStatus.failed; error = some "interrupted by restart" } in
    emit
      (make_event t' TaskEventType.failed (
        ("error", PayloadValue.text "interrupted by restart")
        ∷ ("scheduled_for", PayloadValue.moment (trigger_time t))
        ∷ []))
      (save key t' s)

-- rule 4 where `next_run` is there and has passed
unfoldable pub recover_slot :
    Croniter → ℕ → String → ScheduledTask → Option ℕ → TaskScheduler → TaskScheduler
unfolding recover_overdue_cron
recover_slot c now key t none s = s
recover_slot c now key t (some old) s =
    if leb old now then recover_overdue_cron c now key t old s else s

-- One round of the second loop, on the object at `key`: rules 1 to 5.
unfoldable pub recover_object :
    Croniter → ℕ → String → ScheduledTask → TaskScheduler → TaskScheduler
unfolding recover_overdue_once recover_slot interrupt
recover_object c now key t s =
    if is_running t.status
    then interrupt key t s
    else if is_once t.trigger && is_pending t.status
    then (if beyond_grace t.scheduled_time s.missed_grace now
        then recover_overdue_once key t s
        else s)
    else if is_cron t.trigger && is_pending t.status
    then recover_slot c now key t t.next_run s
    else s

unfoldable pub recover_task : Croniter → ℕ → String → TaskScheduler → TaskScheduler
unfolding recover_object with_task
recover_task c now key s = with_task key (recover_object c now key) s

unfoldable pub recover_tasks : Croniter → ℕ → List String → TaskScheduler → TaskScheduler
recover_tasks c now [] s = s
recover_tasks c now (key ∷ keys) s = recover_tasks c now keys (recover_task c now key s)

-- An expression that no longer parses: FAILED, and not put into the working set.
unfoldable pub refuse_row : ScheduledTask → TaskScheduler → TaskScheduler
refuse_row t s =
    let t' = record t { status = TaskStatus.failed; error = some "invalid cron expression" } in
    emit
      (make_event t' TaskEventType.failed
        (("error", PayloadValue.text "invalid cron expression") ∷ []))
      (persist t' s)

abbrev pub rejects : Croniter → ScheduledTask → Bool
rejects c t = elim (validate_cron c (cron_text t)) [ none ↦ false | some e ↦ true ]

-- One round of the first loop, on a row that was read.
unfoldable pub hydrate_task : Croniter → ScheduledTask → TaskScheduler → TaskScheduler
unfolding refuse_row
hydrate_task c t s =
    if is_cron t.trigger && not c.available
    then s
    else if is_cron t.trigger && (is_pending t.status || is_paused t.status) && rejects c t
    then refuse_row t s
    else record s { tasks = insert t.id t s.tasks }

unfoldable pub hydrate : Croniter → List ScheduledTask → TaskScheduler → TaskScheduler
unfolding hydrate_task
hydrate c [] s = s
hydrate c (t ∷ ts) s = hydrate c ts (hydrate_task c t s)

abbrev pub keys_of {ℓ} : {V : Type ℓ} → Dict V → List String
keys_of d = map (λ e. e.0) d

-- after `list_tasks`, whose failure is `none`
unfoldable pub recover_rows :
    Croniter → ℕ → Option (List ScheduledTask) → TaskScheduler → TaskScheduler
unfolding hydrate recover_tasks
recover_rows c now none s = s
recover_rows c now (some rows) s =
    let s' = hydrate c rows s in recover_tasks c now (keys_of s'.tasks) s'

unfoldable pub recover_store : Croniter → ℕ → Option TaskStore → TaskScheduler → TaskScheduler
unfolding recover_rows
recover_store c now none s = s
recover_store c now (some st) s =
    recover_rows c now (Store.list_tasks st).0 (record s { store = some (Store.list_tasks st).1 })

unfoldable pub recover : Croniter → ℕ → TaskScheduler → TaskScheduler
unfolding recover_store
recover c now s = recover_store c now s.store s
