-- ===== src/Scheduler/Fire.antt =====
-- One firing round (`_fire_task`, `_execute_prompt` and `_settle_prompt` of
-- src/thumbelina/scheduler/scheduler.py), cut at its `await` of the callback: `fire_begin` is what
-- runs before it and `settle_notify` or `execute_prompt` what runs after. Other operations may run
-- in between, so the second half reads the task object anew.
use thumbelina.Prelude.{
  ℕ, String, Bool, not, Option, none, some, List, [], ◌∷◌, Dict, str_eq, keep, if◌then◌else◌,
}
use thumbelina.Scheduler.Models.{
  ScheduledTask, TaskEventType, TaskStatus, PayloadValue, trigger_time, is_failed, is_once, is_cron,
}
use thumbelina.Scheduler.Cron.{Croniter, next_after}
use thumbelina.Scheduler.State.{TaskScheduler, emit, make_event, save, with_task, cron_text}

-- How an awaited callback ends: with its value as a text, or with an exception. A prompt callback
-- may also run into `prompt_timeout_seconds`.
pub data Outcome : Type 0 where
  returned : Option String → Outcome
  raised : String → Outcome
  timed_out : Outcome

-- `task.next_run = CronTrigger(…).next_after(now)`, where a `ValueError` leaves it
unfoldable pub advance : Croniter → ℕ → ScheduledTask → ScheduledTask
advance c now t = elim (next_after c (cron_text t) now) [
  | none ↦ t
  | some u ↦ record t { next_run = some u }
]

abbrev pub failed_payload : String → Option ℕ → ℕ → Dict PayloadValue
failed_payload error scheduled_for duration_ms =
    ("error", PayloadValue.text error)
    ∷ ("scheduled_for", PayloadValue.moment scheduled_for)
    ∷ ("duration_ms", PayloadValue.number duration_ms)
    ∷ []

abbrev pub completed_payload : Option String → ℕ → Dict PayloadValue
completed_payload none duration_ms = ("duration_ms", PayloadValue.number duration_ms) ∷ []
completed_payload (some result) duration_ms =
    ("duration_ms", PayloadValue.number duration_ms) ∷ ("result", PayloadValue.text result) ∷ []

-- `if delivered is not None: task.result = delivered`
abbrev pub with_result : Option String → ScheduledTask → ScheduledTask
with_result none t = t
with_result (some result) t = record t { result = some result }

-- the FAILED half of `_settle_prompt`
unfoldable pub settle_prompt_failed :
    String → Option ℕ → String → ℕ → ScheduledTask → TaskScheduler → TaskScheduler
settle_prompt_failed key scheduled_for message duration_ms t s =
    let t' = record t {
      error = some message;
      status = if is_once t.trigger then TaskStatus.failed else TaskStatus.pending;
    } in
    let slot : Option ℕ = elim scheduled_for [ some at ↦ some at | none ↦ trigger_time t' ] in
    emit (make_event t' TaskEventType.failed (failed_payload message slot duration_ms))
      (save key t' s)

-- the COMPLETED half of `_settle_prompt`
unfoldable pub settle_prompt_completed :
    String → String → ℕ → ScheduledTask → TaskScheduler → TaskScheduler
settle_prompt_completed key reply duration_ms t s =
    let t' = record t {
      result = some reply;
      status = if is_cron t.trigger then TaskStatus.pending else TaskStatus.completed;
    } in
    emit (make_event t' TaskEventType.completed (completed_payload (some reply) duration_ms))
      (save key t' s)

-- What `_execute_prompt` hands to `_settle_prompt`: `str(reply)`, or an error.
unfoldable pub settle_outcome :
    String → Option ℕ → ℕ → Outcome → ScheduledTask → TaskScheduler → TaskScheduler
unfolding settle_prompt_failed settle_prompt_completed
settle_outcome key at ms (returned none) t s = settle_prompt_completed key "None" ms t s
settle_outcome key at ms (returned (some r)) t s = settle_prompt_completed key r ms t s
settle_outcome key at ms (raised message) t s = settle_prompt_failed key at message ms t s
settle_outcome key at ms timed_out t s = settle_prompt_failed key at "prompt timed out" ms t s

-- `_settle_prompt` keeps the verdict of a task that is FAILED by now.
unfoldable pub settle_prompt :
    String → Option ℕ → ℕ → Outcome → ScheduledTask → TaskScheduler → TaskScheduler
unfolding settle_outcome
settle_prompt key at ms outcome t s =
    if is_failed t.status then s else settle_outcome key at ms outcome t s

-- `_inflight.discard`
abbrev discard : String → List String → List String
discard key ids = keep (λ i. not (str_eq i key)) ids

-- `_execute_prompt` after its `await`, with its `finally`.
unfoldable pub execute_prompt : String → Option ℕ → ℕ → Outcome → TaskScheduler → TaskScheduler
unfolding settle_prompt with_task
execute_prompt key scheduled_for duration_ms outcome s =
    let s' = with_task key (settle_prompt key scheduled_for duration_ms outcome) s in
    record s' { inflight = discard key s'.inflight }

-- The task as `_fire_task` makes it RUNNING.
abbrev pub started : ℕ → ScheduledTask → ScheduledTask
started now t = record t { status = TaskStatus.running; last_run = some now; error = none }

-- RUNNING, persisted and announced.
unfoldable pub announce : ℕ → String → ScheduledTask → TaskScheduler → TaskScheduler
unfolding trigger_time
announce now key t s =
    emit
      (make_event (started now t) TaskEventType.due
        (("scheduled_for", PayloadValue.moment (trigger_time t)) ∷ []))
      (save key (started now t) s)

-- `_inflight.add`
unfoldable pub enlist : String → TaskScheduler → TaskScheduler
enlist key s = record s { inflight = key ∷ discard key s.inflight }

-- a cron slot is consumed when it fires
unfoldable pub consume_slot : Croniter → ℕ → ScheduledTask → ScheduledTask
unfolding advance
consume_slot c now t = if is_cron t.trigger then advance c now t else t

-- The prompt branch up to `create_task`, after the announcement of `t`.
unfoldable pub launch_prompt :
    Croniter → ℕ → Bool → ℕ → String → ScheduledTask → Option ℕ → TaskScheduler → TaskScheduler
unfolding consume_slot settle_prompt enlist
launch_prompt c now has_runner duration_ms key t scheduled_for s =
    let t' = consume_slot c now t in
    let s' = if is_cron t.trigger then save key t' s else s in
    if has_runner
    then enlist key s'
    else settle_prompt key scheduled_for duration_ms (raised "prompt runner not configured") t' s'

-- `_fire_task` up to its first `await` of a callback. The status of the task is not read.
unfoldable pub fire_begin :
    Croniter → ℕ → ℕ → Bool → ℕ → String → ScheduledTask → TaskScheduler → TaskScheduler
unfolding announce launch_prompt
fire_begin c now later has_runner duration_ms key t s =
    let s' = announce now key t s in
    if str_eq t.mode "prompt"
    then launch_prompt c later has_runner duration_ms key (started now t) (trigger_time t) s'
    else s'

-- the object after a delivery that raised
unfoldable pub failed_task : Croniter → ℕ → String → ScheduledTask → ScheduledTask
unfolding advance
failed_task c now message t =
    let e = record t { error = some message } in
    if is_once t.trigger
    then record e { status = TaskStatus.failed }
    else advance c now (record e { status = TaskStatus.pending })

-- the object after a delivery that returned
unfoldable pub completed_task : Croniter → ℕ → Option String → ScheduledTask → ScheduledTask
unfolding advance
completed_task c now delivered t =
    let r = with_result delivered t in
    if is_cron t.trigger
    then advance c now (record r { status = TaskStatus.pending })
    else record r { status = TaskStatus.completed }

-- the `except` branch of the notify delivery
unfoldable pub notify_failed :
    Croniter → ℕ → String → Option ℕ → ℕ → String → ScheduledTask → TaskScheduler → TaskScheduler
unfolding failed_task
notify_failed c now key at ms message t s =
    let t' = failed_task c now message t in
    emit (make_event t' TaskEventType.failed (failed_payload message at ms)) (save key t' s)

-- the successful end of the notify delivery
unfoldable pub notify_completed :
    Croniter → ℕ → String → ℕ → Option String → ScheduledTask → TaskScheduler → TaskScheduler
unfolding completed_task
notify_completed c now key ms delivered t s =
    let t' = completed_task c now delivered t in
    emit (make_event t' TaskEventType.completed (completed_payload delivered ms)) (save key t' s)

unfoldable pub notify_outcome :
    Croniter → ℕ → String → Option ℕ → ℕ → Outcome → ScheduledTask → TaskScheduler → TaskScheduler
unfolding notify_failed notify_completed
notify_outcome c now key at ms (returned delivered) t s =
    notify_completed c now key ms delivered t s
notify_outcome c now key at ms (raised message) t s = notify_failed c now key at ms message t s
notify_outcome c now key at ms timed_out t s = notify_failed c now key at ms "" t s

-- The notify branch keeps the verdict of a task that is FAILED by now.
unfoldable pub settle_delivery :
    Croniter → ℕ → String → Option ℕ → ℕ → Outcome → ScheduledTask → TaskScheduler → TaskScheduler
unfolding notify_outcome
settle_delivery c now key at ms outcome t s =
    if is_failed t.status then s else notify_outcome c now key at ms outcome t s

-- The notify branch of `_fire_task` after its `await`.
unfoldable pub settle_notify :
    Croniter → ℕ → String → Option ℕ → ℕ → Outcome → TaskScheduler → TaskScheduler
unfolding settle_delivery with_task
settle_notify c now key scheduled_for duration_ms outcome s =
    with_task key (settle_delivery c now key scheduled_for duration_ms outcome) s
