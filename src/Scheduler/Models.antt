-- ===== src/Scheduler/Models.antt =====
-- Tasks and lifecycle events (src/thumbelina/scheduler/models.py). A datetime is a number of
-- microseconds; the generated event id and its `fired_at` are left out of an event.
use thumbelina.Prelude.{ℕ, String, Option, Bool, true, false, Dict}

pub data TaskStatus : Type 0 where
  pending running completed cancelled failed paused missed : TaskStatus

pub data TriggerKind : Type 0 where
  once cron : TriggerKind

pub data DeliveryChannel : Type 0 where
  web wechat qq : DeliveryChannel

pub data TaskEventType : Type 0 where
  created due completed failed missed cancelled : TaskEventType

pub record ScheduledTask : Type 0 where
  pub id : String
  pub description : String
  pub trigger : TriggerKind
  pub cron_expr : Option String
  pub scheduled_time : Option ℕ
  pub next_run : Option ℕ
  pub last_run : Option ℕ
  pub status : TaskStatus
  pub channel : DeliveryChannel
  pub content : String
  pub mode : String
  pub condition : Option String
  pub result : Option String
  pub error : Option String
  pub source : String
  pub conversation_id : Option String
  pub created_at : ℕ
  pub updated_at : ℕ

-- What a payload holds: a text, an optional datetime (through `_iso`), a number.
pub data PayloadValue : Type 0 where
  text : String → PayloadValue
  moment : Option ℕ → PayloadValue
  number : ℕ → PayloadValue

pub record TaskEvent : Type 0 where
  pub type : TaskEventType
  pub task_id : String
  pub trigger : TriggerKind
  pub channel : DeliveryChannel
  pub content : String
  pub payload : Dict PayloadValue

abbrev pub is_pending : TaskStatus → Bool
is_pending TaskStatus.pending = true
is_pending _ = false

abbrev pub is_running : TaskStatus → Bool
is_running TaskStatus.running = true
is_running _ = false

abbrev pub is_paused : TaskStatus → Bool
is_paused TaskStatus.paused = true
is_paused _ = false

abbrev pub is_failed : TaskStatus → Bool
is_failed TaskStatus.failed = true
is_failed _ = false

abbrev pub is_once : TriggerKind → Bool
is_once TriggerKind.once = true
is_once TriggerKind.cron = false

abbrev pub is_cron : TriggerKind → Bool
is_cron TriggerKind.cron = true
is_cron TriggerKind.once = false

-- `task.scheduled_time if task.trigger == TriggerKind.ONCE else task.next_run`
unfoldable pub trigger_time : ScheduledTask → Option ℕ
trigger_time t = elim t.trigger [
  | TriggerKind.once ↦ t.scheduled_time
  | TriggerKind.cron ↦ t.next_run
]
