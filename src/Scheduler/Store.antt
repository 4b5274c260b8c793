-- ===== src/Scheduler/Store.antt =====
-- The task table (src/thumbelina/scheduler/store.py). SQLAlchemy's session is the table of rows by
-- primary key; the enumerations are columns of text. A call of the store raises when `up` says so.
use mathlib.Core.Option
use thumbelina.Prelude.{
  ℕ, ◌+◌, String, Bool, Option, none, some, List, [], ◌∷◌, Dict, lookup, insert, pop, str_eq,
  if◌then◌else◌,
}
use thumbelina.Scheduler.Models.{ScheduledTask, TaskStatus, TriggerKind, DeliveryChannel}

unfoldable pub status_value : TaskStatus → String
status_value TaskStatus.pending = "pending"
status_value TaskStatus.running = "running"
status_value TaskStatus.completed = "completed"
status_value TaskStatus.cancelled = "cancelled"
status_value TaskStatus.failed = "failed"
status_value TaskStatus.paused = "paused"
status_value TaskStatus.missed = "missed"

-- `TaskStatus(value)`; `none` is the `ValueError`
unfoldable pub parse_status : String → Option TaskStatus
parse_status v =
    if str_eq v "pending"
    then some TaskStatus.pending
    else if str_eq v "running"
    then some TaskStatus.running
    else if str_eq v "completed"
    then some TaskStatus.completed
    else if str_eq v "cancelled"
    then some TaskStatus.cancelled
    else if str_eq v "failed"
    then some TaskStatus.failed
    else if str_eq v "paused"
    then some TaskStatus.paused
    else if str_eq v "missed"
    then some TaskStatus.missed
    else none

unfoldable pub trigger_value : TriggerKind → String
trigger_value TriggerKind.once = "once"
trigger_value TriggerKind.cron = "cron"

unfoldable pub parse_trigger : String → Option TriggerKind
parse_trigger v =
    if str_eq v "once"
    then some TriggerKind.once
    else if str_eq v "cron"
    then some TriggerKind.cron
    else none

unfoldable pub channel_value : DeliveryChannel → String
channel_value DeliveryChannel.web = "web"
channel_value DeliveryChannel.wechat = "wechat"
channel_value DeliveryChannel.qq = "qq"

unfoldable pub parse_channel : String → Option DeliveryChannel
parse_channel v =
    if str_eq v "web"
    then some DeliveryChannel.web
    else if str_eq v "wechat"
    then some DeliveryChannel.wechat
    else if str_eq v "qq"
    then some DeliveryChannel.qq
    else none

pub record ScheduledTaskRecord : Type 0 where
  pub id : String
  pub description : String
  pub trigger_kind : String
  pub cron_expr : Option String
  pub scheduled_at : Option ℕ
  pub next_run_at : Option ℕ
  pub last_run_at : Option ℕ
  pub status : String
  pub channel : String
  pub content : String
  pub mode : String
  pub condition : Option String
  pub result : Option String
  pub error : Option String
  pub source : String
  pub conversation_id : Option String
  pub created_at : ℕ
  pub updated_at : ℕ

unfoldable pub to_record : ScheduledTask → ScheduledTaskRecord
to_record t = record {
  id = t.id;
  description = t.description;
  trigger_kind = trigger_value t.trigger;
  cron_expr = t.cron_expr;
  scheduled_at = t.scheduled_time;
  next_run_at = t.next_run;
  last_run_at = t.last_run;
  status = status_value t.status;
  channel = channel_value t.channel;
  content = t.content;
  mode = t.mode;
  condition = t.condition;
  result = t.result;
  error = t.error;
  source = t.source;
  conversation_id = t.conversation_id;
  created_at = t.created_at;
  updated_at = t.updated_at;
}

unfoldable pub to_model : ScheduledTaskRecord → Option ScheduledTask
to_model r = Option.bind (parse_trigger r.trigger_kind) λ trigger.
    Option.bind (parse_status r.status) λ status. Option.bind (parse_channel r.channel) λ channel.
      some (record {
        id = r.id;
        description = r.description;
        trigger = trigger;
        cron_expr = r.cron_expr;
        scheduled_time = r.scheduled_at;
        next_run = r.next_run_at;
        last_run = r.last_run_at;
        status = status;
        channel = channel;
        content = r.content;
        mode = r.mode;
        condition = r.condition;
        result = r.result;
        error = r.error;
        source = r.source;
        conversation_id = r.conversation_id;
        created_at = r.created_at;
        updated_at = r.updated_at;
      })

-- `calls` counts the calls, and `up n` says whether call n reaches the database.
pub record TaskStore : Type 0 where
  pub rows : Dict ScheduledTaskRecord
  pub calls : ℕ
  pub up : ℕ → Bool

abbrev count_call : TaskStore → TaskStore
count_call st = record st { calls = st.calls + 1 }

-- `session.merge` and `commit`; a call that raises writes nothing
unfoldable pub upsert_task : ScheduledTask → TaskStore → TaskStore
upsert_task t st =
    if st.up st.calls
    then record st { rows = insert t.id (to_record t) st.rows; calls = st.calls + 1 }
    else count_call st

-- The outer `none` is an exception: a call that fails, or a row that no enumeration reads.
unfoldable pub get_task : String → TaskStore → Option (Option ScheduledTask) × TaskStore
get_task id st = (
  if st.up st.calls
      then elim (lookup id st.rows) [ none ↦ some none | some r ↦ Option.map some (to_model r) ]
      else none,
  count_call st,
)

unfoldable pub to_models : List (String × ScheduledTaskRecord) → Option (List ScheduledTask)
to_models [] = some []
to_models ((k, r) ∷ rows) =
    Option.bind (to_model r) λ t. Option.bind (to_models rows) λ ts. some (t ∷ ts)

unfoldable pub list_tasks : TaskStore → Option (List ScheduledTask) × TaskStore
unfolding to_models
list_tasks st = (if st.up st.calls then to_models st.rows else none, count_call st)

-- `none` is a call that raises
unfoldable pub delete_task : String → TaskStore → Option TaskStore
delete_task id st =
    if st.up st.calls
    then some (record st { rows = pop id st.rows; calls = st.calls + 1 })
    else none
