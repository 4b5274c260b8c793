-- ===== src/Scheduler/Codec.antt =====
-- The mapping of tasks to rows and back (`_to_record` and `_to_model` of
-- src/thumbelina/scheduler/store.py).
use mathlib.Core.Option
use thumbelina.Prelude.{some, String, ◌≡◌, refl, arith, eq_iff}
use thumbelina.Scheduler.Models.{ScheduledTask, TaskStatus, TriggerKind, DeliveryChannel}
use thumbelina.Scheduler.Store.{
  ScheduledTaskRecord, to_record, to_model, status_value, parse_status, trigger_value,
  parse_trigger, channel_value, parse_channel,
}

parse_status-value : (x : TaskStatus) → parse_status (status_value x) ≡ some x
unfolding parse_status status_value
parse_status-value TaskStatus.pending = refl
parse_status-value _ = refl

parse_trigger-value : (x : TriggerKind) → parse_trigger (trigger_value x) ≡ some x
unfolding parse_trigger trigger_value
parse_trigger-value TriggerKind.once = refl
parse_trigger-value TriggerKind.cron = refl

parse_channel-value : (x : DeliveryChannel) → parse_channel (channel_value x) ≡ some x
unfolding parse_channel channel_value
parse_channel-value DeliveryChannel.web = refl
parse_channel-value _ = refl

status_value-parse : (v : String) (x : TaskStatus) → parse_status v ≡ some x → status_value x ≡ v
unfolding parse_status status_value
status_value-parse v x h = ground (
  arith,
  eq_iff v "pending",
  eq_iff v "running",
  eq_iff v "completed",
  eq_iff v "cancelled",
  eq_iff v "failed",
  eq_iff v "paused",
  eq_iff v "missed",
)

trigger_value-parse :
    (v : String) (x : TriggerKind) → parse_trigger v ≡ some x → trigger_value x ≡ v
unfolding parse_trigger trigger_value
trigger_value-parse v x h = ground (arith, eq_iff v "once", eq_iff v "cron")

channel_value-parse :
    (v : String) (x : DeliveryChannel) → parse_channel v ≡ some x → channel_value x ≡ v
unfolding parse_channel channel_value
channel_value-parse v x h = ground (arith, eq_iff v "web", eq_iff v "wechat", eq_iff v "qq")

-- Reading back the row of a task gives the task, with every field as it was.
pub to_model-to_record : (t : ScheduledTask) → to_model (to_record t) ≡ some t
unfolding to_model to_record Option.bind
to_model-to_record t =
    rw (parse_trigger-value t.trigger, parse_status-value t.status, parse_channel-value t.channel)

-- A row that reads as a task is the row of that task.
pub to_record-to_model :
    (r : ScheduledTaskRecord) (t : ScheduledTask) → to_model r ≡ some t → to_record t ≡ r
unfolding to_model to_record Option.bind
to_record-to_model r t h = ground (
  arith,
  trigger_value-parse r.trigger_kind t.trigger,
  status_value-parse r.status t.status,
  channel_value-parse r.channel t.channel,
)
