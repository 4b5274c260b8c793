-- ===== src/Events/Examples.antt =====
-- Two hooks of which one is taken off again (src/thumbelina/scheduler/events.py).
use thumbelina.Prelude.{ℕ, ◌≤◌, Bool, true, false, List, [], ◌∷◌, length, ◌==◌, ◌≡◌, if◌then◌else◌}
use thumbelina.Scheduler.Models.{TaskEventType, TaskEvent, TriggerKind, DeliveryChannel}
use thumbelina.Events.{EventBus, unsubscribe, emit}
use thumbelina.Events.Subscribed.{
  Operation, subscribes, unsubscribes, after, subscribed, times_in, once_if, emit-subscribed,
}

-- hook 1 takes hook 2 off while the event is emitted, and hook 2 raises
abbrev meddling : ℕ → TaskEvent → EventBus → Bool × EventBus
meddling h event bus = if h == 1 then (true, unsubscribe event.type 2 bus) else (false, bus)

abbrev done_event : TaskEvent
done_event = record {
  type = TaskEventType.completed;
  task_id = "t-1";
  trigger = TriggerKind.once;
  channel = DeliveryChannel.web;
  content = "";
  payload = [];
}

abbrev operations : List Operation
operations =
    unsubscribes TaskEventType.completed 3
    ∷ subscribes TaskEventType.completed 2
    ∷ subscribes TaskEventType.completed 3
    ∷ subscribes TaskEventType.completed 1
    ∷ []

emit-subscribed_example :
    let e = emit meddling done_event (after operations) in
    (times_in 2 e.awaited ≡ once_if (subscribed operations TaskEventType.completed 2))
    × (e.dispatched ≤ length e.awaited)
emit-subscribed_example = emit-subscribed meddling operations done_event 2
