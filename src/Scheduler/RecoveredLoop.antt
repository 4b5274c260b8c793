-- ===== src/Scheduler/RecoveredLoop.antt =====
-- The whole of startup recovery under the policy `mark`
-- (src/thumbelina/scheduler/scheduler.py, `recover`).
use thumbelina.Prelude.{ℕ, String, false, some, ◌≡◌, lookup, str_eq, Dict}
use thumbelina.Scheduler.Models.{ScheduledTask}
use thumbelina.Scheduler.Cron.{Croniter, IsForward}
use thumbelina.Scheduler.State.{TaskScheduler}
use thumbelina.Scheduler.Recovered.{IsRecovered}
use thumbelina.Scheduler.Store

-- one step of the second loop
record Progress (c : Croniter) (now : ℕ) (key : String) (s s' : TaskScheduler) : Type 0 where
  policy : s'.missed_policy ≡ s.missed_policy
  grace : s'.missed_grace ≡ s.missed_grace
  others : (j : String) → str_eq key j ≡ false → lookup j s'.tasks ≡ lookup j s.tasks
  this : (t : ScheduledTask) → lookup key s'.tasks ≡ some t → IsRecovered c now s.missed_grace t

abbrev AllRecovered : Croniter → ℕ → ℕ → String → Dict ScheduledTask → Type 0
AllRecovered c now grace j tasks =
    (t : ScheduledTask) → lookup j tasks ≡ some t → IsRecovered c now grace t

module _ (c : Croniter) (now : ℕ) (f : IsForward c) where
  -- hydration changes no setting
  Unset : TaskScheduler → TaskScheduler → Type 0
  Unset s s' = (s'.missed_policy ≡ s.missed_policy) × (s'.missed_grace ≡ s.missed_grace)
