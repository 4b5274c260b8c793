-- ===== src/Compression/Window.antt =====
-- The sliding window (`SlidingWindowCompressor.compress` of
-- src/thumbelina/agent/compression/sliding_window.py). `unicodedata.east_asian_width` is the
-- parameter `wide`, and the low watermark is one half.
use thumbelina.Prelude.{
  ℕ, suc, ◌+◌, ◌-◌, ◌/◌, Bool, List, [], ◌∷◌, ◌++◌, length, take, drop, ltb, ◌==◌, if◌then◌else◌,
}
use thumbelina.Compression.Messages.{Message, estimate_messages_tokens}
use thumbelina.Compression.Units.{group_atomic_units, flatten_units, leading_system_unit_count}

-- `max(1, int(window_tokens * LOW_WATERMARK))`
abbrev pub low_target : ℕ → ℕ
low_target window = if ltb (window / 2) 1 then 1 else window / 2

-- The loop from the head on, over the units from `cursor`: how many units it drops, and how many
-- messages they hold. The last unit is never dropped.
unfoldable pub drop_oldest : (ℕ → Bool) → ℕ → ℕ → List (List Message) → ℕ × ℕ
drop_oldest wide target total [] = (0, 0)
drop_oldest wide target total (u ∷ []) = (0, 0)
drop_oldest wide target total (u ∷ v ∷ us) =
    let rest = drop_oldest wide target (total - estimate_messages_tokens wide u) (v ∷ us) in
    if ltb target total then (suc (rest.0), length u + rest.1) else (0, 0)

-- the loop as `compress` starts it
unfoldable pub dropped_of : (ℕ → Bool) → List Message → ℕ → ℕ × ℕ
unfolding group_atomic_units leading_system_unit_count
dropped_of wide messages window =
    let units = group_atomic_units messages in
    drop_oldest wide (low_target window) (estimate_messages_tokens wide messages)
      (drop (leading_system_unit_count units) units)

-- `units[:head]` and `units[cursor:]`
abbrev pub head_units : List Message → List (List Message)
head_units messages =
    let units = group_atomic_units messages in take (leading_system_unit_count units) units

abbrev pub tail_units : List Message → List (List Message)
tail_units messages =
    let units = group_atomic_units messages in drop (leading_system_unit_count units) units

unfoldable pub compress : (ℕ → Bool) → List Message → ℕ → List Message
compress wide messages window =
    let dropped = dropped_of wide messages window in
    let kept = flatten_units (head_units messages ++ drop (dropped.0) (tail_units messages)) in
    if dropped.1 == 0 then messages else kept
