-- ===== src/Scheduler/Cron.antt =====
-- Cron expressions (src/thumbelina/scheduler/cron.py and `_count_skipped_occurrences` of
-- scheduler.py). The package croniter is the parameter `Croniter`.
use Prim.Native.Char.{code}
use Prim.Native.String.{[] as end, ◌∷◌ as char}
use mathlib.Core.Bool.{◌&&◌, ◌||◌}
use thumbelina.Prelude.{
  ℕ, zero, suc, ◌+◌, ◌<◌, String, Bool, false, not, Option, none, some, ◌≡◌, ltb, leb, ◌==◌,
  if◌then◌else◌,
}

-- What the scheduler uses of croniter: whether it is installed, whether the constructor takes an
-- expression, and `get_next`, where `none` is a `ValueError`.
pub record Croniter : Type 0 where
  pub available : Bool
  pub accepts : String → Bool
  pub get_next : String → ℕ → Option ℕ

-- croniter documents that `get_next` is strictly after its start.
abbrev pub IsForward : Croniter → Type 0
IsForward c = (e : String) (t u : ℕ) → c.get_next e t ≡ some u → t < u

-- The error texts of `validate_cron`, each of which also quotes the expression.
pub data CronError : Type 0 where
  not_installed : CronError
  bad_field_count : ℕ → CronError
  refused : CronError

-- `str.isspace` on one code point.
abbrev pub is_space : ℕ → Bool
is_space c =
    (leb 9 c && leb c 13)
    || (leb 28 c && leb c 32)
    || c == 133
    || c == 160
    || c == 5760
    || (leb 8192 c && leb c 8202)
    || c == 8232
    || c == 8233
    || c == 8239
    || c == 8287
    || c == 12288

-- `len(expr.split())`, where `inside` says that the last character was part of a field.
unfoldable pub field_count : Bool → String → ℕ
field_count inside end = 0
field_count inside (char c cs) =
    let space = is_space (code c) in
    let rest = field_count (not space) cs in if not space && not inside then suc rest else rest

-- `expr.strip().startswith("@")`
unfoldable pub starts_at : String → Bool
starts_at end = false
starts_at (char c cs) = let rest = starts_at cs in if is_space (code c) then rest else code c == 64

unfoldable pub validate_cron : Croniter → String → Option CronError
unfolding field_count starts_at
validate_cron c expr =
    if not c.available
    then some not_installed
    else if not (starts_at expr) && not (field_count false expr == 5)
    then some (bad_field_count (field_count false expr))
    else if c.accepts expr
    then none
    else some refused

-- `CronTrigger(expr).next_after(dt)`, where `none` is a `ValueError` of either call.
unfoldable pub next_after : Croniter → String → ℕ → Option ℕ
next_after c expr dt = elim (validate_cron c expr) [ some e ↦ none | none ↦ c.get_next expr dt ]

abbrev pub max_skipped_occurrences : ℕ
max_skipped_occurrences = 10000

-- The loop, over the rounds that the cap leaves. The trigger is constructed once, and `next` is its
-- `next_after`.
unfoldable pub skipped_from : (ℕ → Option ℕ) → ℕ → ℕ → ℕ → ℕ → ℕ
skipped_from next now zero count cursor = count
skipped_from next now (suc left) count cursor = elim (next cursor) [
  | none ↦ count
  | some nxt ↦
      let rest = skipped_from next now left (count + 1) nxt in if ltb now nxt then count else rest
]

unfoldable pub count_skipped_occurrences : Croniter → String → ℕ → ℕ → ℕ
count_skipped_occurrences c expr after now =
    skipped_from (next_after c expr) now max_skipped_occurrences 0 after
