-- ===== src/Permissions/Modes.antt =====
-- Modes, decisions and the ceiling of unattended runs (src/thumbelina/tools/permissions.py).
use thumbelina.Prelude.{
  ◌⊎◌, ℕ, ◌≤◌, String, Bool, true, false, not, ◌||◌, Option, none, some, ◌≡◌, refl, arith, str_eq,
  leb, if◌then◌else◌,
}

pub data PermissionMode : Type 0 where
  read_only workspace_write global_write full_access auto : PermissionMode

-- `LADDER.index`
abbrev pub ladder_index : PermissionMode → ℕ
ladder_index PermissionMode.read_only = 0
ladder_index PermissionMode.workspace_write = 1
ladder_index PermissionMode.global_write = 2
ladder_index PermissionMode.full_access = 3
ladder_index PermissionMode.auto = 4

abbrev pub is_auto : PermissionMode → Bool
is_auto PermissionMode.auto = true
is_auto _ = false

abbrev pub is_workspace_write : PermissionMode → Bool
is_workspace_write PermissionMode.workspace_write = true
is_workspace_write _ = false

unfoldable pub mode_value : PermissionMode → String
mode_value PermissionMode.read_only = "read_only"
mode_value PermissionMode.workspace_write = "workspace_write"
mode_value PermissionMode.global_write = "global_write"
mode_value PermissionMode.full_access = "full_access"
mode_value PermissionMode.auto = "auto"

-- An absent or empty value and a value that is no mode read as `None`.
unfoldable pub parse_mode : Option String → Option PermissionMode
parse_mode none = none
parse_mode (some v) =
    if str_eq v "read_only"
    then some PermissionMode.read_only
    else if str_eq v "workspace_write"
    then some PermissionMode.workspace_write
    else if str_eq v "global_write"
    then some PermissionMode.global_write
    else if str_eq v "full_access"
    then some PermissionMode.full_access
    else if str_eq v "auto"
    then some PermissionMode.auto
    else none

pub data Verdict : Type 0 where
  allow confirm deny : Verdict

pub data Risk : Type 0 where
  normal dangerous : Risk

pub record PermissionDecision : Type 0 where
  pub verdict : Verdict
  pub risk : Risk
  pub reason : String
  pub auto_allowed : Bool

abbrev pub allow_outright : PermissionDecision
allow_outright = record {
  verdict = Verdict.allow;
  risk = Risk.normal;
  reason = "";
  auto_allowed = false;
}

-- `deny(reason, dangerous=…)`
abbrev pub deny_with : String → Bool → PermissionDecision
deny_with reason is_dangerous = record {
  verdict = Verdict.deny;
  risk = if is_dangerous then Risk.dangerous else Risk.normal;
  reason = reason;
  auto_allowed = false;
}

-- `confirm(reason)`
abbrev pub confirm_with : String → PermissionDecision
confirm_with reason = record {
  verdict = Verdict.confirm;
  risk = Risk.dangerous;
  reason = reason;
  auto_allowed = false;
}

-- `PermissionDecision("allow", "dangerous", reason, True)`
abbrev pub auto_allow : String → PermissionDecision
auto_allow reason = record {
  verdict = Verdict.allow;
  risk = Risk.dangerous;
  reason = reason;
  auto_allowed = true;
}

-- `min((mode, ceiling), key=LADDER.index)`, which takes the first of two equal ones
abbrev pub lower : PermissionMode → PermissionMode → PermissionMode
lower m n = if leb (ladder_index m) (ladder_index n) then m else n

unfoldable pub effective_mode : PermissionMode → Bool → Bool → PermissionMode
effective_mode mode unattended has_workspace =
    if not unattended || is_auto mode
    then mode
    else lower mode
        (if has_workspace then PermissionMode.workspace_write else PermissionMode.read_only)

-- The printed value of each mode reads back as the mode.
pub parse_mode-value : (m : PermissionMode) → parse_mode (some (mode_value m)) ≡ some m
unfolding parse_mode mode_value
parse_mode-value PermissionMode.read_only = refl
parse_mode-value _ = refl

-- For a mode m and one not below it, n: the effective mode of m is not above m, nor above the
-- effective mode of n; it is m itself, or the run is unattended and m is not AUTO; and it is at most
-- workspace_write, or read_only where there is no workspace, or else the run is attended or in AUTO.
pub effective_mode_bounds :
    (m n : PermissionMode) (unattended has_workspace : Bool)
    → ladder_index m ≤ ladder_index n
    → (ladder_index (effective_mode m unattended has_workspace) ≤ ladder_index m)
      × (ladder_index (effective_mode m unattended has_workspace)
          ≤ ladder_index (effective_mode n unattended has_workspace))
      × ((effective_mode m unattended has_workspace ≡ m)
          ⊎ ((unattended ≡ true) × (is_auto m ≡ false)))
      × ((ladder_index (effective_mode m unattended has_workspace)
            ≤ (if has_workspace then 1 else 0))
          ⊎ ((not unattended || is_auto m) ≡ true))
unfolding effective_mode
effective_mode_bounds m n u w h = (ground arith, ground arith, ground arith, ground arith)
