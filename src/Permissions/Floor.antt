-- ===== src/Permissions/Floor.antt =====
-- The floor and the ceiling of the gate: what no mode allows, what AUTO waives, and what READ_ONLY
-- offers (src/thumbelina/tools/permissions.py).
use thumbelina.Prelude.{
  ◌⊎◌, inl, inr, ◌||◌, false, Bool-cases, String, Bool, true, false, none, ◌≡◌, ◌↔◌, ◌≢◌, refl,
  arith,
}
use thumbelina.Permissions.Modes.{PermissionMode, Verdict, Risk, is_auto}
use thumbelina.Permissions.Shell.{Regex, classify_shell_command, first_match, dangerous_patterns}
use thumbelina.Permissions.Paths.{
  PathContext, PathKind, evaluate_write_file, classify_write_path, decide_write,
}
use thumbelina.Permissions.Gate.{
  ToolArgs, evaluate_tool_call, evaluate_known, evaluate_schedule, is_tool_available,
  in_read_only_tools, in_known_tools, text_or,
}

module _ (r : Regex) (cmd : String) where
  dangerous_denied :
      (auto : Bool)
      → first_match r (dangerous_patterns r) (r.normalize cmd) ≢ none
      → (classify_shell_command r cmd auto).verdict ≡ Verdict.deny
  unfolding classify_shell_command
  dangerous_denied auto h = ground arith

  auto_waives-shell :
      ((classify_shell_command r cmd true).auto_allowed ≡ true)
      ↔ ((classify_shell_command r cmd false).verdict ≡ Verdict.confirm)
  unfolding classify_shell_command
  auto_waives-shell = (λ h. ground arith, λ h. ground arith)

  shell_marks :
      ((classify_shell_command r cmd true).auto_allowed ≡ true
        → (classify_shell_command r cmd true).risk ≡ Risk.dangerous)
      × ((classify_shell_command r cmd false).auto_allowed ≡ false)
  unfolding classify_shell_command
  shell_marks = (λ h. ground arith, ground arith)

write_marks : (k : PathKind) (m : PermissionMode) → (decide_write m k).auto_allowed ≡ false
write_marks k m = ground arith

run_shell_special : in_read_only_tools "run_shell" ≡ false
unfolding in_read_only_tools
run_shell_special = refl

module _ (r : Regex) (x : PathContext) (a : ToolArgs) (w : Bool) where
  -- A `run_shell` call whose normalised command has a dangerous pattern is denied in every mode,
  -- AUTO and FULL_ACCESS included, with a workspace and without.
  pub dangerous_floor :
      (m : PermissionMode)
      → first_match r (dangerous_patterns r) (r.normalize (text_or "" a.command)) ≢ none
      → (evaluate_tool_call r x m "run_shell" a w).verdict ≡ Verdict.deny
  unfolding evaluate_tool_call evaluate_known in_read_only_tools in_known_tools
  dangerous_floor m h = ground (arith, dangerous_denied r (text_or "" a.command) (is_auto m) h)

  -- A decision in AUTO carries `auto_allowed` exactly when the tool is known and FULL_ACCESS would
  -- ask for a confirmation; a decision with the mark is marked dangerous, and no mode other than AUTO
  -- sets it.
  pub auto_waives_confirm :
      (m : PermissionMode) (name : String)
      → (((evaluate_tool_call r x PermissionMode.auto name a w).auto_allowed ≡ true) ↔ (
          (in_known_tools name ≡ true)
          × ((evaluate_tool_call r x PermissionMode.full_access name a w).verdict
              ≡ Verdict.confirm)))
        × (((evaluate_tool_call r x m name a w).auto_allowed ≡ false)
            ⊎ ((is_auto m ≡ true) × ((evaluate_tool_call r x m name a w).risk ≡ Risk.dangerous)))
  unfolding evaluate_tool_call evaluate_known evaluate_schedule evaluate_write_file
  auto_waives_confirm m name =
      let shell = auto_waives-shell r (text_or "" a.command) in
      let marks = shell_marks r (text_or "" a.command) in
      (
        (λ h. (ground arith, ground (arith, shell)), λ h. ground (arith, shell)),
        ground (arith, marks, write_marks (classify_write_path x (text_or "" a.path)) m),
      )

  -- In READ_ONLY a call is allowed or denied, never put to the user, and is allowed exactly when
  -- the tool is offered to the model in that mode. In every mode, a tool that is allowed is in one of
  -- the two rosters.
  pub read_only_offer :
      (m : PermissionMode) (name : String)
      → (((evaluate_tool_call r x PermissionMode.read_only name a w).verdict ≡ Verdict.allow)
          ↔ (is_tool_available PermissionMode.read_only name ≡ true))
        × ((evaluate_tool_call r x PermissionMode.read_only name a w).verdict ≢ Verdict.confirm)
        × (((evaluate_tool_call r x m name a w).verdict ≢ Verdict.allow)
            ⊎ ((in_read_only_tools name || in_known_tools name) ≡ true))
  unfolding evaluate_tool_call is_tool_available
  read_only_offer m name = ((λ h. ground arith, λ h. ground arith), λ h. ground arith, allowed)
    where
      allowed :
          ((evaluate_tool_call r x m name a w).verdict ≢ Verdict.allow)
          ⊎ ((in_read_only_tools name || in_known_tools name) ≡ true)
      allowed = elim (Bool-cases (in_read_only_tools name || in_known_tools name)) [
        | inl e ↦ inr e
        | inr e ↦ inl (λ h. ground (arith, e, h))
      ]
