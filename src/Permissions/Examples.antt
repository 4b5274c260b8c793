-- ===== src/Permissions/Examples.antt =====
-- Decisions on concrete calls (src/thumbelina/tools/permissions.py), with two patterns.
use thumbelina.Prelude.{
  ◌||◌, ◌⊎◌, String, true, false, none, some, [], ◌∷◌, ◌≡◌, ◌≢◌, ◌≤◌, ◌↔◌, refl, inl, inr, arith,
  str_eq,
}
use thumbelina.Permissions.Modes.{PermissionMode, PermissionDecision, Verdict, Risk, is_auto}
use thumbelina.Permissions.Shell.{Regex, first_match, dangerous_patterns}
use thumbelina.Permissions.Paths.{
  PathContext, PathKind, Resolved, classify_write_path, evaluate_write_file, codes,
}
use thumbelina.Permissions.Gate.{
  ToolArgs, evaluate_tool_call, is_tool_available, in_read_only_tools, in_known_tools,
}
use thumbelina.Permissions.Ladder.{rank_of, verdict_monotone}
use thumbelina.Permissions.Floor.{dangerous_floor, auto_waives_confirm, read_only_offer}
use thumbelina.Permissions.Guarded.{protected_directory}
use thumbelina.Permissions.Spelled.{Spells}

-- a pattern that is found in exactly one command
abbrev exact_patterns : Regex
exact_patterns = record {
  Pattern = String;
  search = str_eq;
  normalize = λ s. s;
  posix_dangerous = ("danger.rm_root", "rm -rf /") ∷ [];
  windows_dangerous = [];
  posix_confirm = ("confirm.rm", "rm notes") ∷ [];
  windows_confirm = [];
  write_redirect = "> out";
  write_cmd = "tee out";
  absolute_target = "> /out";
}

abbrev somewhere : PathContext
somewhere = record {
  lower_wide = λ c. c ∷ [];
  workspace = some "/work";
  app_anchors = [];
  resolve = λ p. Resolved.outside;
}

abbrev removing_root : ToolArgs
removing_root = record { command = some "rm -rf /"; path = none; mode = none }

abbrev removing_notes : ToolArgs
removing_notes = record { command = some "rm notes"; path = none; mode = none }

abbrev asked : PermissionMode → String → PermissionDecision
asked m name = evaluate_tool_call exact_patterns somewhere m name removing_notes true

root_matches : first_match exact_patterns (dangerous_patterns exact_patterns) "rm -rf /" ≢ none
unfolding first_match
root_matches h = ground (arith, h)

dangerous_floor_example :
    (evaluate_tool_call exact_patterns somewhere PermissionMode.auto "run_shell" removing_root
      true).verdict
    ≡ Verdict.deny
dangerous_floor_example =
    dangerous_floor exact_patterns somewhere removing_root true PermissionMode.auto root_matches

verdict_monotone_example :
    rank_of (
      evaluate_tool_call exact_patterns somewhere PermissionMode.global_write "run_shell"
        removing_notes true)
    ≤ rank_of (
        evaluate_tool_call exact_patterns somewhere PermissionMode.auto "run_shell" removing_notes
          true)
verdict_monotone_example =
    verdict_monotone exact_patterns somewhere "run_shell" removing_notes true
      PermissionMode.global_write PermissionMode.auto (omega arith)

auto_waives_confirm_example :
    (((asked PermissionMode.auto "run_shell").auto_allowed ≡ true) ↔ (
      (in_known_tools "run_shell" ≡ true)
      × ((asked PermissionMode.full_access "run_shell").verdict ≡ Verdict.confirm)))
    × (((asked PermissionMode.auto "run_shell").auto_allowed ≡ false)
        ⊎ ((is_auto PermissionMode.auto ≡ true)
            × ((asked PermissionMode.auto "run_shell").risk ≡ Risk.dangerous)))
auto_waives_confirm_example =
    auto_waives_confirm exact_patterns somewhere removing_notes true PermissionMode.auto "run_shell"

read_only_offer_example :
    (((asked PermissionMode.read_only "read_file").verdict ≡ Verdict.allow)
      ↔ (is_tool_available PermissionMode.read_only "read_file" ≡ true))
    × ((asked PermissionMode.read_only "read_file").verdict ≢ Verdict.confirm)
    × (((asked PermissionMode.global_write "read_file").verdict ≢ Verdict.allow)
        ⊎ ((in_read_only_tools "read_file" || in_known_tools "read_file") ≡ true))
read_only_offer_example =
    read_only_offer exact_patterns somewhere removing_notes true PermissionMode.global_write
      "read_file"

plugins_spelled : Spells (codes "PLUGINS") (codes "plugins")
unfolding Spells
plugins_spelled = (
  inr (inl (omega arith, omega arith, refl)),
  (
    inr (inl (omega arith, omega arith, refl)),
    (
      inr (inl (omega arith, omega arith, refl)),
      (
        inr (inl (omega arith, omega arith, refl)),
        (
          inr (inl (omega arith, omega arith, refl)),
          (
            inr (inl (omega arith, omega arith, refl)),
            (inr (inl (omega arith, omega arith, refl)), tt),
          ),
        ),
      ),
    ),
  ),
)

protected_directory_example :
    (classify_write_path somewhere "/work/PLUGINS\\new.py" ≡ PathKind.protected)
    × ((evaluate_write_file somewhere PermissionMode.workspace_write
          "/work/PLUGINS\\new.py").verdict
        ≡ Verdict.deny)
    × ((evaluate_write_file somewhere PermissionMode.global_write "/work/PLUGINS\\new.py").verdict
        ≡ Verdict.confirm)
protected_directory_example =
    protected_directory somewhere "/work" "/work/PLUGINS\\new.py" "plugins/" 47 92 (codes "plugins")
      (codes "PLUGINS") (codes "new.py") refl refl refl refl (inl refl) (inr refl) plugins_spelled
