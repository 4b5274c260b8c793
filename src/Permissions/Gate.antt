-- ===== src/Permissions/Gate.antt =====
-- The gate on tool calls (`evaluate_tool_call`, `is_tool_available` of
-- src/thumbelina/tools/permissions.py).
use thumbelina.Prelude.{
  String, Bool, true, false, not, ◌||◌, ◌&&◌, Option, none, some, List, [], ◌∷◌, str_eq, contains,
  if◌then◌else◌,
}
use thumbelina.Permissions.Modes.{
  PermissionMode, PermissionDecision, allow_outright, deny_with, confirm_with, auto_allow, is_auto,
  is_workspace_write,
}
use thumbelina.Permissions.Shell.{Regex, classify_shell_command}
use thumbelina.Permissions.Paths.{PathContext, evaluate_write_file}

abbrev pub read_only_tools : List String
read_only_tools =
    "read_file" ∷ "list_directory" ∷ "search_files" ∷ "search_text" ∷ "parse_json" ∷ "parse_csv"
    ∷ "analyze_text" ∷ "fetch_url" ∷ "web_search" ∷ "search_memory" ∷ "read_memory"
    ∷ "list_subagents" ∷ "list_scheduled_tasks" ∷ "list_skill_compositions"
    ∷ "notify_user_by_channel" ∷ []

abbrev pub known_tools : List String
known_tools =
    "read_file" ∷ "list_directory" ∷ "search_files" ∷ "search_text" ∷ "parse_json" ∷ "parse_csv"
    ∷ "analyze_text" ∷ "fetch_url" ∷ "web_search" ∷ "run_shell" ∷ "write_file" ∷ "remember"
    ∷ "list_skill_compositions" ∷ "create_skill_composition" ∷ "execute_skill_composition"
    ∷ "notify_user_by_channel" ∷ "create_subagent" ∷ "list_subagents" ∷ "schedule_task"
    ∷ "list_scheduled_tasks" ∷ "search_memory" ∷ "read_memory" ∷ []

-- `name in READ_ONLY_TOOLS`, `name in KNOWN_TOOLS`
unfoldable pub in_read_only_tools : String → Bool
in_read_only_tools name = contains read_only_tools name

unfoldable pub in_known_tools : String → Bool
in_known_tools name = contains known_tools name

-- The arguments that the gate reads, each through `str`.
pub record ToolArgs : Type 0 where
  pub command : Option String
  pub path : Option String
  pub mode : Option String

abbrev pub text_or : String → Option String → String
text_or d none = d
text_or d (some s) = s

-- `str(args.get("mode") or "prompt")`
abbrev pub schedule_mode : ToolArgs → String
schedule_mode a = if str_eq (text_or "" a.mode) "" then "prompt" else text_or "" a.mode

abbrev pub is_read_only : PermissionMode → Bool
is_read_only PermissionMode.read_only = true
is_read_only _ = false

-- GLOBAL_WRITE, FULL_ACCESS and AUTO
abbrev pub is_high : PermissionMode → Bool
is_high PermissionMode.read_only = false
is_high PermissionMode.workspace_write = false
is_high _ = true

unfoldable pub evaluate_schedule : PermissionMode → ToolArgs → PermissionDecision
evaluate_schedule mode args =
    if str_eq (schedule_mode args) "prompt"
    then (if is_auto mode
        then auto_allow "rule.unattended_task"
        else confirm_with "rule.unattended_task")
    else allow_outright

-- the delegation by name, behind the guards
unfoldable pub evaluate_known :
    Regex → PathContext → PermissionMode → String → ToolArgs → PermissionDecision
unfolding evaluate_schedule
evaluate_known r x mode name args =
    if str_eq name "run_shell"
    then classify_shell_command r (text_or "" args.command) (is_auto mode)
    else if str_eq name "write_file"
    then evaluate_write_file x mode (text_or "" args.path)
    else if str_eq name "schedule_task"
    then evaluate_schedule mode args
    else allow_outright

unfoldable pub evaluate_tool_call :
    Regex → PathContext → PermissionMode → String → ToolArgs → Bool → PermissionDecision
evaluate_tool_call r x mode name args has_workspace =
    if is_read_only mode
    then (if in_read_only_tools name then allow_outright else deny_with "rule.read_only" false)
    else if not (in_known_tools name)
    then (if is_high mode
        then confirm_with "rule.unknown_tool"
        else deny_with "rule.unknown_tool" false)
    else if is_workspace_write mode
        && not has_workspace
        && (str_eq name "run_shell" || str_eq name "write_file")
    then deny_with "rule.no_workspace" false
    else evaluate_known r x mode name args

unfoldable pub is_tool_available : PermissionMode → String → Bool
is_tool_available mode name = if is_read_only mode then in_read_only_tools name else true
