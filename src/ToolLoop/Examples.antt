-- ===== src/ToolLoop/Examples.antt =====
-- A run of two rounds at most, whose first reply asks for a file and for a shell command
-- (src/thumbelina/subagents/manager.py).
use thumbelina.Prelude.{
  String, true, false, none, some, List, [], ◌∷◌, length, map, ltb, ◌≡◌, refl, str_eq,
  if◌then◌else◌,
}
use thumbelina.Permissions.Modes.{PermissionMode, PermissionDecision}
use thumbelina.Permissions.Shell.{Regex}
use thumbelina.Permissions.Paths.{PathContext, Resolved}
use thumbelina.Permissions.Gate.{in_read_only_tools}
use thumbelina.ToolLoop.{
  ToolCall, Message, Reply, replied, Tools, returned, gate, round_messages, runnable, run_tool_loop,
  first_messages,
}
use thumbelina.ToolLoop.Gated.{Each, IsAllowed, invoked-IsAllowed}
use thumbelina.ToolLoop.Filled.{ids, answer_to, round_messages_lem}
use thumbelina.ToolLoop.Gathered.{any_raises}
use thumbelina.ToolLoop.Paired.{IsPaired, run_tool_loop-IsPaired}
use thumbelina.Subagents.Executions.{IsDistinct}

abbrev no_patterns : Regex
no_patterns = record {
  Pattern = String;
  search = str_eq;
  normalize = λ s. s;
  posix_dangerous = [];
  windows_dangerous = [];
  posix_confirm = [];
  windows_confirm = [];
  write_redirect = "> out";
  write_cmd = "tee out";
  absolute_target = "> /out";
}

abbrev nowhere : PathContext
nowhere = record {
  lower_wide = λ c. c ∷ [];
  workspace = none;
  app_anchors = [];
  resolve = λ p. Resolved.outside;
}

abbrev call_of : String → String → ToolCall
call_of id name = record {
  id = id;
  name = name;
  args = record { command = none; path = none; mode = none };
  other_args = "";
}

abbrev asked_for : List ToolCall
asked_for = call_of "c-1" "read_file" ∷ call_of "c-2" "run_shell" ∷ []

abbrev reading_tools : Tools
reading_tools = record {
  names = "read_file" ∷ [];
  has_timeout = true;
  invoke = λ tc. returned "text";
}

-- the calls first, and a text afterwards
abbrev model : List Message → Reply
model ms = if ltb (length ms) 3 then replied "" asked_for else replied "found" []

abbrev decide : ToolCall → PermissionDecision
decide tc = gate no_patterns nowhere PermissionMode.read_only false tc

invoked-IsAllowed_example :
    Each
      (IsAllowed (gate no_patterns nowhere PermissionMode.auto false) reading_tools)
      (run_tool_loop
        (gate no_patterns nowhere PermissionMode.auto false)
        reading_tools
        model
        model
        2
        "look").invoked
    × Each
        (λ tc. in_read_only_tools tc.name ≡ true)
        (run_tool_loop
          (gate no_patterns nowhere PermissionMode.read_only false)
          reading_tools
          model
          model
          2
          "look").invoked
invoked-IsAllowed_example =
    invoked-IsAllowed no_patterns nowhere false reading_tools model model 2 "look"
      PermissionMode.auto

asked_for-IsDistinct : IsDistinct (ids asked_for)
unfolding IsDistinct
asked_for-IsDistinct = (refl, (refl, tt))

round_messages_lem_example : round_messages decide reading_tools asked_for ≡ (
    if any_raises reading_tools (runnable decide asked_for)
    then none
    else some (map (answer_to decide reading_tools) asked_for))
round_messages_lem_example = round_messages_lem decide reading_tools asked_for asked_for-IsDistinct

run_tool_loop-IsPaired_example :
    IsPaired true
      (first_messages "look")
      2
      (run_tool_loop decide reading_tools model model 2 "look")
run_tool_loop-IsPaired_example = run_tool_loop-IsPaired decide reading_tools model model 2 "look"
