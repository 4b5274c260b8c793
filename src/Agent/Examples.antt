-- ===== src/Agent/Examples.antt =====
-- A turn with a call that is allowed, one that wants consent and one that is denied
-- (src/thumbelina/agent/graph.py).
use thumbelina.Prelude.{
  String, true, false, Option, none, some, List, [], ◌∷◌, keep, map, ◌≡◌, ◌⊎◌, refl, str_eq,
  if◌then◌else◌,
}
use thumbelina.Permissions.Modes.{PermissionDecision, Verdict, Risk}
use thumbelina.Approvals.{Decision}
use thumbelina.Subagents.Executions.{IsDistinct}
use thumbelina.ToolLoop.{raises, ToolCall, Tools, returned}
use thumbelina.ToolLoop.Filled.{ids}
use thumbelina.ToolLoop.Gathered.{any_raises}
use thumbelina.Agent.Gate.{permission_gate, approved_in, interrupted, ask, confirms}
use thumbelina.Agent.Executed.{Passes, answered, goes, stops}
use thumbelina.Agent.Passed.{refusals, permission_gate-goes}
use thumbelina.Agent.Closed.{ExecutesAllowed, refusal_of, permission_gate-deny_all}
use thumbelina.Agent.Node.{tool_node_node}
use thumbelina.Agent.Messages.{Leaves, tool_node_node-Leaves}

abbrev call_of : String → String → ToolCall
call_of id name = record {
  id = id;
  name = name;
  args = record { command = none; path = none; mode = none };
  other_args = "";
}

abbrev calls : List ToolCall
calls = call_of "c-1" "read_file" ∷ call_of "c-2" "run_shell" ∷ call_of "c-3" "write_file" ∷ []

abbrev verdict_of : String → Verdict
verdict_of name =
    if str_eq name "read_file"
    then Verdict.allow
    else if str_eq name "run_shell"
    then Verdict.confirm
    else Verdict.deny

abbrev decide : ToolCall → PermissionDecision
decide c = record {
  verdict = verdict_of c.name;
  risk = Risk.dangerous;
  reason = "rule";
  auto_allowed = false;
}

abbrev normalize : String → String
normalize s = s

abbrev consent : Option (List Decision)
consent = some (record { call_id = "c-2"; approved = true } ∷ [])

abbrev tools : Tools
tools = record {
  names = "read_file" ∷ "run_shell" ∷ [];
  has_timeout = false;
  invoke = λ c. returned "text";
}

permission_gate-goes_example :
    ((stops decide normalize true none (keep (confirms decide normalize) calls) ≡ true)
      × (permission_gate decide normalize true none calls
          ≡ interrupted (map (ask decide normalize) (keep (confirms decide normalize) calls))))
    ⊎ ((stops decide normalize true none (keep (confirms decide normalize) calls) ≡ false)
        × Passes decide normalize
            (permission_gate decide normalize true none calls)
            (keep (goes decide normalize true none) calls)
            (refusals decide normalize true none calls))
permission_gate-goes_example = permission_gate-goes decide normalize true none calls

permission_gate-deny_all_example :
    ExecutesAllowed decide normalize false none calls
    × ExecutesAllowed decide normalize true (some (refusal_of decide normalize calls)) calls
permission_gate-deny_all_example = permission_gate-deny_all decide normalize none true calls

calls-IsDistinct : IsDistinct (ids calls)
unfolding IsDistinct
calls-IsDistinct = (refl, (refl, (refl, tt)))

not_stopped : stops decide normalize true consent (keep (confirms decide normalize) calls) ≡ false
unfolding stops
not_stopped = refl

none_raises : any_raises tools (keep (goes decide normalize true consent) calls) ≡ false
unfolding any_raises raises answered approved_in
none_raises = refl

tool_node_node-Leaves_example :
    Leaves decide normalize tools true consent
      (tool_node_node tools (λ c. 5) decide normalize true consent true (λ cs. cs) calls)
      calls
tool_node_node-Leaves_example =
    tool_node_node-Leaves decide normalize tools true consent (λ c. 5) true (λ cs. cs) calls
      calls-IsDistinct not_stopped none_raises
