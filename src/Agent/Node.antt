-- ===== src/Agent/Node.antt =====
-- The node that executes tool calls behind the gate (`_tool_node_node` of
-- src/thumbelina/agent/graph.py), with the callback that it gives to `tool_node`. A call that is
-- recorded or told to the stream stands for its name, its id and its arguments. The order in which the
-- tools end, and how long each takes, are parameters.
use thumbelina.Prelude.{
  ℕ, String, Bool, true, false, Option, none, some, List, [], ◌∷◌, ◌++◌, map, Dict, lookup, insert,
  str_eq, keep, not, if◌then◌else◌,
}
use thumbelina.Permissions.Modes.{PermissionDecision}
use thumbelina.Approvals.{Decision}
use thumbelina.ToolLoop.{
  ToolCall, ToolMessage, Content, output, Tools, raises, message_of, tool_node, by_id,
}
use thumbelina.Agent.Gate.{CallVerdict, AskedCall, GateResult, interrupted, passed, permission_gate}

-- an entry of `statuses`
pub record CallStatus : Type 0 where
  pub is_error : Bool
  pub duration_ms : ℕ

pub data StreamEvent : Type 0 where
  denied_start : String → Option ToolCall → StreamEvent
  denied_end : String → Content → StreamEvent
  tool_start : ToolCall → Option CallVerdict → StreamEvent
  tool_end : String → CallStatus → Content → Option CallVerdict → StreamEvent

-- `record_tool_result`; an absent status is written as no error without a duration
pub record CallResult : Type 0 where
  pub call_id : String
  pub content : Content
  pub is_error : Bool
  pub duration_ms : Option ℕ

-- the trajectory's calls and results, what went to the stream, and the messages
pub record NodeRun : Type 0 where
  pub recorded : List (ToolCall × Option CallVerdict)
  pub stream : List StreamEvent
  pub results : List CallResult
  pub messages : List ToolMessage

-- paused to ask, run to its end, or left by an exception of `tool_node`
pub data NodeResult : Type 0 where
  paused : List AskedCall → NodeResult
  ran : NodeRun → NodeResult
  broke : NodeRun → NodeResult

-- `next((c for c in calls if c["id"] == cid), {})`
unfoldable pub call_with : List ToolCall → String → Option ToolCall
call_with [] id = none
call_with (c ∷ cs) id = if str_eq c.id id then some c else call_with cs id

unfoldable pub denied_events : List ToolCall → List ToolMessage → List StreamEvent
denied_events calls [] = []
denied_events calls (m ∷ ms) =
    denied_start m.tool_call_id (call_with calls m.tool_call_id)
    ∷ denied_end m.tool_call_id m.content
    ∷ denied_events calls ms

-- what `_invoke_one` tells its callback: whether the call failed
abbrev pub is_failure : Content → Bool
is_failure (output r) = false
is_failure _ = true

-- the message of a call, if it has one
unfoldable pub message_for : Option ToolMessage → Option ToolMessage → List ToolMessage
message_for (some m) d = m ∷ []
message_for none (some m) = m ∷ []
message_for none none = []

-- the messages in the order of the calls
unfoldable pub ordered : Dict ToolMessage → Dict ToolMessage → List ToolCall → List ToolMessage
ordered executed refused [] = []
ordered executed refused (c ∷ cs) =
    message_for (lookup c.id executed) (lookup c.id refused) ++ ordered executed refused cs

abbrev error_of : Option CallStatus → Bool
error_of none = false
error_of (some s) = s.is_error

abbrev duration_of : Option CallStatus → Option ℕ
duration_of none = none
duration_of (some s) = some s.duration_ms

abbrev result_of : String → Content → Option CallStatus → CallResult
result_of id content status = record {
  call_id = id;
  content = content;
  is_error = error_of status;
  duration_ms = duration_of status;
}

-- `zip(exec_calls, executed_tool_messages)`
unfoldable pub results_of : Dict CallStatus → List ToolCall → List ToolMessage → List CallResult
results_of statuses [] ms = []
results_of statuses (c ∷ cs) [] = []
results_of statuses (c ∷ cs) (m ∷ ms) =
    result_of c.id m.content (lookup c.id statuses) ∷ results_of statuses cs ms

module _ (tools : Tools) (duration : ToolCall → ℕ) where
  abbrev pub status_of : ToolCall → CallStatus
  status_of c = record {
    is_error = is_failure (message_of tools c).content;
    duration_ms = duration c;
  }

  -- `on_tool_event` for the calls in the order in which they end
  unfoldable pub statuses_of : List ToolCall → Dict CallStatus → Dict CallStatus
  statuses_of [] d = d
  statuses_of (c ∷ cs) d = statuses_of cs (insert c.id (status_of c) d)

  unfoldable pub ends_of : Dict CallVerdict → List ToolCall → List StreamEvent
  ends_of verdicts [] = []
  ends_of verdicts (c ∷ cs) =
      tool_end c.id (status_of c) (message_of tools c).content (lookup c.id verdicts)
      ∷ ends_of verdicts cs

  -- what goes to the stream; a call that raises has no end
  unfoldable pub streamed :
      Bool
      → List ToolCall
      → Dict CallVerdict
      → List ToolMessage
      → List ToolCall
      → List ToolCall
      → List StreamEvent
  streamed writer calls verdicts refusals exec ended =
      if writer
      then denied_events calls refusals
        ++ map (λ c. tool_start c (lookup c.id verdicts)) exec
        ++ ends_of verdicts (keep (λ c. not (raises tools c)) ended)
      else []

  -- what is left when `tool_node` has returned its messages, or raised
  unfoldable pub run_executed :
      List (ToolCall × Option CallVerdict)
      → List StreamEvent
      → List ToolCall
      → List ToolMessage
      → List ToolCall
      → List ToolCall
      → Option (List ToolMessage)
      → NodeResult
  run_executed recorded stream calls refusals exec ended none =
      broke record { recorded = recorded; stream = stream; results = []; messages = [] }
  run_executed recorded stream calls refusals exec ended (some executed) = ran record {
    recorded = recorded;
    stream = stream;
    results = results_of (statuses_of ended []) exec executed;
    messages = ordered (by_id executed []) (by_id refusals []) calls;
  }

  -- the rest of the node, behind the gate
  unfoldable pub run_passed :
      Bool → (List ToolCall → List ToolCall) → List ToolCall → GateResult → NodeResult
  run_passed writer ending calls (interrupted asked) = paused asked
  run_passed writer ending calls (passed exec verdicts refusals) =
      run_executed (map (λ c. (c, lookup c.id verdicts)) calls)
        (streamed writer calls verdicts refusals exec (ending exec)) calls refusals exec
        (ending exec) (tool_node tools exec)

  unfoldable pub tool_node_node :
      (ToolCall → PermissionDecision)
      → (String → String)
      → Bool
      → Option (List Decision)
      → Bool
      → (List ToolCall → List ToolCall)
      → List ToolCall
      → NodeResult
  tool_node_node decide normalize approver resumed writer ending calls =
      run_passed writer ending calls (permission_gate decide normalize approver resumed calls)
