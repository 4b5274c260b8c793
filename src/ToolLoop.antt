-- ===== src/ToolLoop.antt =====
-- The tool loop of a subagent (`_run_tool_loop` and `_run_single_shot` of
-- src/thumbelina/subagents/manager.py) with the node that executes tools (`tool_node` of
-- src/thumbelina/agent/nodes.py) and the permission gate. What the model replies and how a tool ends
-- are parameters, and so is the search for text that looks like a tool call.
pub mod Paired
pub mod Gated
pub mod Filled
pub mod Gathered
mod Examples
use thumbelina.Prelude.{
  ℕ, zero, suc, String, Bool, true, false, ◌&&◌, Option, none, some, List, [], ◌∷◌, ◌++◌, map, Dict,
  lookup, insert, contains, keep, str_eq, if◌then◌else◌,
}
use thumbelina.Permissions.Modes.{PermissionMode, PermissionDecision, Verdict}
use thumbelina.Permissions.Shell.{Regex}
use thumbelina.Permissions.Paths.{PathContext}
use thumbelina.Permissions.Gate.{ToolArgs, evaluate_tool_call}

-- a call, with the arguments that the gate reads and the others as text
pub record ToolCall : Type 0 where
  pub id : String
  pub name : String
  pub args : ToolArgs
  pub other_args : String

-- the content of a tool message, by its parts
pub data Content : Type 0 where
  output : String → Content
  unknown_tool : String → Content
  timed_out : String → Content
  failed : String → String → Content
  refused unattended user_denied : String → Content

pub record ToolMessage : Type 0 where
  pub content : Content
  pub tool_call_id : String

pub data Message : Type 0 where
  system human : String → Message
  ai : String → List ToolCall → Message
  tool : ToolMessage → Message

-- how a tool that is invoked ends
pub data Invocation : Type 0 where
  returned : String → Invocation
  ran_out : Invocation
  raised : String → Invocation

-- what a model's `ainvoke` gives
pub data Reply : Type 0 where
  replied : String → List ToolCall → Reply
  unanswered : String → Reply

-- the names of the tools, whether `tool_node` is given a timeout, and how the invocation of a tool for
-- a call ends
pub record Tools : Type 0 where
  pub names : List String
  pub has_timeout : Bool
  pub invoke : ToolCall → Invocation

abbrev content_of : String → Invocation → Content
content_of name (returned r) = output r
content_of name ran_out = timed_out name
content_of name (raised e) = failed name e

-- Without a timeout, the text of a `TimeoutError` that the tool itself raises cannot be formatted: a
-- `TypeError` leaves the handler.
abbrev pub unformatted : Bool → Invocation → Bool
unformatted false ran_out = true
unformatted _ _ = false

unfoldable pub raises : Tools → ToolCall → Bool
raises tools tc = contains tools.names tc.name && unformatted tools.has_timeout (tools.invoke tc)

-- the message of a call that does not raise
unfoldable pub message_of : Tools → ToolCall → ToolMessage
message_of tools tc = record {
  content =
      if contains tools.names tc.name
      then content_of tc.name (tools.invoke tc)
      else unknown_tool tc.name;
  tool_call_id = tc.id;
}

-- `_invoke_one`, less what it tells its callback; `none` is the `TypeError`
unfoldable pub invoke_one : Tools → ToolCall → Option ToolMessage
invoke_one tools tc = if raises tools tc then none else some (message_of tools tc)

-- `asyncio.gather`: one that raises raises for all
abbrev pub put_first : ToolMessage → Option (List ToolMessage) → Option (List ToolMessage)
put_first m none = none
put_first m (some ms) = some (m ∷ ms)

abbrev pub first_of : Option ToolMessage → Option (List ToolMessage) → Option (List ToolMessage)
first_of none rest = none
first_of (some m) rest = put_first m rest

unfoldable pub gather : List (Option ToolMessage) → Option (List ToolMessage)
gather [] = some []
gather (o ∷ os) = first_of o (gather os)

-- `tool_node` on the calls of the last message
unfoldable pub tool_node : Tools → List ToolCall → Option (List ToolMessage)
tool_node tools calls = gather (map (invoke_one tools) calls)

-- the calls among these whose tool is invoked
unfoldable pub invoked_by : Tools → List ToolCall → List ToolCall
invoked_by tools calls = keep (λ tc. contains tools.names tc.name) calls

abbrev pub is_allow : Verdict → Bool
is_allow Verdict.allow = true
is_allow _ = false

-- `{m.tool_call_id: m for m in messages}`
unfoldable pub by_id : List ToolMessage → Dict ToolMessage → Dict ToolMessage
by_id [] d = d
by_id (m ∷ ms) d = by_id ms (insert m.tool_call_id m d)

unfoldable pub produced_or : String → Option ToolMessage → ToolMessage
produced_or id none = record { content = refused "rule.unknown_tool"; tool_call_id = id }
produced_or id (some m) = m

abbrev pub refusal : PermissionDecision → String → ToolMessage
refusal d id = record { content = refused d.reason; tool_call_id = id }

-- the messages of a round, in the order of the calls
unfoldable pub fill_in :
    (ToolCall → PermissionDecision) → Dict ToolMessage → List ToolCall → List ToolMessage
fill_in decide executed [] = []
fill_in decide executed (tc ∷ tcs) =
    let rest = fill_in decide executed tcs in
    if is_allow (decide tc).verdict
    then produced_or tc.id (lookup tc.id executed) ∷ rest
    else refusal (decide tc) tc.id ∷ rest

unfoldable pub runnable : (ToolCall → PermissionDecision) → List ToolCall → List ToolCall
runnable decide calls = keep (λ tc. is_allow (decide tc).verdict) calls

-- `evaluate_tool_call` as the loop calls it
abbrev pub gate : Regex → PathContext → PermissionMode → Bool → ToolCall → PermissionDecision
gate r x mode has_workspace tc = evaluate_tool_call r x mode tc.name tc.args has_workspace

-- the calls of a reply, gated, executed and filled in; `none` is an exception of `tool_node`
abbrev pub fill_round :
    (ToolCall → PermissionDecision)
    → List ToolCall
    → Option (List ToolMessage)
    → Option (List ToolMessage)
fill_round decide calls none = none
fill_round decide calls (some ms) = some (fill_in decide (by_id ms []) calls)

unfoldable pub round_messages :
    (ToolCall → PermissionDecision) → Tools → List ToolCall → Option (List ToolMessage)
round_messages decide tools calls =
    fill_round decide calls (tool_node tools (runnable decide calls))

-- How the loop ends: with a text, with a text after the last round, or by an exception.
pub data Ending : Type 0 where
  concluded : String → Ending
  limited : String → Ending
  broken : String → Ending

-- the history, the calls whose tools were invoked, and the ending
pub record Run : Type 0 where
  pub messages : List Message
  pub invoked : List ToolCall
  pub ending : Ending

-- by its first sentence
abbrev pub wrap_up_instruction : Message
wrap_up_instruction = human "You have reached the tool-round limit."

-- `_message_text(conclusion) or last_text`
abbrev concluding : Reply → String → String
concluding (replied text calls) last = if str_eq text "" then last else text
concluding (unanswered e) last = last

unfoldable pub wrap_up : (List Message → Reply) → List Message → List ToolCall → String → Run
wrap_up bare messages invoked last = record {
  messages = messages;
  invoked = invoked;
  ending = limited (concluding (bare (messages ++ wrap_up_instruction ∷ [])) last);
}

-- the prompts by their first sentence
abbrev pub first_messages : String → List Message
first_messages task = system "You are a subagent executing a specific task." ∷ human task ∷ []

module _ (decide : ToolCall → PermissionDecision) (tools : Tools)
    (model bare : List Message → Reply) where
  -- the messages of the round go to the history, or its exception ends the run
  unfoldable pub go_round :
      List Message
      → List ToolCall
      → String
      → (List Message → List ToolCall → String → Run)
      → Option (List ToolMessage)
      → Run
  go_round messages invoked text next none = record {
    messages = messages;
    invoked = invoked;
    ending = broken "TypeError";
  }
  go_round messages invoked text next (some answers) =
      next (messages ++ map tool answers) invoked text

  -- a round with the model's reply; `next` is the loop over the rounds that are left
  unfoldable pub answer :
      List Message → List ToolCall → Reply → (List Message → List ToolCall → String → Run) → Run
  answer messages invoked (unanswered e) next = record {
    messages = messages;
    invoked = invoked;
    ending = broken e;
  }
  answer messages invoked (replied text []) next = record {
    messages = messages ++ ai text [] ∷ [];
    invoked = invoked;
    ending = concluded text;
  }
  answer messages invoked (replied text (tc ∷ tcs)) next =
      go_round (messages ++ ai text (tc ∷ tcs) ∷ [])
        (invoked ++ invoked_by tools (runnable decide (tc ∷ tcs))) text next
        (round_messages decide tools (tc ∷ tcs))

  unfoldable pub rounds : ℕ → List Message → List ToolCall → String → Run
  rounds zero messages invoked last = wrap_up bare messages invoked last
  rounds (suc n) messages invoked last = answer messages invoked (model messages) (rounds n)

  -- `_run_tool_loop` with a model that takes tools
  unfoldable pub run_tool_loop : ℕ → String → Run
  run_tool_loop max_rounds task = rounds max_rounds (first_messages task) [] ""

-- `_run_single_shot`: the text, or the error of the chat or of the test on the text
unfoldable pub run_single_shot : (String → Reply) → (String → Bool) → String → Ending
run_single_shot chat looks_like_tool_call task = elim (chat task) [
  | replied text calls ↦
      if looks_like_tool_call text then broken "pseudo tool-call syntax" else concluded text
  | unanswered e ↦ broken e
]
