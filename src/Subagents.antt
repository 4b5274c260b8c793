-- ===== src/Subagents.antt =====
-- The life cycle of subagents (src/thumbelina/subagents/base.py and manager.py). The generated id and
-- the clock are arguments, and what a listener gets stands in `delivered`, in order.
pub mod Steps
pub mod Stages
pub mod Executions
pub mod Limits
mod Examples
use thumbelina.Prelude.{
  ℕ, String, Bool, true, false, not, ◌&&◌, ◌||◌, Option, none, some, List, [], ◌∷◌, ◌++◌, map, Dict,
  lookup, insert, leb, length, if◌then◌else◌, str_eq, ◌==◌,
}

pub data SubagentStatus : Type 0 where
  pending running completed failed cancelled : SubagentStatus

pub record Subagent : Type 0 where
  pub id : String
  pub task : String
  pub status : SubagentStatus
  pub result : Option String
  pub error : Option String
  pub started_at : Option ℕ
  pub finished_at : Option ℕ
  pub conversation_id : Option String

pub data SubagentEventType : Type 0 where
  started completed failed cancelled : SubagentEventType

pub record SubagentEvent : Type 0 where
  pub type : SubagentEventType
  pub id : String
  pub task : String
  pub status : SubagentStatus
  pub result : Option String
  pub error : Option String
  pub started_at : Option ℕ
  pub finished_at : Option ℕ
  pub conversation_id : Option String

-- a listener by number
pub record SubagentManager : Type 0 where
  pub max_agents : ℕ
  pub agents : Dict Subagent
  pub listeners : List ℕ
  pub delivered : List (ℕ × SubagentEvent)

-- `RuntimeError` and `ValueError`, by their messages' parts
pub data Failure : Type 0 where
  agent_limit : ℕ → Failure
  not_found : String → Failure
  not_pending : String → SubagentStatus → Failure

abbrev pub is_pending : SubagentStatus → Bool
is_pending SubagentStatus.pending = true
is_pending _ = false

-- `status in (PENDING, RUNNING)`
abbrev pub is_active : SubagentStatus → Bool
is_active SubagentStatus.pending = true
is_active SubagentStatus.running = true
is_active _ = false

unfoldable pub add_listener : ℕ → SubagentManager → SubagentManager
add_listener l s = record s { listeners = s.listeners ++ l ∷ [] }

-- `self._listeners.remove(fn)`: the first occurrence
unfoldable pub without : ℕ → List ℕ → List ℕ
without l [] = []
without l (k ∷ ks) = let rest = without l ks in if k == l then ks else k ∷ rest

-- what `add_listener` returns
unfoldable pub unsubscribe : ℕ → SubagentManager → SubagentManager
unsubscribe l s = record s { listeners = without l s.listeners }

abbrev pub event_of : SubagentEventType → Subagent → SubagentEvent
event_of type a = record {
  type = type;
  id = a.id;
  task = a.task;
  status = a.status;
  result = a.result;
  error = a.error;
  started_at = a.started_at;
  finished_at = a.finished_at;
  conversation_id = a.conversation_id;
}

-- `_emit`; that a listener raises stops nothing.
unfoldable pub emit : SubagentEventType → Subagent → SubagentManager → SubagentManager
emit type a s = record s { delivered = s.delivered ++ map (λ l. (l, event_of type a)) s.listeners }

abbrev pub new_agent : String → String → Option String → Subagent
new_agent id task conversation = record {
  id = id;
  task = task;
  status = SubagentStatus.pending;
  result = none;
  error = none;
  started_at = none;
  finished_at = none;
  conversation_id = conversation;
}

unfoldable pub create_agent :
    String → String → Option String → SubagentManager → Option Failure × SubagentManager
create_agent id task conversation s =
    if leb s.max_agents (length s.agents)
    then (some (agent_limit s.max_agents), s)
    else (none, record s { agents = insert id (new_agent id task conversation) s.agents })

abbrev pub put : Subagent → String → SubagentManager → SubagentManager
put a id s = record s { agents = insert id a s.agents }

unfoldable pub run_found :
    String → ℕ → Option Subagent → SubagentManager → Option Failure × SubagentManager
run_found id now none s = (some (not_found id), s)
run_found id now (some a) s =
    if is_pending a.status
    then (none, put (record a { status = SubagentStatus.running; started_at = some now }) id s)
    else (some (not_pending id a.status), s)

-- `run_agent`; without a failure, it leaves a coroutine of `_execute` to run
unfoldable pub run_agent : String → ℕ → SubagentManager → Option Failure × SubagentManager
run_agent id now s = run_found id now (lookup id s.agents) s

unfoldable pub begin_found : Option Subagent → SubagentManager → SubagentManager
begin_found none s = s
begin_found (some a) s = emit SubagentEventType.started a s

-- `_execute` up to its await; the object that it holds stands at its id, which is never removed
unfoldable pub execute_begin : String → SubagentManager → SubagentManager
execute_begin id s = begin_found (lookup id s.agents) s

-- how the awaited work ends
pub data Outcome : Type 0 where
  returned : String → Outcome
  was_cancelled : Outcome
  raised : String → Outcome

unfoldable pub ended : Outcome → ℕ → Subagent → SubagentEventType × Subagent
ended (returned r) now a = (
  SubagentEventType.completed,
  record a { result = some r; status = SubagentStatus.completed; finished_at = some now },
)
ended was_cancelled now a = (
  SubagentEventType.cancelled,
  record a { status = SubagentStatus.cancelled; finished_at = some now },
)
ended (raised e) now a = (
  SubagentEventType.failed,
  record a { error = some e; status = SubagentStatus.failed; finished_at = some now },
)

unfoldable pub end_found :
    String → Outcome → ℕ → Option Subagent → SubagentManager → SubagentManager
end_found id outcome now none s = s
end_found id outcome now (some a) s =
    let (type, b) = ended outcome now a in emit type b (put b id s)

-- the rest of `_execute`
unfoldable pub execute_end : String → Outcome → ℕ → SubagentManager → SubagentManager
execute_end id outcome now s = end_found id outcome now (lookup id s.agents) s

unfoldable pub cancel_found :
    String → ℕ → Option Subagent → SubagentManager → Bool × SubagentManager
cancel_found id now none s = (false, s)
cancel_found id now (some a) s =
    let b : Subagent = record a { status = SubagentStatus.cancelled; finished_at = some now } in
    (true, if is_active a.status then emit SubagentEventType.cancelled b (put b id s) else s)

unfoldable pub cancel_agent : String → ℕ → SubagentManager → Bool × SubagentManager
cancel_agent id now s = cancel_found id now (lookup id s.agents) s
