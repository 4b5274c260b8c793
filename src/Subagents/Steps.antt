-- ===== src/Subagents/Steps.antt =====
-- Everything that changes the subagents, as steps in any order, with the coroutines of `_execute` that
-- are still to begin, that wait for their work, and that were ever left to run
-- (src/thumbelina/subagents/manager.py).
use thumbelina.Prelude.{
  ℕ, String, none, Option, List, ◌∷◌, ◌++◌, lookup, is_some, if◌then◌else◌, ◌≡◌,
}
use thumbelina.Subagents.{
  SubagentManager, Failure, Outcome, add_listener, unsubscribe, create_agent, run_agent,
  execute_begin, execute_end, cancel_agent,
}

pub record System : Type 0 where
  pub manager : SubagentManager
  pub scheduled : List String
  pub working : List String
  pub executions : List String

abbrev pub left_to_run : String → Option Failure × SubagentManager → System → System
left_to_run id r s = record {
  manager = r.1;
  scheduled = if is_some r.0 then s.scheduled else id ∷ s.scheduled;
  working = s.working;
  executions = if is_some r.0 then s.executions else id ∷ s.executions;
}

-- The id of a new agent is one that no agent has.
pub data Step (s : System) : System → Type 0 where
  listens : (l : ℕ) → Step s (record s { manager = add_listener l s.manager })
  unsubscribes : (l : ℕ) → Step s (record s { manager = unsubscribe l s.manager })
  creates :
      (id task : String) (conversation : Option String)
      → lookup id s.manager.agents ≡ none
      → Step s (record s { manager = (create_agent id task conversation s.manager).1 })
  runs : (id : String) (now : ℕ) → Step s (left_to_run id (run_agent id now s.manager) s)
  begins :
      (id : String) (before after : List String)
      → s.scheduled ≡ before ++ id ∷ after
      → Step s (record s {
        manager = execute_begin id s.manager;
        scheduled = before ++ after;
        working = id ∷ s.working;
      })
  ends :
      (id : String) (before after : List String) (outcome : Outcome) (now : ℕ)
      → s.working ≡ before ++ id ∷ after
      → Step s
          (record s { manager = execute_end id outcome now s.manager; working = before ++ after })
  cancels :
      (id : String) (now : ℕ) → Step s (record s { manager = (cancel_agent id now s.manager).1 })

pub data Steps (s : System) : System → Type 0 where
  here : Steps s s
  next : {t u : System} → Steps s t → Step t u → Steps s u
