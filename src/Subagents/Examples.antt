-- ===== src/Subagents/Examples.antt =====
-- One agent of a manager that allows one (src/thumbelina/subagents/manager.py).
use thumbelina.Prelude.{
  ◌≤◌, true, false, none, some, [], ◌∷◌, ◌++◌, map, lookup, insert, length, contains, ◌≡◌, refl,
}
use thumbelina.Subagents.{
  SubagentStatus, Subagent, SubagentEventType, agent_limit, returned, is_pending, event_of, emit,
  new_agent, create_agent, run_found, run_agent, begin_found, execute_begin, execute_end,
  cancel_agent,
}
use thumbelina.Subagents.Steps.{System, Steps, left_to_run, here, next, creates, runs, begins}
use thumbelina.Subagents.Stages.{IsLater, agents_stay}
use thumbelina.Subagents.Executions.{new_manager, new_system, executed_once}
use thumbelina.Subagents.Limits.{limit_is_for_good, cancelled_agent_completes}

abbrev created : System
created = record (new_system 1) { manager = (create_agent "a-1" "review" none (new_manager 1)).1 }

abbrev launched : System
launched = left_to_run "a-1" (run_agent "a-1" 5 created.manager) created

abbrev at_work : System
at_work = record launched {
  manager = execute_begin "a-1" launched.manager;
  scheduled = [];
  working = "a-1" ∷ [];
}

abbrev working_agent : Subagent
working_agent = record {
  id = "a-1";
  task = "review";
  status = SubagentStatus.running;
  result = none;
  error = none;
  started_at = some 5;
  finished_at = none;
  conversation_id = none;
}

first_step : Steps (new_system 1) created
unfolding lookup
first_step = next here (creates "a-1" "review" none refl)

last_legs : Steps created at_work
unfolding create_agent lookup insert run_agent run_found
last_legs = next (next here (runs "a-1" 5)) (begins "a-1" [] [] refl)

whole_way : Steps (new_system 1) at_work
unfolding create_agent lookup insert run_agent run_found
whole_way = next (next first_step (runs "a-1" 5)) (begins "a-1" [] [] refl)

agents_stay_example :
    (u : Subagent) × (lookup "a-1" at_work.manager.agents ≡ some u)
    × IsLater (new_agent "a-1" "review" none) u
unfolding create_agent insert lookup
agents_stay_example = agents_stay "a-1" (new_agent "a-1" "review" none) last_legs refl

executed_once_example :
    (contains [] "a-1" ≡ false)
    × ((t : Subagent) × (lookup "a-1" at_work.manager.agents ≡ some t)
        × (is_pending t.status ≡ false))
unfolding create_agent lookup insert run_agent run_found
executed_once_example = executed_once 1 at_work [] [] "a-1" whole_way refl

limit_is_for_good_example :
    (length created.manager.agents ≤ 1)
    × (1 ≤ length created.manager.agents
        → create_agent "a-2" "search" none at_work.manager
          ≡ (some (agent_limit 1), at_work.manager))
limit_is_for_good_example =
    limit_is_for_good 1 created at_work "a-2" "search" none first_step last_legs

cancelled_agent_completes_example :
    let a = working_agent in
    let b : Subagent = record a { status = SubagentStatus.cancelled; finished_at = some 6 } in
    let c : Subagent = record b {
      result = some "done";
      status = SubagentStatus.completed;
      finished_at = some 7;
    } in
    let s = at_work.manager in
    let (answer, s') = cancel_agent "a-1" 6 s in
    let s'' = execute_end "a-1" (returned "done") 7 s' in
    (answer ≡ true)
    × (lookup "a-1" s'.agents ≡ some b)
    × (lookup "a-1" s''.agents ≡ some c)
    × (s''.delivered
        ≡ (s.delivered ++ map (λ l. (l, event_of SubagentEventType.cancelled b)) s.listeners)
          ++ map (λ l. (l, event_of SubagentEventType.completed c)) s.listeners)
unfolding create_agent lookup insert run_agent run_found execute_begin begin_found emit
cancelled_agent_completes_example =
    cancelled_agent_completes "a-1" working_agent "done" 6 7 at_work.manager refl refl
