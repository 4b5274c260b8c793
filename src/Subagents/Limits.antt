-- ===== src/Subagents/Limits.antt =====
-- The limit on the number of agents, and a cancellation during the work
-- (src/thumbelina/subagents/manager.py).
use thumbelina.Prelude.{
  ℕ, suc, ◌≤◌, String, true, Option, none, some, List, [], ◌∷◌, ◌++◌, map, Dict, lookup, insert,
  lookup-insert, length, eq_refl, leb, if◌then◌else◌, if_both, if_known, ◌≡◌, refl, ap, ◌∙◌, arith,
}
use thumbelina.Subagents.{
  SubagentStatus, Subagent, SubagentEventType, SubagentEvent, SubagentManager, Failure, agent_limit,
  Outcome, returned, is_pending, is_active, add_listener, unsubscribe, event_of, emit, new_agent,
  create_agent, put, run_found, run_agent, begin_found, execute_begin, ended, end_found,
  execute_end, cancel_found, cancel_agent,
}
use thumbelina.Subagents.Steps.{
  System, Step, Steps, here, next, listens, unsubscribes, creates, runs, begins, ends, cancels,
}
use thumbelina.Subagents.Executions.{new_system}

-- a change that adds no agent
record Same (s s' : SubagentManager) : Type 0 where
  limit : s'.max_agents ≡ s.max_agents
  number : length s'.agents ≡ length s.agents

Same-refl : (s : SubagentManager) → Same s s
Same-refl s = record { limit = refl; number = refl }

length-insert :
    (id : String) (a b : Subagent) (d : Dict Subagent)
    → lookup id d ≡ some a
    → length (insert id b d) ≡ length d
unfolding lookup insert
length-insert id a b [] e = cc
length-insert id a b ((k, c) ∷ d) e = ground (arith, length-insert id a b d, e)

length_new :
    (id : String) (b : Subagent) (d : Dict Subagent)
    → lookup id d ≡ none
    → length (insert id b d) ≡ suc (length d)
unfolding lookup insert
length_new id b [] e = refl
length_new id b ((k, c) ∷ d) e = ground (arith, length_new id b d, e)

put-Same :
    (id : String) (a b : Subagent) (s : SubagentManager) (events : List (ℕ × SubagentEvent))
    → lookup id s.agents ≡ some a
    → Same s (record (put b id s) { delivered = events })
put-Same id a b s events e = record { limit = refl; number = length-insert id a b s.agents e }

run_found-Same :
    (id : String) (now : ℕ) (o : Option Subagent) (s : SubagentManager)
    → lookup id s.agents ≡ o
    → Same s (run_found id now o s).1
unfolding run_found
run_found-Same id now none s e = Same-refl s
run_found-Same id now (some a) s e =
    if_both (λ (r : Option Failure × SubagentManager). Same s r.1) (is_pending a.status)
      (put-Same id a (record a { status = SubagentStatus.running; started_at = some now }) s
        s.delivered e)
      (Same-refl s)

begin_found-Same : (o : Option Subagent) (s : SubagentManager) → Same s (begin_found o s)
unfolding begin_found emit
begin_found-Same none s = Same-refl s
begin_found-Same (some a) s = record { limit = refl; number = refl }

end_found-Same :
    (id : String) (outcome : Outcome) (now : ℕ) (o : Option Subagent) (s : SubagentManager)
    → lookup id s.agents ≡ o
    → Same s (end_found id outcome now o s)
unfolding end_found emit
end_found-Same id outcome now none s e = Same-refl s
end_found-Same id outcome now (some a) s e = put-Same id a (ended outcome now a).1 s _ e

cancel_found-Same :
    (id : String) (now : ℕ) (o : Option Subagent) (s : SubagentManager)
    → lookup id s.agents ≡ o
    → Same s (cancel_found id now o s).1
unfolding cancel_found emit
cancel_found-Same id now none s e = Same-refl s
cancel_found-Same id now (some a) s e =
    if_both (Same s) (is_active a.status)
      (put-Same id a (record a { status = SubagentStatus.cancelled; finished_at = some now }) s _ e)
      (Same-refl s)

-- the agents are no fewer, and where they were within the limit they still are
record Grows (s s' : SubagentManager) : Type 0 where
  limit : s'.max_agents ≡ s.max_agents
  more : length s.agents ≤ length s'.agents
  within : length s.agents ≤ s.max_agents → length s'.agents ≤ s'.max_agents

Same-Grows : {s s' : SubagentManager} → Same s s' → Grows s s'
Same-Grows h = record {
  limit = h.limit;
  more = omega (arith, h.number);
  within = λ w. omega (arith, w, h.limit, h.number);
}

create_agent-Grows :
    (id task : String) (conversation : Option String) (s : SubagentManager)
    → lookup id s.agents ≡ none
    → Grows s (create_agent id task conversation s).1
unfolding create_agent
create_agent-Grows id task conversation s e =
    let longer = length_new id (new_agent id task conversation) s.agents e in
    if_known (λ (r : Option Failure × SubagentManager). Grows s r.1)
      (leb s.max_agents (length s.agents)) (λ full. Same-Grows (Same-refl s))
      (λ room. record {
        limit = refl;
        more = omega (arith, longer);
        within = λ w. ground (arith, longer, room);
      })

Step-Grows : {s s' : System} → Step s s' → Grows s.manager s'.manager
unfolding add_listener unsubscribe run_agent execute_begin execute_end cancel_agent
Step-Grows {s} (listens l) = Same-Grows (record { limit = refl; number = refl })
Step-Grows {s} (unsubscribes l) = Same-Grows (record { limit = refl; number = refl })
Step-Grows {s} (creates id task conversation e) =
    create_agent-Grows id task conversation s.manager e
Step-Grows {s} (runs id now) =
    Same-Grows (run_found-Same id now (lookup id s.manager.agents) s.manager refl)
Step-Grows {s} (begins id before after e) =
    Same-Grows (begin_found-Same (lookup id s.manager.agents) s.manager)
Step-Grows {s} (ends id before after outcome now e) =
    Same-Grows (end_found-Same id outcome now (lookup id s.manager.agents) s.manager refl)
Step-Grows {s} (cancels id now) =
    Same-Grows (cancel_found-Same id now (lookup id s.manager.agents) s.manager refl)

Steps-Grows : {s s' : System} → Steps s s' → Grows s.manager s'.manager
Steps-Grows here = record { limit = refl; more = omega arith; within = λ w. w }
Steps-Grows (next r st) =
    let g = Steps-Grows r in
    let h = Step-Grows st in
    record {
      limit = h.limit ∙ g.limit;
      more = omega (arith, g.more, h.more);
      within = λ w. h.within (g.within w);
    }

-- In every state that steps lead to from a new manager there are no more agents than the limit; and
-- once the limit is reached, in every later state a creation fails and changes nothing, whatever has
-- become of the agents.
pub limit_is_for_good :
    (n : ℕ) (s s' : System) (id task : String) (conversation : Option String)
    → Steps (new_system n) s
    → Steps s s'
    → (length s.manager.agents ≤ n)
      × (n ≤ length s.manager.agents
          → create_agent id task conversation s'.manager ≡ (some (agent_limit n), s'.manager))
unfolding create_agent
limit_is_for_good n s s' id task conversation r q =
    let g = Steps-Grows r in
    let h = Steps-Grows q in
    (
      omega (arith, g.within (omega arith), g.limit),
      λ full.
          let refused : leb s'.manager.max_agents (length s'.manager.agents) ≡ true =
            ground (arith, full, h.more, h.limit, g.limit) in
          rw refused (ap (λ k. (some (agent_limit k), s'.manager)) (h.limit ∙ g.limit)),
    )

-- what the listeners get of an event
abbrev told : SubagentEventType → Subagent → SubagentManager → List (ℕ × SubagentEvent)
told type a s = map (λ l. (l, event_of type a)) s.listeners

cancel_running :
    (id : String) (a : Subagent) (now : ℕ) (s : SubagentManager)
    → lookup id s.agents ≡ some a
    → is_active a.status ≡ true
    → let b : Subagent = record a { status = SubagentStatus.cancelled; finished_at = some now } in
      cancel_agent id now s ≡ (true, emit SubagentEventType.cancelled b (put b id s))
unfolding cancel_agent cancel_found
cancel_running id a now s e h = rw (e, h) refl

execute_end_found :
    (id : String) (outcome : Outcome) (now : ℕ) (a : Subagent) (s : SubagentManager)
    → lookup id s.agents ≡ some a
    → let (type, b) = ended outcome now a in execute_end id outcome now s ≡ emit type b (put b id s)
unfolding execute_end end_found
execute_end_found id outcome now a s e = rw e refl

-- An active agent that is cancelled while its work goes on is CANCELLED, and the answer is True; when
-- the work then returns, it is COMPLETED with the result, and every listener is told of both ends.
pub cancelled_agent_completes :
    (id : String) (a : Subagent) (result : String) (now later : ℕ) (s : SubagentManager)
    → lookup id s.agents ≡ some a
    → is_active a.status ≡ true
    → let b : Subagent = record a { status = SubagentStatus.cancelled; finished_at = some now } in
      let c : Subagent = record b {
        result = some result;
        status = SubagentStatus.completed;
        finished_at = some later;
      } in
      let (answer, s') = cancel_agent id now s in
      let s'' = execute_end id (returned result) later s' in
      (answer ≡ true)
      × (lookup id s'.agents ≡ some b)
      × (lookup id s''.agents ≡ some c)
      × (s''.delivered
          ≡ (s.delivered ++ told SubagentEventType.cancelled b s)
            ++ told SubagentEventType.completed c s)
unfolding ended emit
cancelled_agent_completes id a result now later s e h =
    let b : Subagent = record a { status = SubagentStatus.cancelled; finished_at = some now } in
    let c : Subagent = record b {
      result = some result;
      status = SubagentStatus.completed;
      finished_at = some later;
    } in
    let s1 = emit SubagentEventType.cancelled b (put b id s) in
    let at = λ (x : Subagent) (d : Dict Subagent).
      lookup-insert id id x d ∙ ap (λ q. if q then some x else lookup id d) (eq_refl id) in
    let p = cancel_running id a now s e h in
    let q = execute_end_found id (returned result) later b s1 (at b s.agents) in
    rw (p, q) (refl, at b s.agents, at c s1.agents, refl)
