-- ===== src/Subagents/Stages.antt =====
-- An agent stays, keeps what it was created for, and goes through its stages in order, being executed
-- once (src/thumbelina/subagents/manager.py).
use mathlib.Core.Option.{some_inj}
use mathlib.Core.Path.{subst}
use thumbelina.Prelude.{
  ℕ, ◌≤◌, String, true, Option, none, some, Dict, lookup, insert, lookup-insert, length, str_eq,
  eq_iff, leb, if_both, if_known, ◌≡◌, refl, sym, ap, ◌∙◌, arith,
}
use thumbelina.Subagents.{
  SubagentStatus, Subagent, SubagentManager, Failure, Outcome, returned, was_cancelled, raised,
  is_pending, is_active, add_listener, unsubscribe, emit, new_agent, create_agent, run_found,
  run_agent, begin_found, execute_begin, ended, end_found, execute_end, cancel_found, cancel_agent,
}
use thumbelina.Subagents.Steps.{
  System, Step, Steps, here, next, listens, unsubscribes, creates, runs, begins, ends, cancels,
}

-- PENDING, RUNNING, and the rest
unfoldable pub stage : SubagentStatus → ℕ
stage SubagentStatus.pending = 0
stage SubagentStatus.running = 1
stage _ = 2

pub record IsLater (t u : Subagent) : Type 0 where
  pub id : u.id ≡ t.id
  pub task : u.task ≡ t.task
  pub conversation : u.conversation_id ≡ t.conversation_id
  pub order : stage t.status ≤ stage u.status

IsLater-refl : (t : Subagent) → IsLater t t
IsLater-refl t = record { id = refl; task = refl; conversation = refl; order = omega arith }

IsLater-trans : {t u v : Subagent} → IsLater t u → IsLater u v → IsLater t v
IsLater-trans a b = record {
  id = b.id ∙ a.id;
  task = b.task ∙ a.task;
  conversation = b.conversation ∙ a.conversation;
  order = omega (arith, a.order, b.order);
}

-- the agent of an id is there, later
abbrev pub There : Subagent → Option Subagent → Type 0
There t o = (u : Subagent) × (o ≡ some u) × IsLater t u

abbrev pub Keeps : Dict Subagent → Dict Subagent → Type 0
Keeps d d' = (x : String) (t : Subagent) → lookup x d ≡ some t → There t (lookup x d')

keep_all : (d : Dict Subagent) → Keeps d d
keep_all d x t e = (t, e, IsLater-refl t)

insert-Keeps :
    (id : String) (t v : Subagent) (d : Dict Subagent)
    → lookup id d ≡ some t
    → IsLater t v
    → Keeps d (insert id v d)
insert-Keeps id t v d e l x u f = subst (There u) (sym (lookup-insert id x v d)) (
    if_known (There u) (str_eq id x)
      (λ same. (
        v,
        refl,
        subst (λ o. IsLater o v)
            (some_inj.0 (sym e ∙ ap (λ k. lookup k d) ((eq_iff id x).0 same) ∙ f)) l,
      ))
      (λ other. (u, f, IsLater-refl u)))

create_agent-Keeps :
    (id task : String) (conversation : Option String) (s : SubagentManager)
    → lookup id s.agents ≡ none
    → Keeps s.agents (create_agent id task conversation s).1.agents
unfolding create_agent
create_agent-Keeps id task conversation s e =
    let a = new_agent id task conversation in
    if_both (λ (r : Option Failure × SubagentManager). Keeps s.agents r.1.agents)
      (leb s.max_agents (length s.agents)) (keep_all s.agents)
      (λ x t f.
        (t, lookup-insert id x a s.agents ∙ ground (arith, eq_iff id x, e, f), IsLater-refl t))

pub pending_first : (status : SubagentStatus) → is_pending status ≡ true → stage status ≡ 0
unfolding stage
pending_first SubagentStatus.pending h = refl
pending_first SubagentStatus.running h = cc
pending_first SubagentStatus.completed h = cc
pending_first SubagentStatus.failed h = cc
pending_first SubagentStatus.cancelled h = cc

stage_le : (status : SubagentStatus) → stage status ≤ 2
unfolding stage
stage_le SubagentStatus.pending = omega arith
stage_le SubagentStatus.running = omega arith
stage_le SubagentStatus.completed = omega arith
stage_le SubagentStatus.failed = omega arith
stage_le SubagentStatus.cancelled = omega arith

run_found-Keeps :
    (id : String) (now : ℕ) (o : Option Subagent) (s : SubagentManager)
    → lookup id s.agents ≡ o
    → Keeps s.agents (run_found id now o s).1.agents
unfolding run_found stage
run_found-Keeps id now none s e = keep_all s.agents
run_found-Keeps id now (some a) s e =
    let b : Subagent = record a { status = SubagentStatus.running; started_at = some now } in
    if_known (λ (r : Option Failure × SubagentManager). Keeps s.agents r.1.agents)
      (is_pending a.status)
      (λ p. insert-Keeps id a b s.agents e (record {
        id = refl;
        task = refl;
        conversation = refl;
        order = omega (arith, pending_first a.status p);
      }))
      (λ p. keep_all s.agents)

ended-IsLater : (outcome : Outcome) (now : ℕ) (a : Subagent) → IsLater a (ended outcome now a).1
unfolding ended stage
ended-IsLater (returned r) now a = record {
  id = refl;
  task = refl;
  conversation = refl;
  order = stage_le a.status;
}
ended-IsLater was_cancelled now a = record {
  id = refl;
  task = refl;
  conversation = refl;
  order = stage_le a.status;
}
ended-IsLater (raised e) now a = record {
  id = refl;
  task = refl;
  conversation = refl;
  order = stage_le a.status;
}

end_found-Keeps :
    (id : String) (outcome : Outcome) (now : ℕ) (o : Option Subagent) (s : SubagentManager)
    → lookup id s.agents ≡ o
    → Keeps s.agents (end_found id outcome now o s).agents
unfolding end_found emit
end_found-Keeps id outcome now none s e = keep_all s.agents
end_found-Keeps id outcome now (some a) s e =
    insert-Keeps id a (ended outcome now a).1 s.agents e (ended-IsLater outcome now a)

begin_found-agents :
    (o : Option Subagent) (s : SubagentManager) → (begin_found o s).agents ≡ s.agents
unfolding begin_found emit
begin_found-agents none s = refl
begin_found-agents (some a) s = refl

cancel_found-Keeps :
    (id : String) (now : ℕ) (o : Option Subagent) (s : SubagentManager)
    → lookup id s.agents ≡ o
    → Keeps s.agents (cancel_found id now o s).1.agents
unfolding cancel_found emit stage
cancel_found-Keeps id now none s e = keep_all s.agents
cancel_found-Keeps id now (some a) s e =
    let b : Subagent = record a { status = SubagentStatus.cancelled; finished_at = some now } in
    if_both (λ (m : SubagentManager). Keeps s.agents m.agents) (is_active a.status)
      (insert-Keeps id a b s.agents e
        (record { id = refl; task = refl; conversation = refl; order = stage_le a.status }))
      (keep_all s.agents)

pub Step-Keeps : {s s' : System} → Step s s' → Keeps s.manager.agents s'.manager.agents
unfolding add_listener unsubscribe run_agent execute_begin execute_end cancel_agent
Step-Keeps {s} (listens l) = keep_all s.manager.agents
Step-Keeps {s} (unsubscribes l) = keep_all s.manager.agents
Step-Keeps {s} (creates id task conversation e) =
    create_agent-Keeps id task conversation s.manager e
Step-Keeps {s} (runs id now) = run_found-Keeps id now (lookup id s.manager.agents) s.manager refl
Step-Keeps {s} (begins id before after e) =
    let m = s.manager in
    subst (Keeps m.agents) (sym (begin_found-agents (lookup id m.agents) m)) (keep_all m.agents)
Step-Keeps {s} (ends id before after outcome now e) =
    end_found-Keeps id outcome now (lookup id s.manager.agents) s.manager refl
Step-Keeps {s} (cancels id now) =
    cancel_found-Keeps id now (lookup id s.manager.agents) s.manager refl

-- Over any sequence of steps, in which a new agent gets a new id: an agent stays in the table with its
-- id, task and conversation, and its stage (PENDING, RUNNING, or ended) does not go back.
pub agents_stay :
    {s s' : System} (x : String) (t : Subagent)
    → Steps s s'
    → lookup x s.manager.agents ≡ some t
    → (u : Subagent) × (lookup x s'.manager.agents ≡ some u) × IsLater t u
agents_stay x t here e = (t, e, IsLater-refl t)
agents_stay x t (next r st) e =
    let (u, f, l) = agents_stay x t r e in
    let (v, g, m) = Step-Keeps st x u f in (v, g, IsLater-trans l m)
