-- ===== src/Subagents/Executions.antt =====
-- No agent is executed twice (src/thumbelina/subagents/manager.py).
use mathlib.Core.Option.{some_inj}
use mathlib.Core.Path.{subst}
use thumbelina.Prelude.{
  ℕ, ◌≤◌, String, true, false, Option, none, some, List, [], ◌∷◌, ◌++◌, lookup, insert,
  lookup-insert, contains, str_eq, eq_iff, eq_refl, if_known, ◌≡◌, refl, sym, ap, ◌∙◌, inl, inr,
  arith, Bool-cases,
}
use thumbelina.Subagents.{
  SubagentStatus, Subagent, SubagentManager, Failure, is_pending, put, run_found, run_agent,
}
use thumbelina.Subagents.Steps.{
  System, Step, Steps, left_to_run, here, next, listens, unsubscribes, creates, runs, begins, ends,
  cancels,
}
use thumbelina.Subagents.Stages.{stage, Keeps, pending_first, Step-Keeps}

-- no id twice
unfoldable pub IsDistinct : List String → Type 0
IsDistinct [] = Unit
IsDistinct (x ∷ xs) = (contains xs x ≡ false) × IsDistinct xs

-- each agent that was left to run is there, and has left PENDING; and each was left to run once
pub record IsExecuted (s : System) : Type 0 where
  once : IsDistinct s.executions
  there :
      (x : String)
      → contains s.executions x ≡ true
      → (t : Subagent) × (lookup x s.manager.agents ≡ some t) × (1 ≤ stage t.status)

-- a step that leaves nothing new to run
Keeps-IsExecuted :
    {s s' : System}
    → Keeps s.manager.agents s'.manager.agents
    → s'.executions ≡ s.executions
    → IsExecuted s
    → IsExecuted s'
Keeps-IsExecuted {s} {s'} k e h = record {
  once = subst IsDistinct (sym e) h.once;
  there = λ x c.
      let (t, f, o) = h.there x (ap (λ l. contains l x) (sym e) ∙ c) in
      let (u, g, l) = k x t f in (u, g, omega (arith, o, l.order));
}

-- an agent that is PENDING was never left to run
not_yet_executed :
    (id : String) (a : Subagent) (s : System)
    → lookup id s.manager.agents ≡ some a
    → is_pending a.status ≡ true
    → IsExecuted s
    → contains s.executions id ≡ false
not_yet_executed id a s e p h = elim (Bool-cases (contains s.executions id)) [
  | inl c ↦
      let (t, f, o) = h.there id c in
      let same : stage t.status ≡ stage a.status =
        ap (λ (u : Subagent). stage u.status) (some_inj.0 (sym f ∙ e)) in
      absurd (omega (arith, o, same, pending_first a.status p))
  | inr c ↦ c
]

-- the agent is left to run
abbrev run_now : String → ℕ → Subagent → System → System
run_now id now a s =
    left_to_run id
      (none, put (record a { status = SubagentStatus.running; started_at = some now }) id s.manager)
      s

run_now-IsExecuted :
    (id : String) (now : ℕ) (a : Subagent) (s : System)
    → lookup id s.manager.agents ≡ some a
    → is_pending a.status ≡ true
    → Keeps s.manager.agents (run_now id now a s).manager.agents
    → IsExecuted s
    → IsExecuted (run_now id now a s)
unfolding IsDistinct stage
run_now-IsExecuted id now a s e p k h =
    let b : Subagent = record a { status = SubagentStatus.running; started_at = some now } in
    let ran : lookup id (insert id b s.manager.agents) ≡ some b =
      lookup-insert id id b s.manager.agents ∙ ground (arith, eq_refl id) in
    record {
      once = (not_yet_executed id a s e p h, h.once);
      there = λ x c. elim (Bool-cases (str_eq id x)) [
        | inl same ↦ (
          b,
          ap (λ y. lookup y (insert id b s.manager.agents)) (sym ((eq_iff id x).0 same)) ∙ ran,
          omega arith,
        )
        | inr other ↦
            let (t, f, o) = h.there x (ground (arith, c, other)) in
            let (u, g, l) = k x t f in (u, g, omega (arith, o, l.order))
      ];
    }

run_found-IsExecuted :
    (id : String) (now : ℕ) (o : Option Subagent) (s : System)
    → lookup id s.manager.agents ≡ o
    → Keeps s.manager.agents (run_found id now o s.manager).1.agents
    → IsExecuted s
    → IsExecuted (left_to_run id (run_found id now o s.manager) s)
unfolding run_found
run_found-IsExecuted id now none s e k h = Keeps-IsExecuted k refl h
run_found-IsExecuted id now (some a) s e k h =
    if_known
      (λ (r : Option Failure × SubagentManager).
        Keeps s.manager.agents r.1.agents → IsExecuted (left_to_run id r s))
      (is_pending a.status) (λ p l. run_now-IsExecuted id now a s e p l h)
      (λ p l. Keeps-IsExecuted l refl h) k

Step-IsExecuted : {s s' : System} → Step s s' → IsExecuted s → IsExecuted s'
unfolding run_agent
Step-IsExecuted {s} (listens l) h = Keeps-IsExecuted (Step-Keeps {s = s} (listens l)) refl h
Step-IsExecuted {s} (unsubscribes l) h =
    Keeps-IsExecuted (Step-Keeps {s = s} (unsubscribes l)) refl h
Step-IsExecuted {s} (creates id task conversation e) h =
    Keeps-IsExecuted (Step-Keeps {s = s} (creates id task conversation e)) refl h
Step-IsExecuted {s} (runs id now) h =
    run_found-IsExecuted id now (lookup id s.manager.agents) s refl
      (Step-Keeps {s = s} (runs id now)) h
Step-IsExecuted {s} (begins id before after e) h =
    Keeps-IsExecuted (Step-Keeps {s = s} (begins id before after e)) refl h
Step-IsExecuted {s} (ends id before after outcome now e) h =
    Keeps-IsExecuted (Step-Keeps {s = s} (ends id before after outcome now e)) refl h
Step-IsExecuted {s} (cancels id now) h =
    Keeps-IsExecuted (Step-Keeps {s = s} (cancels id now)) refl h

-- `SubagentManager(max_agents)`
abbrev pub new_manager : ℕ → SubagentManager
new_manager max_agents = record {
  max_agents = max_agents;
  agents = [];
  listeners = [];
  delivered = [];
}

abbrev pub new_system : ℕ → System
new_system max_agents = record {
  manager = new_manager max_agents;
  scheduled = [];
  working = [];
  executions = [];
}

Steps-IsExecuted : {n : ℕ} {s : System} → Steps (new_system n) s → IsExecuted s
unfolding IsDistinct
Steps-IsExecuted here = record { once = tt; there = λ x c. cc }
Steps-IsExecuted (next r st) = Step-IsExecuted st (Steps-IsExecuted r)

contains_at : (x : String) (before after : List String) → contains (before ++ x ∷ after) x ≡ true
contains_at x [] after = ground (arith, eq_refl x)
contains_at x (y ∷ before) after = ground (arith, contains_at x before after)

contains_middle :
    (y x : String) (before after : List String)
    → contains (before ++ x ∷ after) y ≡ false
    → str_eq x y ≡ false
contains_middle y x [] after h = ground (arith, h)
contains_middle y x (z ∷ before) after h = ground (arith, contains_middle y x before after, h)

distinct_at :
    (before after : List String) (x : String)
    → IsDistinct (before ++ x ∷ after)
    → contains (before ++ after) x ≡ false
unfolding IsDistinct
distinct_at [] after x h = h.0
distinct_at (y ∷ before) after x h = ground (
  arith,
  distinct_at before after x h.1,
  h.0,
  contains_middle y x before after h.0,
  eq_iff y x,
  eq_iff x y,
)

-- In every state that steps lead to from a new manager, an agent was left to run at most once, and one
-- that was is in the table and no longer PENDING.
pub executed_once :
    (n : ℕ) (s : System) (before after : List String) (x : String)
    → Steps (new_system n) s
    → s.executions ≡ before ++ x ∷ after
    → (contains (before ++ after) x ≡ false)
      × ((t : Subagent) × (lookup x s.manager.agents ≡ some t) × (is_pending t.status ≡ false))
executed_once n s before after x r e =
    let h = Steps-IsExecuted r in
    let (t, f, o) = h.there x (ap (λ l. contains l x) e ∙ contains_at x before after) in
    (
      distinct_at before after x (subst IsDistinct e h.once),
      (t, f, ground (arith, o, pending_first t.status)),
    )
