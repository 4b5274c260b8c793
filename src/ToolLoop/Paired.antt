-- ===== src/ToolLoop/Paired.antt =====
-- The history that the tool loop builds (src/thumbelina/subagents/manager.py).
use thumbelina.Prelude.{
  ℕ, zero, suc, ◌+◌, ◌≤◌, String, Option, none, some, List, [], ◌∷◌, ◌++◌, map, Dict, lookup,
  insert, lookup-insert, eq_iff, if_both, ◌≡◌, refl, sym, ap, ◌∙◌, Bool, false, if◌then◌else◌,
  Bool-cases, ◌⊎◌, inl, inr, arith,
}
use mathlib.Core.Path.{subst}
use thumbelina.Permissions.Modes.{PermissionDecision}
use thumbelina.ToolLoop.{
  ToolCall, ToolMessage, Message, Reply, replied, unanswered, Tools, Run, concluded, limited,
  is_allow, by_id, invoked_by, produced_or, fill_in, runnable, round_messages, wrap_up, fill_round,
  message_of, broken, go_round, answer, rounds, run_tool_loop, first_messages, ai, tool,
}
use thumbelina.ToolLoop.Gathered.{any_raises, tool_node-message_of, any_raises-has_timeout}

-- A history that a number of rounds made from a first one: each is a reply with its calls, and tool
-- messages with the ids of the calls in their order.
pub data History (start : List Message) : ℕ → List Message → Type 0 where
  begun : History start 0 start
  round :
      {n : ℕ} {ms : List Message} (text : String) (calls : List ToolCall)
      (answers : List ToolMessage)
      → History start n ms
      → map (λ (m : ToolMessage). m.tool_call_id) answers ≡ map (λ (tc : ToolCall). tc.id) calls
      → History start (suc n) ((ms ++ ai text calls ∷ []) ++ map tool answers)

-- a run that is a history of at most so many rounds, and perhaps a last reply: one without calls, or
-- one whose tools raised, which they do only without a timeout
pub record IsPaired (has_timeout : Bool) (start : List Message) (limit : ℕ) (run : Run)
    : Type 0 where
  pub count : ℕ
  pub history : List Message
  pub made : History start count history
  pub bounded : count ≤ limit
  pub full : (text : String) → run.ending ≡ limited text → count ≡ limit
  pub messages :
      (run.messages ≡ history)
      ⊎ ((text : String) × (run.messages ≡ history ++ ai text [] ∷ [])
          × (run.ending ≡ concluded text))
      ⊎ ((text : String) × (calls : List ToolCall) × (run.messages ≡ history ++ ai text calls ∷ [])
          × (run.ending ≡ broken "TypeError")
          × (has_timeout ≡ false))

module _ (decide : ToolCall → PermissionDecision) (tools : Tools) where
  -- the message that stands under an id has the id
  IsKeyed : Dict ToolMessage → Type 0
  IsKeyed d = (x : String) (m : ToolMessage) → lookup x d ≡ some m → m.tool_call_id ≡ x

  by_id-IsKeyed : (ms : List ToolMessage) (d : Dict ToolMessage) → IsKeyed d → IsKeyed (by_id ms d)
  unfolding by_id IsKeyed
  by_id-IsKeyed [] d h = h
  by_id-IsKeyed (m ∷ ms) d h = by_id-IsKeyed ms (insert m.tool_call_id m d) (λ x n e.
      ground (arith, lookup-insert m.tool_call_id x m d, eq_iff m.tool_call_id x, h x n, e))

  produced_id :
      (x : String) (o : Option ToolMessage)
      → ((m : ToolMessage) → o ≡ some m → m.tool_call_id ≡ x)
      → (produced_or x o).tool_call_id ≡ x
  unfolding produced_or
  produced_id x none h = refl
  produced_id x (some m) h = h m refl

  fill_in-ids :
      (e : Dict ToolMessage) (calls : List ToolCall)
      → IsKeyed e
      → map (λ (m : ToolMessage). m.tool_call_id) (fill_in decide e calls)
        ≡ map (λ (tc : ToolCall). tc.id) calls
  unfolding fill_in produced_or IsKeyed
  fill_in-ids e [] h = refl
  fill_in-ids e (tc ∷ tcs) h =
      let id_of = λ (m : ToolMessage). m.tool_call_id in
      if_both (λ (l : List ToolMessage). map id_of l ≡ tc.id ∷ map (λ (c : ToolCall). c.id) tcs)
        (is_allow (decide tc).verdict)
        (λ i. produced_id tc.id (lookup tc.id e) (h tc.id) i ∷ fill_in-ids e tcs h i)
        (ap (◌∷◌ tc.id) (fill_in-ids e tcs h))

  -- the messages of a round have the ids of its calls, or it raised
  round_messages-ids :
      (calls : List ToolCall)
      → ((answers : List ToolMessage) × (round_messages decide tools calls ≡ some answers)
          × (map (λ (m : ToolMessage). m.tool_call_id) answers
              ≡ map (λ (tc : ToolCall). tc.id) calls))
        ⊎ ((round_messages decide tools calls ≡ none) × (tools.has_timeout ≡ false))
  unfolding round_messages IsKeyed lookup
  round_messages-ids calls = elim (Bool-cases (any_raises tools (runnable decide calls))) [
    | inl h ↦ inr (
      ap (fill_round decide calls) (
          tool_node-message_of tools (runnable decide calls)
          ∙ ap (λ b. if b then none else some (map (message_of tools) (runnable decide calls))) h),
      any_raises-has_timeout tools (runnable decide calls) h,
    )
    | inr h ↦
        let ms = map (message_of tools) (runnable decide calls) in
        inl (
          fill_in decide (by_id ms []) calls,
          ap (fill_round decide calls) (
              tool_node-message_of tools (runnable decide calls)
              ∙ ap (λ b. if b then none else some ms) h),
          fill_in-ids (by_id ms []) calls (by_id-IsKeyed ms [] (λ x m e. cc)),
        )
  ]

module _ (decide : ToolCall → PermissionDecision) (tools : Tools)
    (model bare : List Message → Reply) (start : List Message) (limit : ℕ) where
  -- the rounds that follow a history, and the count of those still allowed
  answer-IsPaired :
      (n k : ℕ) (ms : List Message) (invoked : List ToolCall) (r : Reply)
      (next : List Message → List ToolCall → String → Run)
      → History start k ms
      → suc n + k ≡ limit
      → ((ms' : List Message) (is : List ToolCall) (last : String)
          → History start (suc k) ms'
          → IsPaired tools.has_timeout start limit (next ms' is last))
      → IsPaired tools.has_timeout start limit (answer decide tools model bare ms invoked r next)
  unfolding answer go_round
  answer-IsPaired n k ms invoked (unanswered e) next h b f = record {
    count = k;
    history = ms;
    made = h;
    bounded = omega (arith, b);
    full = λ t q. cc;
    messages = inl refl;
  }
  answer-IsPaired n k ms invoked (replied text []) next h b f = record {
    count = k;
    history = ms;
    made = h;
    bounded = omega (arith, b);
    full = λ t q. cc;
    messages = inr (inl (text, refl, refl));
  }
  answer-IsPaired n k ms invoked (replied text (tc ∷ tcs)) next h b f =
      let history = ms ++ ai text (tc ∷ tcs) ∷ [] in
      let is = invoked ++ invoked_by tools (runnable decide (tc ∷ tcs)) in
      elim (round_messages-ids decide tools (tc ∷ tcs)) [
        | inl (answers, e, g) ↦
            subst
              (λ o.
                IsPaired tools.has_timeout start limit
                  (go_round decide tools model bare history is text next o))
              (sym e) (f (history ++ map tool answers) is text (round text (tc ∷ tcs) answers h g))
        | inr (e, g) ↦
            subst
              (λ o.
                IsPaired tools.has_timeout start limit
                  (go_round decide tools model bare history is text next o))
              (sym e)
              (record {
                count = k;
                history = ms;
                made = h;
                bounded = omega (arith, b);
                full = λ t q. cc;
                messages = inr (inr (text, tc ∷ tcs, refl, refl, g));
              })
      ]

  rounds-IsPaired :
      (n k : ℕ) (ms : List Message) (invoked : List ToolCall) (last : String)
      → History start k ms
      → n + k ≡ limit
      → IsPaired tools.has_timeout start limit (rounds decide tools model bare n ms invoked last)
  unfolding rounds wrap_up
  rounds-IsPaired zero k ms invoked last h b = record {
    count = k;
    history = ms;
    made = h;
    bounded = omega (arith, b);
    full = λ t q. omega (arith, b);
    messages = inl refl;
  }
  rounds-IsPaired (suc n) k ms invoked last h b =
      answer-IsPaired n k ms invoked (model ms) (rounds decide tools model bare n) h b
        (λ ms' is l h'. rounds-IsPaired n (suc k) ms' is l h' (omega (arith, b)))

-- Whatever the model replies, the gate decides and the tools do: the loop ends, and the history that it
-- builds is the first messages followed by at most max_rounds rounds, each a reply with its calls and
-- tool messages with the ids of these calls in their order. The last message may be a reply without
-- calls, whose text is then the result; or a reply whose calls stay unanswered, since executing them
-- raised a `TypeError`, which happens only where no timeout is set. The run is cut by the limit only
-- after max_rounds rounds.
pub run_tool_loop-IsPaired :
    (decide : ToolCall → PermissionDecision) (tools : Tools) (model bare : List Message → Reply)
    (max_rounds : ℕ) (task : String)
    → IsPaired tools.has_timeout
        (first_messages task)
        max_rounds
        (run_tool_loop decide tools model bare max_rounds task)
unfolding run_tool_loop
run_tool_loop-IsPaired decide tools model bare max_rounds task =
    rounds-IsPaired decide tools model bare (first_messages task) max_rounds max_rounds 0
      (first_messages task) [] "" begun (omega arith)
