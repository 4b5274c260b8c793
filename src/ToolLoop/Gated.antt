-- ===== src/ToolLoop/Gated.antt =====
-- Only calls that the gate allows are executed (src/thumbelina/subagents/manager.py).
use thumbelina.Prelude.{
  ℕ, zero, suc, String, Bool, true, Option, none, some, List, [], ◌∷◌, ◌++◌, map, contains,
  if_known, ◌≡◌, refl,
}
use thumbelina.Permissions.Modes.{PermissionMode, PermissionDecision, Verdict}
use thumbelina.Permissions.Shell.{Regex}
use thumbelina.Permissions.Paths.{PathContext}
use thumbelina.Permissions.Gate.{in_read_only_tools, is_tool_available}
use thumbelina.Permissions.Floor.{read_only_offer}
use thumbelina.ToolLoop.{
  ToolCall, Message, Reply, replied, unanswered, Tools, Run, is_allow, invoked_by, runnable,
  round_messages, wrap_up, go_round, ToolMessage, answer, rounds, run_tool_loop, first_messages,
  gate, ai, tool,
}

-- what holds of each of the calls
unfoldable pub Each : (ToolCall → Type 0) → List ToolCall → Type 0
Each P [] = Unit
Each P (tc ∷ tcs) = P tc × Each P tcs

Each-append :
    (P : ToolCall → Type 0) (xs ys : List ToolCall) → Each P xs → Each P ys → Each P (xs ++ ys)
unfolding Each
Each-append P [] ys h k = k
Each-append P (x ∷ xs) ys h k = (h.0, Each-append P xs ys h.1 k)

-- a call that the gate allows and whose tool is there
abbrev pub IsAllowed : (ToolCall → PermissionDecision) → Tools → ToolCall → Type 0
IsAllowed decide tools tc =
    ((decide tc).verdict ≡ Verdict.allow) × (contains tools.names tc.name ≡ true)

allow_known : (v : Verdict) → is_allow v ≡ true → v ≡ Verdict.allow
allow_known Verdict.allow h = refl
allow_known Verdict.confirm h = cc
allow_known Verdict.deny h = cc

module _ (decide : ToolCall → PermissionDecision) (tools : Tools)
    (model bare : List Message → Reply) where
  round-IsAllowed :
      (calls : List ToolCall)
      → Each (IsAllowed decide tools) (invoked_by tools (runnable decide calls))
  unfolding Each invoked_by runnable
  round-IsAllowed [] = tt
  round-IsAllowed (tc ∷ tcs) =
      if_known (λ (l : List ToolCall). Each (IsAllowed decide tools) (invoked_by tools l))
        (is_allow (decide tc).verdict)
        (λ allowed.
          if_known (λ (l : List ToolCall). Each (IsAllowed decide tools) l)
            (contains tools.names tc.name)
            (λ known. ((allow_known (decide tc).verdict allowed, known), round-IsAllowed tcs))
            (λ unknown. round-IsAllowed tcs))
        (λ refused. round-IsAllowed tcs)

  -- one round, where the rounds that follow keep what holds
  go_round-IsAllowed :
      (messages : List Message) (invoked : List ToolCall) (text : String)
      (next : List Message → List ToolCall → String → Run) (o : Option (List ToolMessage))
      → ((ms : List Message) (is : List ToolCall) (last : String)
          → Each (IsAllowed decide tools) is
          → Each (IsAllowed decide tools) (next ms is last).invoked)
      → Each (IsAllowed decide tools) invoked
      → Each
          (IsAllowed decide tools)
          (go_round decide tools model bare messages invoked text next o).invoked
  unfolding go_round
  go_round-IsAllowed messages invoked text next none f h = h
  go_round-IsAllowed messages invoked text next (some answers) f h =
      f (messages ++ map tool answers) invoked text h

  answer-IsAllowed :
      (messages : List Message) (invoked : List ToolCall) (r : Reply)
      (next : List Message → List ToolCall → String → Run)
      → ((ms : List Message) (is : List ToolCall) (last : String)
          → Each (IsAllowed decide tools) is
          → Each (IsAllowed decide tools) (next ms is last).invoked)
      → Each (IsAllowed decide tools) invoked
      → Each
          (IsAllowed decide tools)
          (answer decide tools model bare messages invoked r next).invoked
  unfolding answer
  answer-IsAllowed messages invoked (unanswered e) next f h = h
  answer-IsAllowed messages invoked (replied text []) next f h = h
  answer-IsAllowed messages invoked (replied text (tc ∷ tcs)) next f h =
      go_round-IsAllowed (messages ++ ai text (tc ∷ tcs) ∷ [])
        (invoked ++ invoked_by tools (runnable decide (tc ∷ tcs))) text next
        (round_messages decide tools (tc ∷ tcs)) f
        (Each-append (IsAllowed decide tools) invoked
          (invoked_by tools (runnable decide (tc ∷ tcs))) h (round-IsAllowed (tc ∷ tcs)))

  rounds-IsAllowed :
      (n : ℕ) (messages : List Message) (invoked : List ToolCall) (last : String)
      → Each (IsAllowed decide tools) invoked
      → Each
          (IsAllowed decide tools)
          (rounds decide tools model bare n messages invoked last).invoked
  unfolding rounds wrap_up
  rounds-IsAllowed zero messages invoked last h = h
  rounds-IsAllowed (suc n) messages invoked last h =
      answer-IsAllowed messages invoked (model messages) (rounds decide tools model bare n)
        (rounds-IsAllowed n) h

Each-map :
    (P Q : ToolCall → Type 0)
    → ((tc : ToolCall) → P tc → Q tc)
    → (l : List ToolCall) → Each P l
    → Each Q l
unfolding Each
Each-map P Q f [] h = tt
Each-map P Q f (tc ∷ tcs) h = (f tc h.0, Each-map P Q f tcs h.1)

module _ (r : Regex) (x : PathContext) (w : Bool) (tools : Tools)
    (model bare : List Message → Reply) (max_rounds : ℕ) (task : String) where
  -- the run in a permission mode
  abbrev run_in : PermissionMode → Run
  run_in mode = run_tool_loop (gate r x mode w) tools model bare max_rounds task

  run-IsAllowed :
      (mode : PermissionMode) → Each (IsAllowed (gate r x mode w) tools) (run_in mode).invoked
  unfolding run_tool_loop Each
  run-IsAllowed mode =
      rounds-IsAllowed (gate r x mode w) tools model bare max_rounds (first_messages task) [] "" tt

  -- Whatever the model replies and however the tools end, in every mode: each call whose tool the loop
  -- invokes is one that the gate allows outright and whose tool is among the given ones; in READ_ONLY it
  -- is moreover a call of the read-only roster.
  pub invoked-IsAllowed :
      (mode : PermissionMode)
      → Each (IsAllowed (gate r x mode w) tools) (run_in mode).invoked
        × Each (λ tc. in_read_only_tools tc.name ≡ true) (run_in PermissionMode.read_only).invoked
  unfolding is_tool_available
  invoked-IsAllowed mode = (
    run-IsAllowed mode,
    Each-map (IsAllowed (gate r x PermissionMode.read_only w) tools)
        (λ tc. in_read_only_tools tc.name ≡ true)
        (λ tc a. (read_only_offer r x tc.args w mode tc.name).0.0 a.0)
        (run_in PermissionMode.read_only).invoked (run-IsAllowed PermissionMode.read_only),
  )
