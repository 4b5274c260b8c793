-- ===== src/Agent/Messages.antt =====
-- What the node leaves of a turn with tool calls (src/thumbelina/agent/graph.py).
use thumbelina.Prelude.{
  ℕ, String, Bool, true, false, not, ◌&&◌, ◌||◌, Option, none, some, List, [], ◌∷◌, map, Dict,
  lookup, keep, if◌then◌else◌, ◌≡◌, refl, ap, ◌∙◌,
}
use thumbelina.Permissions.Modes.{PermissionDecision, Verdict}
use thumbelina.Approvals.{Decision}
use thumbelina.Subagents.Executions.{IsDistinct}
use thumbelina.ToolLoop.{
  ToolCall, ToolMessage, Content, Tools, is_allow, message_of, tool_node, by_id,
}
use thumbelina.ToolLoop.Gathered.{any_raises, tool_node-message_of}
use thumbelina.ToolLoop.Filled.{ids}
use thumbelina.Agent.Gate.{CallVerdict, passed, is_deny, is_confirm, denies, confirms, refuse}
use thumbelina.Agent.Executed.{Passes, answered, late_refusal, goes, stops}
use thumbelina.Agent.Passed.{refusals, permission_gate-Passes}
use thumbelina.Agent.Node.{
  CallStatus, CallResult, NodeRun, NodeResult, ran, message_for, results_of, run_passed,
  run_executed, tool_node_node,
}
use thumbelina.Agent.Answered.{by_id-append, Found, chosen-Found, Answers, ordered-Answers}

-- the three ways to answer a call exclude each other
message_for-verdict :
    (v : Verdict) (a : Bool) (x y z : ToolMessage) (e d d' : Option ToolMessage)
    → e ≡ (if is_allow v || (is_confirm v && a) then some x else none)
    → d' ≡ (if is_deny v then some y else none)
    → d ≡ (if is_confirm v && not a then some z else d')
    → message_for e d
      ≡ (if is_allow v || (is_confirm v && a) then x else if is_deny v then y else z) ∷ []
unfolding message_for
message_for-verdict Verdict.allow a x y z e d d' h k l = rw h refl
message_for-verdict Verdict.deny a x y z e d d' h k l = rw (h, l, k) refl
message_for-verdict Verdict.confirm true x y z e d d' h k l = rw h refl
message_for-verdict Verdict.confirm false x y z e d d' h k l = rw (h, l) refl

-- an id with the content of its message
abbrev answered_with : String → Content → String × Content
answered_with id content = (id, content)

results_of-contents :
    (tools : Tools) (statuses : Dict CallStatus) (cs : List ToolCall)
    → map
        (λ (r : CallResult). answered_with r.call_id r.content)
        (results_of statuses cs (map (message_of tools) cs))
      ≡ map (λ c. answered_with c.id (message_of tools c).content) cs
unfolding results_of
results_of-contents tools statuses [] = refl
results_of-contents tools statuses (c ∷ cs) =
    ap (◌∷◌ (c.id, (message_of tools c).content)) (results_of-contents tools statuses cs)

map_recorded :
    (verdicts : Dict CallVerdict) (cs : List ToolCall)
    → map (λ (e : ToolCall × Option CallVerdict). e.0) (map (λ c. (c, lookup c.id verdicts)) cs)
      ≡ cs
map_recorded verdicts [] = refl
map_recorded verdicts (c ∷ cs) = ap (◌∷◌ c) (map_recorded verdicts cs)

message_of-id : (tools : Tools) (c : ToolCall) → (message_of tools c).tool_call_id ≡ c.id
unfolding message_of
message_of-id tools c = refl

late_refusal-id :
    (decide : ToolCall → PermissionDecision) (normalize : String → String) (approver : Bool)
    (c : ToolCall)
    → (late_refusal decide normalize approver c).tool_call_id ≡ c.id
unfolding late_refusal
late_refusal-id decide normalize true c = refl
late_refusal-id decide normalize false c = refl

module _ (decide : ToolCall → PermissionDecision) (normalize : String → String) (tools : Tools)
    (approver : Bool) (resumed : Option (List Decision)) where
  -- the message of a call
  abbrev pub answer_of : ToolCall → ToolMessage
  answer_of c =
      if goes decide normalize approver resumed c
      then message_of tools c
      else if denies decide normalize c
      then refuse decide normalize c
      else late_refusal decide normalize approver c

  abbrev wants : ToolCall → Bool
  wants c = confirms decide normalize c && not (answered approver resumed c)

  Found-Answers :
      (e d d' : Dict ToolMessage) (calls : List ToolCall)
      → Found (goes decide normalize approver resumed) (message_of tools) e [] calls
      → Found (denies decide normalize) (refuse decide normalize) d' [] calls
      → Found wants (late_refusal decide normalize approver) d d' calls
      → Answers answer_of e d calls
  unfolding Found Answers lookup
  Found-Answers e d d' [] h k l = tt
  Found-Answers e d d' (c ∷ cs) h k l = (
    message_for-verdict (decide c).verdict (answered approver resumed c) (message_of tools c)
        (refuse decide normalize c) (late_refusal decide normalize approver c) (lookup c.id e)
        (lookup c.id d) (lookup c.id d') h.0 k.0 l.0,
    Found-Answers e d d' cs h.1 k.1 l.1,
  )

  -- what a run of the node leaves
  unfoldable pub Leaves : NodeResult → List ToolCall → Type 0
  Leaves result calls =
      (r : NodeRun) × (result ≡ ran r)
      × (r.messages ≡ map answer_of calls)
      × (map (λ (e : ToolCall × Option CallVerdict). e.0) r.recorded ≡ calls)
      × (map (λ (o : CallResult). answered_with o.call_id o.content) r.results
          ≡ map (λ c. answered_with c.id (message_of tools c).content)
              (keep (goes decide normalize approver resumed) calls))

  by_id-Answers :
      (calls : List ToolCall)
      → IsDistinct (ids calls)
      → Answers answer_of
          (by_id (map (message_of tools) (keep (goes decide normalize approver resumed) calls)) [])
          (by_id (refusals decide normalize approver resumed calls) [])
          calls
  unfolding refusals
  by_id-Answers calls h =
      let first = map (refuse decide normalize) (keep (denies decide normalize) calls) in
      let rest = map (late_refusal decide normalize approver) (keep wants calls) in
      rw (by_id-append first rest []) (
        Found-Answers
          (by_id (map (message_of tools) (keep (goes decide normalize approver resumed) calls)) [])
          (by_id rest (by_id first [])) (by_id first []) calls
          (chosen-Found (goes decide normalize approver resumed) (message_of tools)
            (message_of-id tools) calls [] h)
          (chosen-Found (denies decide normalize) (refuse decide normalize) (λ c. refl) calls [] h)
          (chosen-Found wants (late_refusal decide normalize approver)
            (late_refusal-id decide normalize approver) calls (by_id first []) h))

  returned_messages :
      (calls : List ToolCall)
      → any_raises tools calls ≡ false
      → tool_node tools calls ≡ some (map (message_of tools) calls)
  returned_messages calls g =
      tool_node-message_of tools calls
      ∙ ap (λ b. if b then none else some (map (message_of tools) calls)) g

  run_passed-Leaves :
      (duration : ToolCall → ℕ) (writer : Bool) (ending : List ToolCall → List ToolCall)
      (calls : List ToolCall) (verdicts : Dict CallVerdict)
      → IsDistinct (ids calls)
      → any_raises tools (keep (goes decide normalize approver resumed) calls) ≡ false
      → Leaves
          (run_passed tools duration writer ending calls (
            passed
              (keep (goes decide normalize approver resumed) calls)
              verdicts
              (refusals decide normalize approver resumed calls)))
          calls
  unfolding Leaves run_passed run_executed
  run_passed-Leaves duration writer ending calls verdicts h g = rw (returned_messages _ g) (
    _,
    refl,
    ordered-Answers answer_of _ _ calls (by_id-Answers calls h),
    map_recorded verdicts calls,
    results_of-contents tools _ (keep (goes decide normalize approver resumed) calls),
  )

  -- Where the calls of the turn have different ids, the gate does not stop to ask, and no executed tool
  -- raises a `TimeoutError` without a timeout being set: the node leaves one message for each call, in
  -- the order of the calls: what executing gives for a call that the policy allows or the user
  -- approved, and the gate's refusal for each other call. The trajectory has each call once, and a
  -- result, with that content, for the executed calls only.
  pub tool_node_node-Leaves :
      (duration : ToolCall → ℕ) (writer : Bool) (ending : List ToolCall → List ToolCall)
      (calls : List ToolCall)
      → IsDistinct (ids calls)
      → stops decide normalize approver resumed (keep (confirms decide normalize) calls) ≡ false
      → any_raises tools (keep (goes decide normalize approver resumed) calls) ≡ false
      → Leaves
          (tool_node_node tools duration decide normalize approver resumed writer ending calls)
          calls
  unfolding Passes tool_node_node
  tool_node_node-Leaves duration writer ending calls h k g =
      let (v, e) = permission_gate-Passes decide normalize approver resumed calls k in
      rw e (run_passed-Leaves duration writer ending calls v h g)
