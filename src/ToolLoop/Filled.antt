-- ===== src/ToolLoop/Filled.antt =====
-- What each call of a round is answered by (src/thumbelina/subagents/manager.py).
use thumbelina.Prelude.{
  String, Bool, true, false, none, some, List, [], ◌∷◌, map, Dict, lookup, insert, lookup-insert,
  contains, eq_refl, if◌then◌else◌, if_known, if_both, ◌≡◌, refl, ap, ◌∙◌, arith,
}
use thumbelina.Permissions.Modes.{PermissionDecision}
use thumbelina.ToolLoop.{
  ToolCall, ToolMessage, Tools, is_allow, message_of, by_id, produced_or, refusal, fill_round,
  fill_in, runnable, round_messages,
}
use thumbelina.ToolLoop.Gathered.{any_raises, tool_node-message_of}
use thumbelina.Subagents.Executions.{IsDistinct}

abbrev pub ids : List ToolCall → List String
ids calls = map (λ (tc : ToolCall). tc.id) calls

module _ (decide : ToolCall → PermissionDecision) (tools : Tools) where
  -- the answer to a call by itself
  abbrev pub answer_to : ToolCall → ToolMessage
  answer_to tc =
      if is_allow (decide tc).verdict then message_of tools tc else refusal (decide tc) tc.id

  abbrev executed : List ToolCall → Dict ToolMessage → Dict ToolMessage
  executed calls d = by_id (map (message_of tools) (runnable decide calls)) d

  lookup-executed :
      (x : String) (calls : List ToolCall) (d : Dict ToolMessage)
      → contains (ids calls) x ≡ false
      → lookup x (executed calls d) ≡ lookup x d
  unfolding by_id runnable message_of
  lookup-executed x [] d h = refl
  lookup-executed x (tc ∷ tcs) d h =
      if_both (λ (l : List ToolCall). lookup x (by_id (map (message_of tools) l) d) ≡ lookup x d)
        (is_allow (decide tc).verdict)
        (lookup-executed x tcs (insert tc.id (message_of tools tc) d) (ground (arith, h))
          ∙ lookup-insert tc.id x (message_of tools tc) d
          ∙ ground (arith, h))
        (lookup-executed x tcs d (ground (arith, h)))

  -- an allowed call of a list of different ids finds its own message
  unfoldable Found : Dict ToolMessage → List ToolCall → Type 0
  Found e [] = Unit
  Found e (tc ∷ tcs) =
      (is_allow (decide tc).verdict ≡ true → lookup tc.id e ≡ some (message_of tools tc))
      × Found e tcs

  executed-Found :
      (calls : List ToolCall) (d : Dict ToolMessage)
      → IsDistinct (ids calls)
      → Found (executed calls d) calls
  unfolding Found IsDistinct by_id runnable message_of
  executed-Found [] d h = tt
  executed-Found (tc ∷ tcs) d h =
      let m = message_of tools tc in
      if_known (λ (l : List ToolCall). Found (by_id (map (message_of tools) l) d) (tc ∷ tcs))
        (is_allow (decide tc).verdict)
        (λ allowed. (
          (λ a.
              lookup-executed tc.id tcs (insert tc.id m d) h.0
              ∙ lookup-insert tc.id tc.id m d
              ∙ ground (arith, eq_refl tc.id)),
          executed-Found tcs (insert tc.id m d) h.1,
        ))
        (λ refused. ((λ a. ground (arith, a, refused)), executed-Found tcs d h.1))

  filled :
      (e : Dict ToolMessage) (calls : List ToolCall)
      → Found e calls
      → fill_in decide e calls ≡ map answer_to calls
  unfolding fill_in Found produced_or
  filled e [] h = refl
  filled e (tc ∷ tcs) h =
      if_known
        (λ (m : ToolMessage).
          (if is_allow (decide tc).verdict
            then produced_or tc.id (lookup tc.id e) ∷ fill_in decide e tcs
            else refusal (decide tc) tc.id ∷ fill_in decide e tcs)
          ≡ m ∷ map answer_to tcs)
        (is_allow (decide tc).verdict)
        (λ allowed. rw (allowed, h.0 allowed) (ap (◌∷◌ (message_of tools tc)) (filled e tcs h.1)))
        (λ refused. rw refused (ap (◌∷◌ (refusal (decide tc) tc.id)) (filled e tcs h.1)))

  -- Where the calls of a reply have different ids: if an allowed call raises (its tool runs into a
  -- `TimeoutError` and no timeout is set), the round raises and has no messages; otherwise its messages
  -- are, in the order of the calls, the one that executing the call gives for each call that the gate
  -- allows, and a refusal with the gate's reason for each other call.
  pub round_messages_lem :
      (calls : List ToolCall)
      → IsDistinct (ids calls)
      → round_messages decide tools calls
        ≡ (if any_raises tools (runnable decide calls) then none else some (map answer_to calls))
  unfolding round_messages
  round_messages_lem calls h =
      ap (fill_round decide calls) (tool_node-message_of tools (runnable decide calls))
      ∙ ended (any_raises tools (runnable decide calls))
    where
      ended :
          (b : Bool)
          → fill_round decide calls
              (if b then none else some (map (message_of tools) (runnable decide calls)))
            ≡ (if b then none else some (map answer_to calls))
      ended true = refl
      ended false =
          ap (λ ms. some ms) (filled (executed calls []) calls (executed-Found calls [] h))
