-- ===== src/Agent/Closed.antt =====
-- What the gate executes when nobody consents (src/thumbelina/agent/graph.py, with the broker of
-- src/thumbelina/tools/approvals.py).
use thumbelina.Prelude.{
  String, Bool, true, false, Option, none, some, List, [], ◌∷◌, map, keep, str_eq, ◌≡◌, refl, ap,
  Bool-cases, inl, inr,
}
use thumbelina.Permissions.Modes.{PermissionDecision}
use thumbelina.Approvals.{Decision, deny_all, call_id_of}
use thumbelina.ToolLoop.{ToolCall}
use thumbelina.Agent.Gate.{permission_gate, approved_in, request_of, allows, confirms, ask}
use thumbelina.Agent.Executed.{Passes, answered, goes, stops, stops-some}
use thumbelina.Agent.Passed.{refusals, permission_gate-Passes}

nobody_approved :
    (l : List (Option String)) (id : String)
    → approved_in (map (λ c. record { call_id = call_id_of c; approved = false }) l) id ≡ false
unfolding approved_in
nobody_approved [] id = refl
nobody_approved (c ∷ cs) id = elim (Bool-cases (str_eq (call_id_of c) id)) [
  | inl same ↦ rw same (nobody_approved cs id)
  | inr other ↦ rw other (nobody_approved cs id)
]

module _ (decide : ToolCall → PermissionDecision) (normalize : String → String) where
  -- the broker's answer when the user is away, disconnects or the request times out
  abbrev pub refusal_of : List ToolCall → List Decision
  refusal_of calls =
      deny_all (request_of (map (ask decide normalize) (keep (confirms decide normalize) calls)))

  answered-refusal_of :
      (approver : Bool) (calls : List ToolCall) (c : ToolCall)
      → answered approver (some (refusal_of calls)) c ≡ false
  unfolding answered
  answered-refusal_of false calls c = refl
  answered-refusal_of true calls c =
      nobody_approved
        (map (λ a. some a.call_id)
          (map (ask decide normalize) (keep (confirms decide normalize) calls)))
        c.id

  -- nobody can be asked: whatever answer is resumed with is not read
  answered-unattended :
      (resumed : Option (List Decision)) (c : ToolCall) → answered false resumed c ≡ false
  unfolding answered
  answered-unattended none c = refl
  answered-unattended (some ds) c = refl

  stops-unattended :
      (resumed : Option (List Decision)) (l : List ToolCall)
      → stops decide normalize false resumed l ≡ false
  unfolding stops
  stops-unattended resumed [] = refl
  stops-unattended resumed (c ∷ cs) = refl

  keep-goes_unanswered :
      (approver : Bool) (resumed : Option (List Decision))
      → ((c : ToolCall) → answered approver resumed c ≡ false)
      → (cs : List ToolCall)
      → keep (goes decide normalize approver resumed) cs ≡ keep (allows decide normalize) cs
  keep-goes_unanswered approver resumed g [] = refl
  keep-goes_unanswered approver resumed g (c ∷ cs) = elim (Bool-cases (allows decide normalize c)) [
    | inl h ↦ rw h (ap (◌∷◌ c) (keep-goes_unanswered approver resumed g cs))
    | inr h ↦ elim (Bool-cases (confirms decide normalize c)) [
      | inl wanted ↦ rw (h, wanted, g c) (keep-goes_unanswered approver resumed g cs)
      | inr unwanted ↦ rw (h, unwanted) (keep-goes_unanswered approver resumed g cs)
    ]
  ]

  -- the gate passes, executes the calls that the policy allows by itself and refuses the others
  unfoldable pub ExecutesAllowed : Bool → Option (List Decision) → List ToolCall → Type 0
  ExecutesAllowed approver resumed calls =
      Passes decide normalize (permission_gate decide normalize approver resumed calls)
        (keep (allows decide normalize) calls) (refusals decide normalize approver resumed calls)

  unanswered-ExecutesAllowed :
      (approver : Bool) (resumed : Option (List Decision))
      → ((c : ToolCall) → answered approver resumed c ≡ false)
      → (calls : List ToolCall)
      → stops decide normalize approver resumed (keep (confirms decide normalize) calls) ≡ false
      → ExecutesAllowed approver resumed calls
  unfolding ExecutesAllowed
  unanswered-ExecutesAllowed approver resumed g calls h =
      rw (← keep-goes_unanswered approver resumed g calls)
        (permission_gate-Passes decide normalize approver resumed calls h)

  -- When nobody can be asked, whether or not there is an answer to resume with, and when the broker
  -- answers with its refusal of the whole request (the connection closes, the time is over), whether
  -- or not somebody can be asked: the gate does not stop, executes exactly the calls that the policy
  -- allows by itself and has a refusal for each of the others.
  pub permission_gate-deny_all :
      (resumed : Option (List Decision)) (approver : Bool) (calls : List ToolCall)
      → ExecutesAllowed false resumed calls
        × ExecutesAllowed approver (some (refusal_of calls)) calls
  permission_gate-deny_all resumed approver calls = (
    unanswered-ExecutesAllowed false resumed (answered-unattended resumed) calls
        (stops-unattended resumed (keep (confirms decide normalize) calls)),
    unanswered-ExecutesAllowed approver (some (refusal_of calls))
        (answered-refusal_of approver calls) calls
        (stops-some decide normalize approver (refusal_of calls)
          (keep (confirms decide normalize) calls)),
  )
