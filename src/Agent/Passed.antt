-- ===== src/Agent/Passed.antt =====
-- What the gate lets pass, refuses or asks about (src/thumbelina/agent/graph.py).
use thumbelina.Prelude.{
  ℕ, String, Bool, true, false, not, ◌&&◌, Option, none, some, List, [], ◌∷◌, ◌++◌, map, keep, ◌≡◌,
  ◌⊎◌, refl, ap, ◌∙◌, Bool-cases, inl, inr,
}
use thumbelina.Permissions.Modes.{PermissionDecision, Verdict}
use thumbelina.Approvals.{Decision}
use thumbelina.ToolLoop.{ToolCall, ToolMessage, is_allow}
use thumbelina.Agent.Gate.{
  GateState, interrupted, numbered, sort_indices, at_call, is_confirm, allows, denies, confirms,
  refuse, ask, settle_direct, settle_pending, permission_gate,
}
use thumbelina.Agent.Numbered.{sort_either, calls_of-keep, keep-keep, map_id}
use thumbelina.Agent.Executed.{Passes, answered, late_refusal, goes, stops, settle_pending-Passes}

module _ (decide : ToolCall → PermissionDecision) (normalize : String → String) where
  allows-confirms :
      (approver : Bool) (resumed : Option (List Decision)) (c : ToolCall)
      → allows decide normalize c ≡ true
      → (confirms decide normalize c && answered approver resumed c) ≡ false
  allows-confirms approver resumed c h = excludes (decide c).verdict h
    where
      excludes :
          (v : Verdict) → is_allow v ≡ true → (is_confirm v && answered approver resumed c) ≡ false
      excludes Verdict.allow h = refl
      excludes Verdict.deny h = refl
      excludes Verdict.confirm h = cc

  -- the calls that go, in their order
  sort_indices-goes :
      (approver : Bool) (resumed : Option (List Decision)) (calls : List ToolCall)
      → map
          (λ e. e.1)
          (sort_indices (
            keep (at_call (allows decide normalize)) (numbered 0 calls)
            ++ keep
                (at_call (answered approver resumed))
                (keep (at_call (confirms decide normalize)) (numbered 0 calls))))
        ≡ keep (goes decide normalize approver resumed) calls
  sort_indices-goes approver resumed calls =
      ap
        (λ l.
          map (λ e. e.1)
            (sort_indices (keep (at_call (allows decide normalize)) (numbered 0 calls) ++ l)))
        (keep-keep (confirms decide normalize) (answered approver resumed) 0 calls)
      ∙ ap (map (λ e. e.1)) (
          sort_either (allows decide normalize)
            (λ c. confirms decide normalize c && answered approver resumed c) 0 calls
            (allows-confirms approver resumed))
      ∙ calls_of-keep (λ c. c) (goes decide normalize approver resumed) 0 calls
      ∙ map_id (keep (goes decide normalize approver resumed) calls)

  -- the refusals, those that need no answer first
  unfoldable pub refusals : Bool → Option (List Decision) → List ToolCall → List ToolMessage
  refusals approver resumed calls =
      map (refuse decide normalize) (keep (denies decide normalize) calls)
      ++ map (late_refusal decide normalize approver)
          (keep (λ c. confirms decide normalize c && not (answered approver resumed c)) calls)

  pending-refusals :
      (approver : Bool) (resumed : Option (List Decision)) (calls : List ToolCall)
      → map
            (λ e. refuse decide normalize e.1)
            (keep (at_call (denies decide normalize)) (numbered 0 calls))
          ++ map
              (λ e. late_refusal decide normalize approver e.1)
              (keep
                (at_call (λ c. not (answered approver resumed c)))
                (keep (at_call (confirms decide normalize)) (numbered 0 calls)))
        ≡ refusals approver resumed calls
  unfolding refusals
  pending-refusals approver resumed calls =
      rw
        (
          keep-keep (confirms decide normalize) (λ c. not (answered approver resumed c)) 0 calls,
          calls_of-keep (refuse decide normalize) (denies decide normalize) 0 calls,
          calls_of-keep (late_refusal decide normalize approver)
              (λ c. confirms decide normalize c && not (answered approver resumed c)) 0 calls,
        )
        refl

  calls_of-pending :
      (calls : List ToolCall)
      → map (λ e. e.1) (keep (at_call (confirms decide normalize)) (numbered 0 calls))
        ≡ keep (confirms decide normalize) calls
  calls_of-pending calls =
      calls_of-keep (λ c. c) (confirms decide normalize) 0 calls
      ∙ map_id (keep (confirms decide normalize) calls)

  pub permission_gate-Passes :
      (approver : Bool) (resumed : Option (List Decision)) (calls : List ToolCall)
      → stops decide normalize approver resumed (keep (confirms decide normalize) calls) ≡ false
      → Passes decide normalize
          (permission_gate decide normalize approver resumed calls)
          (keep (goes decide normalize approver resumed) calls)
          (refusals approver resumed calls)
  unfolding permission_gate settle_direct
  permission_gate-Passes approver resumed calls h =
      rw (← sort_indices-goes approver resumed calls, ← pending-refusals approver resumed calls)
        (settle_pending-Passes decide normalize approver resumed
          (keep (at_call (confirms decide normalize)) (numbered 0 calls)) (numbered 0 calls)
          (settle_direct decide normalize (numbered 0 calls))
          (ap (stops decide normalize approver resumed) (calls_of-pending calls) ∙ h))

  settle_pending-interrupted :
      (approver : Bool) (resumed : Option (List Decision)) (pending ns : List (ℕ × ToolCall))
      (s : GateState)
      → stops decide normalize approver resumed (map (λ e. e.1) pending) ≡ true
      → settle_pending decide normalize approver resumed pending ns s
        ≡ interrupted (map (λ e. ask decide normalize e.1) pending)
  unfolding settle_pending stops
  settle_pending-interrupted approver resumed [] ns s h = cc
  settle_pending-interrupted false resumed (p ∷ ps) ns s h = cc
  settle_pending-interrupted true none (p ∷ ps) ns s h = refl
  settle_pending-interrupted true (some ds) (p ∷ ps) ns s h = cc

  permission_gate-interrupted :
      (approver : Bool) (resumed : Option (List Decision)) (calls : List ToolCall)
      → stops decide normalize approver resumed (keep (confirms decide normalize) calls) ≡ true
      → permission_gate decide normalize approver resumed calls
        ≡ interrupted (map (ask decide normalize) (keep (confirms decide normalize) calls))
  unfolding permission_gate
  permission_gate-interrupted approver resumed calls h =
      settle_pending-interrupted approver resumed
        (keep (at_call (confirms decide normalize)) (numbered 0 calls)) (numbered 0 calls)
        (settle_direct decide normalize (numbered 0 calls))
        (ap (stops decide normalize approver resumed) (calls_of-pending calls) ∙ h)
      ∙ ap interrupted (calls_of-keep (ask decide normalize) (confirms decide normalize) 0 calls)

  -- The gate stops exactly when some call wants the user's consent, somebody can give it and has not
  -- answered yet; it then asks about these calls, in their order. Otherwise it executes, in their
  -- order, the calls that the policy allows and those that wanted consent and were approved by their
  -- id, and refuses each other call that is denied or wanted consent: the denied ones first, then
  -- those without consent, with the message that says whether somebody was there to ask.
  pub permission_gate-goes :
      (approver : Bool) (resumed : Option (List Decision)) (calls : List ToolCall)
      → ((stops decide normalize approver resumed (keep (confirms decide normalize) calls) ≡ true)
          × (permission_gate decide normalize approver resumed calls
              ≡ interrupted (map (ask decide normalize) (keep (confirms decide normalize) calls))))
        ⊎ ((stops decide normalize approver resumed (keep (confirms decide normalize) calls)
              ≡ false)
            × Passes decide normalize
                (permission_gate decide normalize approver resumed calls)
                (keep (goes decide normalize approver resumed) calls)
                (refusals approver resumed calls))
  permission_gate-goes approver resumed calls =
      elim (Bool-cases
        (stops decide normalize approver resumed (keep (confirms decide normalize) calls))) [
          | inl h ↦ inl (h, permission_gate-interrupted approver resumed calls h)
          | inr h ↦ inr (h, permission_gate-Passes approver resumed calls h)
        ]
