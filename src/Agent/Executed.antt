-- ===== src/Agent/Executed.antt =====
-- Which calls the gate lets pass (src/thumbelina/agent/graph.py).
use mathlib.Core.List.{append-nil}
use thumbelina.Prelude.{
  ℕ, String, Bool, true, false, not, ◌&&◌, ◌||◌, Option, none, some, List, [], ◌∷◌, ◌++◌, map, Dict,
  keep, is_some, ◌≡◌, refl, ap,
}
use thumbelina.Permissions.Modes.{PermissionDecision}
use thumbelina.Approvals.{Decision}
use thumbelina.ToolLoop.{ToolCall, ToolMessage}
use thumbelina.Agent.Gate.{
  auto_allowed, denied, CallVerdict, GateState, GateResult, passed, sort_indices, approved_in, note,
  at_call, allows, confirms, refuse_unattended, refuse_by_user, deny_unattended, settle_answers,
  finish, settle_pending,
}

-- whether a call is among those that the user approves, when there is one to answer
unfoldable pub answered : Bool → Option (List Decision) → ToolCall → Bool
answered false resumed c = false
answered true none c = false
answered true (some ds) c = approved_in ds c.id

keep_none :
    (resumed : Option (List Decision)) (l : List (ℕ × ToolCall))
    → keep (at_call (answered false resumed)) l ≡ []
unfolding answered
keep_none resumed [] = refl
keep_none resumed (e ∷ es) = keep_none resumed es

keep_all :
    (resumed : Option (List Decision)) (l : List (ℕ × ToolCall))
    → keep (at_call (λ c. not (answered false resumed c))) l ≡ l
unfolding answered
keep_all resumed [] = refl
keep_all resumed (e ∷ es) = ap (◌∷◌ e) (keep_all resumed es)

module _ (decide : ToolCall → PermissionDecision) (normalize : String → String) where
  -- a call is executed if it is allowed, or put to the user and approved
  abbrev pub goes : Bool → Option (List Decision) → ToolCall → Bool
  goes approver resumed c =
      allows decide normalize c || (confirms decide normalize c && answered approver resumed c)

  -- the refusal of a call that is put to the user
  unfoldable pub late_refusal : Bool → ToolCall → ToolMessage
  late_refusal true c = refuse_by_user decide normalize c
  late_refusal false c = refuse_unattended decide normalize c

  -- the gate stops for the user
  unfoldable pub stops : Bool → Option (List Decision) → List ToolCall → Bool
  stops approver resumed [] = false
  stops approver resumed (p ∷ ps) = approver && not (is_some resumed)

  -- the gate's result, less the verdicts
  unfoldable pub Passes : GateResult → List ToolCall → List ToolMessage → Type 0
  Passes r exec errors = (v : Dict CallVerdict) × (r ≡ passed exec v errors)

  finish-deny_unattended :
      (resumed : Option (List Decision)) (pending ns : List (ℕ × ToolCall)) (s : GateState)
      → Passes
          (finish decide normalize ns (deny_unattended decide normalize pending s))
          (map
            (λ e. e.1)
            (sort_indices (s.exec ++ keep (at_call (answered false resumed)) pending)))
          (s.denied
            ++ map
                (λ e. late_refusal false e.1)
                (keep (at_call (λ c. not (answered false resumed c))) pending))
  unfolding Passes finish deny_unattended late_refusal
  finish-deny_unattended resumed pending ns s = (
    note (λ c. auto_allowed (decide c).reason) (keep (at_call (λ c. (decide c).auto_allowed)) ns)
        (note (λ c. denied (decide c).reason) pending s.verdicts),
    rw (keep_none resumed pending, keep_all resumed pending, append-nil s.exec) refl,
  )

  pub stops-some :
      (approver : Bool) (ds : List Decision) (calls : List ToolCall)
      → stops approver (some ds) calls ≡ false
  unfolding stops
  stops-some approver ds [] = refl
  stops-some false ds (c ∷ cs) = refl
  stops-some true ds (c ∷ cs) = refl

  pub settle_pending-Passes :
      (approver : Bool) (resumed : Option (List Decision)) (pending ns : List (ℕ × ToolCall))
      (s : GateState)
      → stops approver resumed (map (λ e. e.1) pending) ≡ false
      → Passes
          (settle_pending decide normalize approver resumed pending ns s)
          (map
            (λ e. e.1)
            (sort_indices (s.exec ++ keep (at_call (answered approver resumed)) pending)))
          (s.denied
            ++ map
                (λ e. late_refusal approver e.1)
                (keep (at_call (λ c. not (answered approver resumed c))) pending))
  unfolding Passes settle_pending stops answered late_refusal finish deny_unattended settle_answers
  settle_pending-Passes approver resumed [] ns s h = (
    note (λ c. auto_allowed (decide c).reason) (keep (at_call (λ c. (decide c).auto_allowed)) ns)
        s.verdicts,
    rw (append-nil s.exec, append-nil s.denied) refl,
  )
  settle_pending-Passes false resumed (p ∷ ps) ns s h = finish-deny_unattended resumed (p ∷ ps) ns s
  settle_pending-Passes true none (p ∷ ps) ns s h = cc
  settle_pending-Passes true (some ds) (p ∷ ps) ns s h = (_, refl)
