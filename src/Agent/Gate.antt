-- ===== src/Agent/Gate.antt =====
-- The permission gate of the agent (`_permission_gate` of src/thumbelina/agent/graph.py). An answer of
-- the user is that of the broker; `interrupt` raises until an answer is there.
use thumbelina.Prelude.{
  ℕ, suc, String, Bool, true, false, not, ◌&&◌, ◌||◌, Option, none, some, List, [], ◌∷◌, ◌++◌, map,
  Dict, insert, leb, keep, str_eq, if◌then◌else◌,
}
use thumbelina.Permissions.Modes.{PermissionDecision, Verdict}
use thumbelina.Permissions.Gate.{ToolArgs, text_or}
use thumbelina.Approvals.{Decision, Payload}
use thumbelina.ToolLoop.{ToolCall, ToolMessage, refused, unattended, user_denied, is_allow}

-- what `verdicts` says of a call, with the reason
pub data CallVerdict : Type 0 where
  allowed confirmed : CallVerdict
  denied auto_allowed : String → CallVerdict

-- a call of the payload; its risk is always "dangerous"
pub record AskedCall : Type 0 where
  pub call_id : String
  pub name : String
  pub args : ToolArgs
  pub reason : String
  pub args_display : Option String

-- `enumerate(calls)`
unfoldable pub numbered : ℕ → List ToolCall → List (ℕ × ToolCall)
numbered i [] = []
numbered i (c ∷ cs) = (i, c) ∷ numbered (suc i) cs

-- `sorted(exec_idx)`, with the calls at the indices
unfoldable pub insert_index : ℕ × ToolCall → List (ℕ × ToolCall) → List (ℕ × ToolCall)
insert_index e [] = e ∷ []
insert_index e (f ∷ fs) =
    let rest = insert_index e fs in if leb e.0 f.0 then e ∷ f ∷ fs else f ∷ rest

unfoldable pub sort_indices : List (ℕ × ToolCall) → List (ℕ × ToolCall)
sort_indices [] = []
sort_indices (e ∷ es) = insert_index e (sort_indices es)

-- `any(r["call_id"] == id and r["approved"] for r in resumed)`
unfoldable pub approved_in : List Decision → String → Bool
approved_in [] id = false
approved_in (d ∷ ds) id = (str_eq d.call_id id && d.approved) || approved_in ds id

-- writes to `verdicts`, in the order of the calls
unfoldable pub note :
    (ToolCall → CallVerdict) → List (ℕ × ToolCall) → Dict CallVerdict → Dict CallVerdict
note f [] d = d
note f (e ∷ es) d = note f es (insert e.1.id (f e.1) d)

abbrev pub is_deny : Verdict → Bool
is_deny Verdict.deny = true
is_deny _ = false

abbrev pub is_confirm : Verdict → Bool
is_confirm Verdict.confirm = true
is_confirm _ = false

-- `exec_idx`, `verdicts` and `denied`
pub record GateState : Type 0 where
  pub exec : List (ℕ × ToolCall)
  pub verdicts : Dict CallVerdict
  pub denied : List ToolMessage

pub data GateResult : Type 0 where
  interrupted : List AskedCall → GateResult
  passed : List ToolCall → Dict CallVerdict → List ToolMessage → GateResult

-- the same decision for each entry of `enumerate(calls)`
abbrev pub at_call : (ToolCall → Bool) → ℕ × ToolCall → Bool
at_call p e = p e.1

module _ (decide : ToolCall → PermissionDecision) (normalize : String → String) where
  abbrev pub allows : ToolCall → Bool
  allows c = is_allow (decide c).verdict

  abbrev pub denies : ToolCall → Bool
  denies c = is_deny (decide c).verdict

  abbrev pub confirms : ToolCall → Bool
  confirms c = is_confirm (decide c).verdict

  abbrev pub refuse : ToolCall → ToolMessage
  refuse c = record { content = refused (decide c).reason; tool_call_id = c.id }

  abbrev pub refuse_unattended : ToolCall → ToolMessage
  refuse_unattended c = record { content = unattended (decide c).reason; tool_call_id = c.id }

  abbrev pub refuse_by_user : ToolCall → ToolMessage
  refuse_by_user c = record { content = user_denied c.name; tool_call_id = c.id }

  abbrev pub ask : ToolCall → AskedCall
  ask c = record {
    call_id = c.id;
    name = c.name;
    args = c.args;
    reason = (decide c).reason;
    args_display =
        if str_eq c.name "run_shell" then some (normalize (text_or "" c.args.command)) else none;
  }

  -- the calls that are allowed, and those that are denied at once
  unfoldable pub settle_direct : List (ℕ × ToolCall) → GateState
  settle_direct ns =
      let exec = keep (at_call allows) ns in
      let refused_now = keep (at_call denies) ns in
      record {
        exec = exec;
        verdicts = note (λ c. denied (decide c).reason) refused_now (note (λ c. allowed) exec []);
        denied = map (λ e. refuse e.1) refused_now;
      }

  unfoldable pub deny_unattended : List (ℕ × ToolCall) → GateState → GateState
  deny_unattended pending s = record s {
    denied = s.denied ++ map (λ e. refuse_unattended e.1) pending;
    verdicts = note (λ c. denied (decide c).reason) pending s.verdicts;
  }

  unfoldable pub settle_answers : List Decision → List (ℕ × ToolCall) → GateState → GateState
  settle_answers ds pending s =
      let approved = λ (c : ToolCall). approved_in ds c.id in
      record {
        exec = s.exec ++ keep (at_call approved) pending;
        verdicts =
            note (λ c. if approved c then confirmed else denied "user_denied") pending s.verdicts;
        denied =
            s.denied
            ++ map (λ e. refuse_by_user e.1) (keep (at_call (λ c. not (approved c))) pending);
      }

  -- the marks of AUTO, and the result
  unfoldable pub finish : List (ℕ × ToolCall) → GateState → GateResult
  finish ns s =
      let waived = keep (at_call (λ c. (decide c).auto_allowed)) ns in
      passed (map (λ e. e.1) (sort_indices s.exec))
        (note (λ c. auto_allowed (decide c).reason) waived s.verdicts) s.denied

  unfoldable pub settle_pending :
      Bool
      → Option (List Decision)
      → List (ℕ × ToolCall)
      → List (ℕ × ToolCall)
      → GateState
      → GateResult
  settle_pending approver resumed [] ns s = finish ns s
  settle_pending false resumed (p ∷ ps) ns s = finish ns (deny_unattended (p ∷ ps) s)
  settle_pending true none (p ∷ ps) ns s = interrupted (map (λ e. ask e.1) (p ∷ ps))
  settle_pending true (some ds) (p ∷ ps) ns s = finish ns (settle_answers ds (p ∷ ps) s)

  -- with `has_approver()`, and the answer that the run is resumed with, if it is
  unfoldable pub permission_gate : Bool → Option (List Decision) → List ToolCall → GateResult
  permission_gate approver resumed calls =
      let ns = numbered 0 calls in
      settle_pending approver resumed (keep (at_call confirms) ns) ns (settle_direct ns)

-- the payload as the broker gets it
abbrev pub request_of : List AskedCall → Payload
request_of asked = record {
  request_id = none;
  calls = map (λ (a : AskedCall). some a.call_id) asked;
}
