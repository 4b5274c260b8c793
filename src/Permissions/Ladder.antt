-- ===== src/Permissions/Ladder.antt =====
-- How the gate's verdict grows along the ladder of modes (src/thumbelina/tools/permissions.py).
use mathlib.Core.Path.{subst}
use thumbelina.Prelude.{
  ℕ, ◌≤◌, String, Bool, true, false, not, ◌&&◌, List, [], ◌∷◌, ◌≡◌, refl, arith, str_eq, eq_iff,
  contains, if◌then◌else◌, Bool-cases, if_both_rel, inl, inr,
}
use thumbelina.Permissions.Modes.{
  PermissionMode, PermissionDecision, Verdict, ladder_index, is_auto,
}
use thumbelina.Permissions.Shell.{Regex, classify_shell_command}
use thumbelina.Permissions.Paths.{
  PathContext, PathKind, evaluate_write_file, classify_write_path, decide_write,
}
use thumbelina.Permissions.Gate.{
  ToolArgs, evaluate_tool_call, evaluate_known, evaluate_schedule, read_only_tools,
  in_read_only_tools, in_known_tools, text_or,
}

-- deny < confirm < allow
abbrev pub rank : Verdict → ℕ
rank Verdict.deny = 0
rank Verdict.confirm = 1
rank Verdict.allow = 2

abbrev pub rank_of : PermissionDecision → ℕ
rank_of d = rank d.verdict

module _ (r : Regex) (cmd : String) where
  rank-shell_auto :
      rank_of (classify_shell_command r cmd false) ≤ rank_of (classify_shell_command r cmd true)
  unfolding classify_shell_command
  rank-shell_auto = ground arith

rank-shell :
    (r : Regex) (cmd : String) (m n : PermissionMode)
    → ladder_index m ≤ ladder_index n
    → rank_of (classify_shell_command r cmd (is_auto m))
      ≤ rank_of (classify_shell_command r cmd (is_auto n))
rank-shell r cmd m n h = ground (arith, rank-shell_auto r cmd)

rank-decide_write :
    (k : PathKind) (m n : PermissionMode)
    → ladder_index m ≤ ladder_index n
    → 1 ≤ ladder_index m
    → rank_of (decide_write m k) ≤ rank_of (decide_write n k)
rank-decide_write k m n h p = ground arith

rank-write :
    (x : PathContext) (path : String) (m n : PermissionMode)
    → ladder_index m ≤ ladder_index n
    → 1 ≤ ladder_index m
    → rank_of (evaluate_write_file x m path) ≤ rank_of (evaluate_write_file x n path)
unfolding evaluate_write_file
rank-write x path m n h p = rank-decide_write (classify_write_path x path) m n h p

rank-schedule :
    (a : ToolArgs) (m n : PermissionMode)
    → ladder_index m ≤ ladder_index n
    → rank_of (evaluate_schedule m a) ≤ rank_of (evaluate_schedule n a)
unfolding evaluate_schedule
rank-schedule a m n h = ground arith

rank-known :
    (r : Regex) (x : PathContext) (name : String) (a : ToolArgs) (m n : PermissionMode)
    → ladder_index m ≤ ladder_index n
    → 1 ≤ ladder_index m
    → rank_of (evaluate_known r x m name a) ≤ rank_of (evaluate_known r x n name a)
unfolding evaluate_known
rank-known r x name a m n h p =
    if_both_rel (λ (d e : PermissionDecision). rank_of d ≤ rank_of e) (str_eq name "run_shell")
      (rank-shell r (text_or "" a.command) m n h)
      (if_both_rel (λ (d e : PermissionDecision). rank_of d ≤ rank_of e) (str_eq name "write_file")
        (rank-write x (text_or "" a.path) m n h p)
        (if_both_rel (λ (d e : PermissionDecision). rank_of d ≤ rank_of e)
          (str_eq name "schedule_task") (rank-schedule a m n h) (omega arith)))

all_of : (String → Bool) → List String → Bool
all_of p [] = true
all_of p (x ∷ xs) = if p x then all_of p xs else false

all_of-contains :
    (p : String → Bool) (xs : List String) (y : String)
    → all_of p xs ≡ true
    → contains xs y ≡ true
    → p y ≡ true
unfolding all_of
all_of-contains p [] y h c = cc
all_of-contains p (x ∷ xs) y h c = elim (Bool-cases (str_eq x y)) [
  | inl e ↦ subst (λ z. p z ≡ true) ((eq_iff x y).0 e) (ground arith)
  | inr e ↦ all_of-contains p xs y (ground arith) (rw e at c)
]

abbrev is_plain : String → Bool
is_plain name =
    in_known_tools name
    && not (str_eq name "run_shell")
    && not (str_eq name "write_file")
    && not (str_eq name "schedule_task")

plain_tools : all_of is_plain read_only_tools ≡ true
unfolding all_of in_known_tools
plain_tools = refl

read_only_plain : (name : String) → in_read_only_tools name ≡ true → is_plain name ≡ true
unfolding in_read_only_tools
read_only_plain name h = all_of-contains is_plain read_only_tools name plain_tools h

module _ (r : Regex) (x : PathContext) (name : String) (a : ToolArgs) (w : Bool) where
  -- a tool of READ_ONLY is allowed in every mode
  allow_plain_tool :
      (m : PermissionMode)
      → in_read_only_tools name ≡ true
      → (evaluate_tool_call r x m name a w).verdict ≡ Verdict.allow
  unfolding evaluate_tool_call evaluate_known
  allow_plain_tool m h = ground (arith, read_only_plain name h)

  -- For every call, a mode that is not lower on the ladder gives a verdict that is not lower, where
  -- deny is below confirm and confirm below allow.
  pub verdict_monotone :
      (m n : PermissionMode)
      → ladder_index m ≤ ladder_index n
      → rank_of (evaluate_tool_call r x m name a w) ≤ rank_of (evaluate_tool_call r x n name a w)
  unfolding evaluate_tool_call
  verdict_monotone m n h =
      ground (arith, read_only_plain name, allow_plain_tool n, rank-known r x name a m n)
