-- ===== src/Permissions/Paths.antt =====
-- Protected paths and write paths (src/thumbelina/tools/permissions.py). A text is walked as the
-- list of its code points.
use Prim.Native.Char.{code}
use Prim.Native.String.{[] as end, ◌∷◌ as char}
use thumbelina.Prelude.{
  ℕ, ◌+◌, String, Bool, true, false, ◌||◌, ◌&&◌, Option, none, some, List, [], ◌∷◌, ◌++◌, Dict,
  lookup, insert, ltb, leb, ◌==◌, length, drop, if◌then◌else◌, is_some,
}
use thumbelina.Permissions.Modes.{
  PermissionMode, PermissionDecision, allow_outright, deny_with, confirm_with,
}

abbrev pub codes : String → List ℕ
codes end = []
codes (char c cs) = code c ∷ codes cs

-- What the path rules read of their surroundings: `str.lower` on a code point above ASCII, the
-- active workspace, the anchors that are registered, and the outcome of `resolve_workspace_path`,
-- which asks the file system.
pub data Resolved : Type 0 where
  outside : Resolved
  unbound : Resolved
  inside : Resolved

pub record PathContext : Type 0 where
  pub lower_wide : ℕ → List ℕ
  pub workspace : Option String
  pub app_anchors : Dict (List ℕ)
  pub resolve : String → Resolved

-- `s.replace("\\", "/")`
unfoldable pub to_posix : List ℕ → List ℕ
to_posix [] = []
to_posix (c ∷ cs) = (if c == 92 then 47 else c) ∷ to_posix cs

-- `s.lower()`
unfoldable pub to_lower : (ℕ → List ℕ) → List ℕ → List ℕ
to_lower wide [] = []
to_lower wide (c ∷ cs) =
    (if ltb c 128 then (if leb 65 c && leb c 90 then c + 32 else c) ∷ [] else wide c)
    ++ to_lower wide cs

abbrev pub push : List ℕ → List (List ℕ) → List (List ℕ)
push [] rest = rest
push (c ∷ cs) rest = (c ∷ cs) ∷ rest

-- `[seg for seg in s.split("/") if seg]`, with the segment read so far
unfoldable pub segments_from : List ℕ → List ℕ → List (List ℕ)
segments_from seen [] = push seen []
segments_from seen (c ∷ cs) =
    let rest = segments_from [] cs in
    let more = segments_from (seen ++ c ∷ []) cs in if c == 47 then push seen rest else more

-- The segments of a path, in lower case. An `rstrip("/")` before the split drops empty segments only.
unfoldable pub segments : PathContext → List ℕ → List (List ℕ)
unfolding segments_from to_lower to_posix
segments x s = segments_from [] (to_lower x.lower_wide (to_posix s))

-- `seg.startswith(g)`
unfoldable pub codes_start : List ℕ → List ℕ → Bool
codes_start s [] = true
codes_start [] (g ∷ gs) = false
codes_start (c ∷ s) (g ∷ gs) = if c == g then codes_start s gs else false

abbrev pub codes_eq : List ℕ → List ℕ → Bool
codes_eq [] [] = true
codes_eq [] (d ∷ ds) = false
codes_eq (c ∷ cs) [] = false
codes_eq (c ∷ cs) (d ∷ ds) = if c == d then codes_eq cs ds else false

-- `parts[: len(dirs)] == dirs`
unfoldable pub parts_start : List (List ℕ) → List (List ℕ) → Bool
parts_start parts [] = true
parts_start [] (d ∷ dirs) = false
parts_start (p ∷ parts) (d ∷ dirs) = if codes_eq p d then parts_start parts dirs else false

abbrev pub protected_path_patterns : List String
protected_path_patterns =
    "thumbelina.db" ∷ "MEMORY/" ∷ "prompts/roles/" ∷ "plugins/" ∷ ".env" ∷ "TODO/" ∷ "attachments/"
    ∷ []

-- `g.endswith("/")`
unfoldable pub ends_in_slash : List ℕ → Bool
ends_in_slash [] = false
ends_in_slash (c ∷ []) = c == 47
ends_in_slash (c ∷ d ∷ cs) = ends_in_slash (d ∷ cs)

-- `s.strip("/")`
unfoldable pub lstrip_slash : List ℕ → List ℕ
lstrip_slash [] = []
lstrip_slash (c ∷ cs) = let rest = lstrip_slash cs in if c == 47 then rest else c ∷ cs

abbrev put_before : ℕ → List ℕ → List ℕ
put_before c [] = if c == 47 then [] else c ∷ []
put_before c (d ∷ ds) = c ∷ d ∷ ds

unfoldable pub rstrip_slash : List ℕ → List ℕ
rstrip_slash [] = []
rstrip_slash (c ∷ cs) = put_before c (rstrip_slash cs)

unfoldable pub set_app_anchor : String → String → PathContext → PathContext
unfolding to_posix lstrip_slash rstrip_slash
set_app_anchor guard path x = record x {
  app_anchors = insert guard (rstrip_slash (lstrip_slash (to_posix (codes path)))) x.app_anchors;
}

-- the segments of the path, and those behind the workspace where the path begins with it
unfoldable pub base_parts : PathContext → List (List ℕ)
unfolding segments
base_parts x = segments x (elim x.workspace [ none ↦ [] | some ws ↦ codes ws ])

unfoldable pub relative_parts : PathContext → List (List ℕ) → List (List ℕ)
unfolding base_parts parts_start
relative_parts x parts =
    if parts_start parts (base_parts x) then drop (length (base_parts x)) parts else parts

-- some segment begins with the name of a guarded file
unfoldable pub names_file : List (List ℕ) → List ℕ → Bool
unfolding codes_start
names_file [] g = false
names_file (p ∷ parts) g = codes_start p g || names_file parts g

unfoldable pub under_anchor : PathContext → String → List (List ℕ) → Bool
unfolding segments parts_start
under_anchor x guard parts = elim (lookup guard x.app_anchors) [
  | none ↦ false
  | some anchor ↦ elim (segments x anchor) [
    | [] ↦ false
    | dir ∷ dirs ↦ parts_start parts (dir ∷ dirs)
  ]
]

-- one round of the loop over the guards
unfoldable pub guards : PathContext → List (List ℕ) → List (List ℕ) → String → Bool
unfolding parts_start names_file under_anchor
guards x parts rel guard =
    if ends_in_slash (codes guard)
    then parts_start rel (segments x (codes guard)) || under_anchor x guard parts
    else names_file parts (to_lower x.lower_wide (codes guard))

unfoldable pub first_guard :
    PathContext → List (List ℕ) → List (List ℕ) → List String → Option String
first_guard x parts rel [] = none
first_guard x parts rel (guard ∷ rest) =
    if guards x parts rel guard then some guard else first_guard x parts rel rest

unfoldable pub is_protected : PathContext → String → Option String
is_protected x raw =
    let parts = segments x (codes raw) in
    first_guard x parts (relative_parts x parts) protected_path_patterns

pub data PathKind : Type 0 where
  in_workspace escape unbounded protected : PathKind

unfoldable pub classify_write_path : PathContext → String → PathKind
classify_write_path x path =
    if is_some (is_protected x path) then PathKind.protected else elim (x.resolve path) [
      | outside ↦ PathKind.escape
      | unbound ↦ PathKind.unbounded
      | inside ↦ PathKind.in_workspace
    ]

abbrev pub decide_write : PermissionMode → PathKind → PermissionDecision
decide_write PermissionMode.workspace_write PathKind.protected =
    deny_with "rule.protected_path" true
decide_write PermissionMode.global_write PathKind.protected = confirm_with "rule.protected_path"
decide_write PermissionMode.workspace_write PathKind.escape =
    deny_with "rule.workspace_escape" false
decide_write PermissionMode.workspace_write PathKind.unbounded = deny_with "rule.no_workspace" false
decide_write _ _ = allow_outright

unfoldable pub evaluate_write_file : PathContext → PermissionMode → String → PermissionDecision
evaluate_write_file x mode path = decide_write mode (classify_write_path x path)
