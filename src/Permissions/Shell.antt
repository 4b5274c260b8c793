-- ===== src/Permissions/Shell.antt =====
-- The two-level verdict on shell commands (src/thumbelina/tools/permissions.py). Python's regular
-- expressions are the parameter `Regex`: for each pattern of the source, whether it is found.
use thumbelina.Prelude.{
  String, Bool, true, false, not, ◌||◌, Option, none, some, List, [], ◌∷◌, ◌++◌, str_eq,
  if◌then◌else◌,
}
use thumbelina.Permissions.Modes.{
  PermissionDecision, allow_outright, deny_with, confirm_with, auto_allow,
}

-- `normalize` is `normalize_shell_command`, whose folding is done by `re.sub`; a `Pattern` is a
-- compiled regular expression and `search` says whether it is found in a text; the fields after
-- that are the patterns of the source's tables.
pub record Regex : Type 1 where
  pub Pattern : Type 0
  pub search : Pattern → String → Bool
  pub normalize : String → String
  pub posix_dangerous : List (String × Pattern)
  pub windows_dangerous : List (String × Pattern)
  pub posix_confirm : List (String × Pattern)
  pub windows_confirm : List (String × Pattern)
  pub write_redirect : Pattern
  pub write_cmd : Pattern
  pub absolute_target : Pattern

module _ (r : Regex) where
  open r use {Pattern, search}

  abbrev pub dangerous_patterns : List (String × Pattern)
  dangerous_patterns = r.posix_dangerous ++ r.windows_dangerous

  abbrev pub confirm_patterns : List (String × Pattern)
  confirm_patterns = r.posix_confirm ++ r.windows_confirm

  unfoldable pub absolute_write : String → Bool
  absolute_write cmd =
      if not (search r.write_redirect cmd || search r.write_cmd cmd)
      then false
      else search r.absolute_target cmd

  -- the key of the first pattern of the table that is found
  unfoldable pub first_match : List (String × Pattern) → String → Option String
  first_match [] cmd = none
  first_match ((key, p) ∷ rest) cmd = if search p cmd then some key else first_match rest cmd

  -- the third level, by the first match of `CONFIRM_PATTERNS`
  unfoldable pub classify_confirm : Option String → Bool → PermissionDecision
  classify_confirm none in_auto = allow_outright
  classify_confirm (some key) in_auto = if in_auto then auto_allow key else confirm_with key

  -- the levels below the hard floor
  unfoldable pub classify_soft : String → Bool → PermissionDecision
  unfolding classify_confirm
  classify_soft cmd in_auto =
      if absolute_write cmd
      then (if in_auto
          then auto_allow "confirm.absolute_write"
          else confirm_with "confirm.absolute_write")
      else classify_confirm (first_match confirm_patterns cmd) in_auto

  unfoldable pub classify_dangerous : Option String → String → Bool → PermissionDecision
  unfolding classify_soft
  classify_dangerous (some key) cmd in_auto = deny_with key true
  classify_dangerous none cmd in_auto = classify_soft cmd in_auto

  unfoldable pub classify_shell_command : String → Bool → PermissionDecision
  unfolding classify_dangerous
  classify_shell_command command in_auto =
      let cmd = r.normalize command in
      if str_eq cmd ""
      then deny_with "rule.empty_command" false
      else classify_dangerous (first_match dangerous_patterns cmd) cmd in_auto
