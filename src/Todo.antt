-- ===== src/Todo.antt =====
-- The file of to-do items (`parse_todolist` and `serialize_todolist` of src/thumbelina/todo/parser.py).
-- Texts are lists of code points. The characters at which `str.splitlines` breaks, other than the
-- line feed, and those that `str.strip` removes are parameters.
pub mod Splitting
pub mod RoundTrip
mod Examples
use thumbelina.Prelude.{
  ℕ, suc, Bool, true, false, not, ◌&&◌, ◌||◌, Option, none, some, List, [], ◌∷◌, ◌++◌, map, ◌==◌,
  if◌then◌else◌,
}
use thumbelina.Rag.Texts.{Text, is_empty}

pub record TodoItem : Type 0 where
  pub index : ℕ
  pub text : Text
  pub done : Bool
  pub remark : Text
  pub group : Option Text

pub data Segment : Type 0 where
  item : TodoItem → Segment
  raw_line : Text → Segment

abbrev pub line_feed : ℕ
line_feed = 10

-- the mark that is written
abbrev pub mark_of : Bool → ℕ
mark_of true = 120
mark_of false = 32

-- `CHECKBOX_RE`: whether it is done, and the text
abbrev is_mark : ℕ → Bool
is_mark m = (m == 32) || (m == 120) || (m == 88)

unfoldable pub checkbox : Text → Option (Bool × Text)
checkbox (a ∷ b ∷ c ∷ m ∷ d ∷ e ∷ text) =
    if (a == 45) && (b == 32) && (c == 91) && is_mark m && (d == 93) && (e == 32)
    then some (not (m == 32), text)
    else none
checkbox _ = none

-- `REMARK_LINE_RE`
abbrev after_space : Text → Text
after_space [] = []
after_space (c ∷ text) = if c == 32 then text else c ∷ text

unfoldable pub remark_line : Text → Option Text
remark_line [] = none
remark_line (c ∷ text) = if c == 62 then some (after_space text) else none

-- `GROUP_HEADER_RE`
unfoldable pub group_header : Text → Option Text
group_header (a ∷ b ∷ text) = if (a == 35) && (b == 32) then some text else none
group_header _ = none

-- `f"{pending.remark}\n{content}" if pending.remark else content`
abbrev pub add_remark : Text → TodoItem → TodoItem
add_remark content t = record t {
  remark = if is_empty t.remark then content else t.remark ++ line_feed ∷ content;
}

module _ (is_break : ℕ → Bool) (strip : Text → Text) where
  -- a character that is put before the first of the lines
  abbrev pub on_first : ℕ → List Text → List Text
  on_first c [] = (c ∷ []) ∷ []
  on_first c (l ∷ ls) = (c ∷ l) ∷ ls

  -- `str.splitlines`, for texts without the pair of a carriage return and a line feed
  unfoldable pub splitlines : Text → List Text
  splitlines [] = []
  splitlines (c ∷ text) =
      let rest = splitlines text in
      if (c == line_feed) || is_break c then [] ∷ rest else on_first c rest

  -- the group after a line
  abbrev group_named : Option Text → Option Text → Option Text
  group_named group none = group
  group_named group (some name) = if is_empty (strip name) then group else some (strip name)

  abbrev pub group_after : Option Text → Text → Option Text
  group_after group line = group_named group (group_header line)

  -- the item whose remark ends
  abbrev pub put_pending : Option TodoItem → List Segment → List Segment
  put_pending none rest = rest
  put_pending (some t) rest = item t ∷ rest

  abbrev pub new_item : ℕ → Option Text → Bool × Text → TodoItem
  new_item index group found = record {
    index = index;
    text = found.1;
    done = found.0;
    remark = [];
    group = group;
  }

  -- What the loop does with a line that is no checkbox, by whether it is a remark; `next` is the loop
  -- on the lines that follow. An item goes to the segments when its remark is complete.
  unfoldable pub after_line :
      (Option TodoItem → List Segment) → Text → Option Text → Option TodoItem → List Segment
  after_line next line remark none = raw_line line ∷ next none
  after_line next line none (some t) = item t ∷ raw_line line ∷ next none
  after_line next line (some content) (some t) = next (some (add_remark content t))

  unfoldable pub parse_line :
      (ℕ → Option TodoItem → List Segment)
      → ℕ
      → Option Text
      → Text
      → Option (Bool × Text)
      → Option TodoItem
      → List Segment
  parse_line next index group line (some found) pending =
      put_pending pending (next (suc index) (some (new_item index group found)))
  parse_line next index group line none pending =
      after_line (next index) line (remark_line line) pending

  -- the loop of `parse_todolist`
  unfoldable pub parse_lines : ℕ → Option Text → List Text → Option TodoItem → List Segment
  parse_lines index group [] pending = put_pending pending []
  parse_lines index group (line ∷ lines) pending =
      let g = group_after group line in
      parse_line (λ n p. parse_lines n g lines p) index g line (checkbox line) pending

  unfoldable pub parse_todolist : Text → List Segment
  parse_todolist text = parse_lines 0 none (splitlines text) none

  -- the lines of a segment
  unfoldable pub segment_lines : Segment → List Text
  segment_lines (raw_line line) = line ∷ []
  segment_lines (item t) =
      (45 ∷ 32 ∷ 91 ∷ mark_of t.done ∷ 93 ∷ 32 ∷ t.text)
      ∷ map (λ (l : Text). 62 ∷ 32 ∷ l) (splitlines t.remark)

  unfoldable pub lines_of : List Segment → List Text
  lines_of [] = []
  lines_of (s ∷ ss) = segment_lines s ++ lines_of ss

  -- `"\n".join(lines) + "\n"`
  unfoldable pub join_lines : List Text → Text
  join_lines [] = []
  join_lines (l ∷ ls) = l ++ line_feed ∷ join_lines ls

  -- with no segments there are no lines, and the text is empty
  unfoldable pub serialize_todolist : List Segment → Text
  serialize_todolist segments = join_lines (lines_of segments)
