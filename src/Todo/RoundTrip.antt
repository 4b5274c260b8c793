-- ===== src/Todo/RoundTrip.antt =====
-- A tidy file of to-do items is written back as it is read (src/thumbelina/todo/parser.py).
use thumbelina.Prelude.{
  ℕ, suc, Bool, true, Option, none, some, List, [], ◌∷◌, ◌++◌, map, append_assoc, if◌then◌else◌,
  ◌≡◌, ◌⊎◌, refl, ap, ◌∙◌, inl, inr,
}
use thumbelina.Rag.Texts.{Text, is_empty}
use thumbelina.Todo.{
  TodoItem, Segment, item, line_feed, mark_of, checkbox, remark_line, add_remark, splitlines,
  group_after, put_pending, new_item, after_line, parse_line, parse_lines, parse_todolist,
  segment_lines, lines_of, join_lines, serialize_todolist,
}
use thumbelina.Todo.Splitting.{
  is_unbroken, ends_plain, splitlines-line, splitlines-append, ends_plain-append,
}

abbrev quoted : Text → Text
quoted l = 62 ∷ 32 ∷ l

map-append : (f : Text → Text) (xs ys : List Text) → map f (xs ++ ys) ≡ map f xs ++ map f ys
map-append f [] ys = refl
map-append f (x ∷ xs) ys = ap (λ l. f x ∷ l) (map-append f xs ys)

module _ (is_break : ℕ → Bool) (strip : Text → Text) where
  -- what a tidy line says of itself: a checkbox is marked with a small x or a space, and a quoted line
  -- has a space and some text
  abbrev SaysBox : Text → Option (Bool × Text) → Type 0
  SaysBox line none = Unit
  SaysBox line (some found) = 45 ∷ 32 ∷ 91 ∷ mark_of found.0 ∷ 93 ∷ 32 ∷ found.1 ≡ line

  abbrev SaysRemark : Text → Option Text → Type 0
  SaysRemark line none = Unit
  SaysRemark line (some content) =
      (62 ∷ 32 ∷ content ≡ line)
      × (ends_plain is_break strip content ≡ true)
      × (splitlines is_break strip content ≡ content ∷ [])

  unfoldable pub IsTidy : List Text → Type 0
  IsTidy [] = Unit
  IsTidy (line ∷ lines) =
      (is_unbroken is_break strip line ≡ true)
      × SaysBox line (checkbox line)
      × SaysRemark line (remark_line line)
      × IsTidy lines

  -- the remark that is collected so far
  abbrev IsOpen : TodoItem → Type 0
  IsOpen t = (t.remark ≡ []) ⊎ (ends_plain is_break strip t.remark ≡ true)

  abbrev Pending : Option TodoItem → Type 0
  Pending none = Unit
  Pending (some t) = IsOpen t

  abbrev pending_lines : Option TodoItem → List Text
  pending_lines none = []
  pending_lines (some t) = segment_lines is_break strip (item t)

  -- a remark with one more line
  splitlines_more :
      (r content : Text)
      → (r ≡ []) ⊎ (ends_plain is_break strip r ≡ true)
      → splitlines is_break strip content ≡ content ∷ []
      → splitlines is_break strip (if is_empty r then content else r ++ line_feed ∷ content)
        ≡ splitlines is_break strip r ++ content ∷ []
  unfolding splitlines
  splitlines_more [] content o h = h
  splitlines_more (c ∷ r) content (inl e) h = cc
  splitlines_more (c ∷ r) content (inr e) h =
      splitlines-append is_break strip (c ∷ r) content e
      ∙ ap (λ l. splitlines is_break strip (c ∷ r) ++ l) h

  open_more :
      (r content : Text)
      → ends_plain is_break strip content ≡ true
      → ends_plain is_break strip (if is_empty r then content else r ++ line_feed ∷ content) ≡ true
  open_more [] content h = h
  open_more (c ∷ r) content h = ends_plain-append is_break strip (c ∷ r) content h

  add_remark-lines :
      (content : Text) (t : TodoItem)
      → IsOpen t
      → splitlines is_break strip content ≡ content ∷ []
      → segment_lines is_break strip (item (add_remark content t))
        ≡ segment_lines is_break strip (item t) ++ (62 ∷ 32 ∷ content) ∷ []
  unfolding segment_lines
  add_remark-lines content t o h =
      ap (λ ls. (45 ∷ 32 ∷ 91 ∷ mark_of t.done ∷ 93 ∷ 32 ∷ t.text) ∷ ls)
        (ap (map quoted) (splitlines_more t.remark content o h)
          ∙ map-append quoted (splitlines is_break strip t.remark) (content ∷ []))

  lines_of-put_pending :
      (pending : Option TodoItem) (rest : List Segment)
      → lines_of is_break strip (put_pending is_break strip pending rest)
        ≡ pending_lines pending ++ lines_of is_break strip rest
  unfolding lines_of
  lines_of-put_pending none rest = refl
  lines_of-put_pending (some t) rest = refl

  -- what the loop does on the lines that follow
  Writes : (Option TodoItem → List Segment) → List Text → Type 0
  Writes next lines =
      (pending : Option TodoItem)
      → Pending pending
      → lines_of is_break strip (next pending) ≡ pending_lines pending ++ lines

  after_line-lines :
      (next : Option TodoItem → List Segment) (line : Text) (lines : List Text)
      (remark : Option Text) (pending : Option TodoItem)
      → Writes next lines
      → SaysRemark line remark
      → Pending pending
      → lines_of is_break strip (after_line is_break strip next line remark pending)
        ≡ pending_lines pending ++ line ∷ lines
  unfolding Writes after_line lines_of segment_lines
  after_line-lines next line lines remark none w r p = ap (λ ls. line ∷ ls) (w none tt)
  after_line-lines next line lines none (some t) w r p =
      ap (λ ls. pending_lines (some t) ++ line ∷ ls) (w none tt)
  after_line-lines next line lines (some content) (some t) w r p =
      w (some (add_remark content t)) (inr (open_more t.remark content r.1))
      ∙ ap (λ ls. ls ++ lines) (add_remark-lines content t p r.2)
      ∙ append_assoc (pending_lines (some t)) ((62 ∷ 32 ∷ content) ∷ []) lines
      ∙ ap (λ l. pending_lines (some t) ++ l ∷ lines) r.0

  parse_line-lines :
      (next : ℕ → Option TodoItem → List Segment) (index : ℕ) (group : Option Text) (line : Text)
      (lines : List Text) (found : Option (Bool × Text)) (pending : Option TodoItem)
      → ((n : ℕ) → Writes (next n) lines)
      → SaysBox line found
      → SaysRemark line (remark_line line)
      → Pending pending
      → lines_of is_break strip (parse_line is_break strip next index group line found pending)
        ≡ pending_lines pending ++ line ∷ lines
  unfolding Writes parse_line segment_lines splitlines
  parse_line-lines next index group line lines none pending w b r p =
      after_line-lines (next index) line lines (remark_line line) pending (w index) r p
  parse_line-lines next index group line lines (some found) pending w b r p =
      lines_of-put_pending pending
        (next (suc index) (some (new_item is_break strip index group found)))
      ∙ ap (λ ls. pending_lines pending ++ ls)
          (w (suc index) (some (new_item is_break strip index group found)) (inl refl)
            ∙ ap (λ l. l ∷ lines) b)

  lines_of-parse_lines :
      (index : ℕ) (group : Option Text) (lines : List Text) (pending : Option TodoItem)
      → IsTidy lines
      → Pending pending
      → lines_of is_break strip (parse_lines is_break strip index group lines pending)
        ≡ pending_lines pending ++ lines
  unfolding IsTidy parse_lines lines_of Writes
  lines_of-parse_lines index group [] none h p = refl
  lines_of-parse_lines index group [] (some t) h p = refl
  lines_of-parse_lines index group (line ∷ lines) pending h p =
      let g = group_after is_break strip group line in
      parse_line-lines (λ n q. parse_lines is_break strip n g lines q) index g line lines
        (checkbox line) pending (λ n q k. lines_of-parse_lines n g lines q h.3 k) h.1 h.2 p

  splitlines-join_lines :
      (lines : List Text)
      → IsTidy lines
      → splitlines is_break strip (join_lines is_break strip lines) ≡ lines
  unfolding IsTidy join_lines splitlines
  splitlines-join_lines [] h = refl
  splitlines-join_lines (l ∷ ls) h =
      splitlines-line is_break strip l (join_lines is_break strip ls) h.0
      ∙ ap (λ ms. l ∷ ms) (splitlines-join_lines ls h.3)

  -- A file whose lines are tidy (each checkbox is marked with a space or a small x; each quoted line has
  -- a space and a text that is a line of its own; and no line has a break inside) is written back as it
  -- is read, to the character.
  pub serialize_todolist-parse_todolist :
      (lines : List Text)
      → IsTidy lines
      → let text = join_lines is_break strip lines in
        serialize_todolist is_break strip (parse_todolist is_break strip text) ≡ text
  unfolding serialize_todolist parse_todolist
  serialize_todolist-parse_todolist lines h =
      ap
        (λ ls.
          join_lines is_break strip
            (lines_of is_break strip (parse_lines is_break strip 0 none ls none)))
        (splitlines-join_lines lines h)
      ∙ ap (join_lines is_break strip) (lines_of-parse_lines 0 none lines none h tt)
