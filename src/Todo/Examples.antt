-- ===== src/Todo/Examples.antt =====
-- A file with a group, an item with a remark and an item without
-- (src/thumbelina/todo/parser.py).
use thumbelina.Prelude.{ℕ, Bool, List, [], ◌∷◌, ◌==◌, ◌≡◌, refl}
use thumbelina.Rag.Texts.{Text}
use thumbelina.Todo.{
  checkbox, remark_line, splitlines, parse_todolist, join_lines, serialize_todolist,
}
use thumbelina.Todo.Splitting.{is_unbroken, ends_plain}
use thumbelina.Todo.RoundTrip.{IsTidy, serialize_todolist-parse_todolist}

abbrev is_break : ℕ → Bool
is_break c = c == 13

abbrev strip : Text → Text
strip t = t

abbrev lines : List Text
lines =
    (35 ∷ 32 ∷ 97 ∷ [])
    ∷ (45 ∷ 32 ∷ 91 ∷ 120 ∷ 93 ∷ 32 ∷ 98 ∷ [])
    ∷ (62 ∷ 32 ∷ 99 ∷ [])
    ∷ (45 ∷ 32 ∷ 91 ∷ 32 ∷ 93 ∷ 32 ∷ 100 ∷ [])
    ∷ []

lines-IsTidy : IsTidy is_break strip lines
unfolding IsTidy is_unbroken ends_plain checkbox remark_line splitlines
lines-IsTidy =
    (refl, tt, tt, (refl, refl, tt, (refl, tt, (refl, refl, refl), (refl, refl, tt, tt))))

serialize_todolist-parse_todolist_example :
    serialize_todolist is_break strip
      (parse_todolist is_break strip (join_lines is_break strip lines))
    ≡ join_lines is_break strip lines
serialize_todolist-parse_todolist_example =
    serialize_todolist-parse_todolist is_break strip lines lines-IsTidy
