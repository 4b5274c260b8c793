-- ===== src/Compression/Units.antt =====
-- Atomic units (`group_atomic_units`, `leading_system_unit_count`, `flatten_units` of
-- src/thumbelina/agent/compression/base.py). The scan with its two indices is one pass over the
-- messages that carries the unit that is still open.
use thumbelina.Prelude.{
  ℕ, ◌+◌, String, Bool, true, false, not, ◌||◌, Option, none, some, List, [], ◌∷◌, ◌++◌, ◌≡◌, refl,
  ap, ◌∙◌, arith, str_eq, contains, if◌then◌else◌, if_both, append_assoc,
}
use thumbelina.Compression.Messages.{Message}

abbrev pub nonempty {ℓ} : {A : Type ℓ} → List A → Bool
nonempty [] = false
nonempty (x ∷ xs) = true

-- `{call.get("id") for call in tool_calls if call.get("id")}`
unfoldable pub expected_ids : List (Option String) → List String
expected_ids [] = []
expected_ids (none ∷ cs) = expected_ids cs
expected_ids (some i ∷ cs) = if str_eq i "" then expected_ids cs else i ∷ expected_ids cs

-- an AIMessage with tool calls
abbrev pub opens_unit : Message → Bool
opens_unit (Message.ai a) = nonempty a.tool_calls
opens_unit _ = false

unfoldable pub ids_of_opener : Message → List String
unfolding expected_ids
ids_of_opener (Message.ai a) = expected_ids a.tool_calls
ids_of_opener _ = []

-- a ToolMessage that the open unit takes in
unfoldable pub joins : List String → Message → Bool
joins expected (Message.tool c id) = not (nonempty expected) || contains expected id
joins expected _ = false

-- the unit that is open, with the ids that it waits for
abbrev pub OpenUnit : Type 0
OpenUnit = Option (List Message × List String)

-- a message that no open unit takes in
unfoldable pub begin_unit : (OpenUnit → List (List Message)) → Message → List (List Message)
begin_unit continue m =
    let open_one = continue (some (m ∷ [], ids_of_opener m)) in
    let single = (m ∷ []) ∷ continue none in if opens_unit m then open_one else single

unfoldable pub group_from : List Message → OpenUnit → List (List Message)
unfolding begin_unit
group_from [] none = []
group_from [] (some (unit, expected)) = unit ∷ []
group_from (m ∷ ms) none = begin_unit (group_from ms) m
group_from (m ∷ ms) (some (unit, expected)) =
    let joined = group_from ms (some (unit ++ m ∷ [], expected)) in
    let closed = unit ∷ begin_unit (group_from ms) m in if joins expected m then joined else closed

unfoldable pub group_atomic_units : List Message → List (List Message)
unfolding group_from
group_atomic_units ms = group_from ms none

unfoldable pub flatten_units : List (List Message) → List Message
flatten_units [] = []
flatten_units (u ∷ us) = u ++ flatten_units us

abbrev pub is_system : Message → Bool
is_system (Message.system c) = true
is_system _ = false

unfoldable pub all_system : List Message → Bool
all_system [] = true
all_system (m ∷ ms) = if is_system m then all_system ms else false

unfoldable pub leading_system_unit_count : List (List Message) → ℕ
unfolding all_system
leading_system_unit_count [] = 0
leading_system_unit_count (u ∷ us) =
    let rest = leading_system_unit_count us in if all_system u then rest + 1 else 0

-- the messages of the open unit
abbrev pub opened : OpenUnit → List Message
opened none = []
opened (some (unit, expected)) = unit

flatten-begin_unit :
    (continue : OpenUnit → List (List Message)) (m : Message) (ms : List Message)
    → ((o : OpenUnit) → flatten_units (continue o) ≡ opened o ++ ms)
    → flatten_units (begin_unit continue m) ≡ m ∷ ms
unfolding begin_unit flatten_units
flatten-begin_unit continue m ms h = ground (arith, h none, h (some (m ∷ [], ids_of_opener m)))

flatten-group_from :
    (ms : List Message) (o : OpenUnit) → flatten_units (group_from ms o) ≡ opened o ++ ms
unfolding group_from flatten_units
flatten-group_from [] none = refl
flatten-group_from [] (some (unit, expected)) = refl
flatten-group_from (m ∷ ms) none = flatten-begin_unit (group_from ms) m ms (flatten-group_from ms)
flatten-group_from (m ∷ ms) (some (unit, expected)) =
    if_both (λ us. flatten_units us ≡ unit ++ m ∷ ms) (joins expected m)
      (flatten-group_from ms (some (unit ++ m ∷ [], expected)) ∙ append_assoc unit (m ∷ []) ms)
      (ap (◌++◌ unit) (flatten-begin_unit (group_from ms) m ms (flatten-group_from ms)))

-- Grouping loses, adds and reorders no message.
pub flatten-group_atomic_units : (ms : List Message) → flatten_units (group_atomic_units ms) ≡ ms
unfolding group_atomic_units
flatten-group_atomic_units ms = flatten-group_from ms none
