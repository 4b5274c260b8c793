-- ===== src/Compression/Pairing.antt =====
-- Repair of the pairing of tool calls and tool messages (`_tool_call_ids` and
-- `ensure_tool_pairing` of src/thumbelina/agent/compression/base.py). The scan with its index is one
-- pass that carries the ids of the assistant turn whose answers are being collected, and those that
-- are answered.
use thumbelina.Prelude.{
  String, Bool, true, false, not, ◌||◌, Option, none, some, List, [], ◌∷◌, ◌++◌, str_eq, contains,
  if◌then◌else◌,
}
use thumbelina.Compression.Messages.{Message, AiMessage, Content}

-- one call of `_collect`
unfoldable pub collect : List (Option String) → List String → List String
collect [] ids = ids
collect (none ∷ calls) ids = collect calls ids
collect (some id ∷ calls) ids =
    let skipped = collect calls ids in
    let added = collect calls (ids ++ id ∷ []) in
    if str_eq id "" || contains ids id then skipped else added

unfoldable pub tool_call_ids : AiMessage → List String
unfolding collect
tool_call_ids a =
    collect a.additional_tool_calls (collect a.invalid_tool_calls (collect a.tool_calls []))

-- the ids that a message declares, where it is an assistant turn
unfoldable pub declared_ids : Message → List String
unfolding tool_call_ids
declared_ids (Message.ai a) = tool_call_ids a
declared_ids _ = []

abbrev pub is_tool : Message → Bool
is_tool (Message.tool c id) = true
is_tool _ = false

abbrev pub placeholder : String → Message
placeholder id = Message.tool (Content.text "[工具调用被中断，未返回结果]") id

-- `result` and `changed`
abbrev pub Repair : Type 0
Repair = List Message × Bool

abbrev keep_message : Message → Repair → Repair
keep_message m r = (m ∷ r.0, r.1)

-- placeholders for the ids that are not answered, before the rest
unfoldable pub fill : List String → List String → Repair → Repair
fill [] answered r = r
fill (id ∷ ids) answered r =
    let rest = fill ids answered r in
    if contains answered id then rest else (placeholder id ∷ rest.0, true)

abbrev pub Turn : Type 0
Turn = Option (List String × List String)

-- a message outside the answers of a turn; `repair` is the pass over what follows it
unfoldable pub begin_turn : (Turn → Repair) → Message → List String → Repair
begin_turn repair m (id ∷ ids) = keep_message m (repair (some (id ∷ ids, [])))
begin_turn repair m [] =
    let dropped : Repair = ((repair none).0, true) in
    let kept = keep_message m (repair none) in if is_tool m then dropped else kept

-- a message that follows the turn of `ids`
unfoldable pub answer_turn : (Turn → Repair) → List String → List String → Message → Repair
unfolding begin_turn fill
answer_turn repair ids answered (Message.tool c id) =
    let kept = keep_message (Message.tool c id) (repair (some (ids, id ∷ answered))) in
    let dropped : Repair = ((repair (some (ids, answered))).0, true) in
    if contains ids id then kept else dropped
answer_turn repair ids answered m = fill ids answered (begin_turn repair m (declared_ids m))

unfoldable pub repair_from : List Message → Turn → Repair
unfolding begin_turn answer_turn
repair_from [] none = ([], false)
repair_from [] (some (ids, answered)) = fill ids answered ([], false)
repair_from (m ∷ ms) none = begin_turn (repair_from ms) m (declared_ids m)
repair_from (m ∷ ms) (some (ids, answered)) = answer_turn (repair_from ms) ids answered m

unfoldable pub ensure_tool_pairing : List Message → List Message
unfolding repair_from
ensure_tool_pairing messages =
    let r = repair_from messages none in if not (r.1) then messages else r.0
