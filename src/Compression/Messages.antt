-- ===== src/Compression/Messages.antt =====
-- Messages and their token estimate (src/thumbelina/agent/compression/base.py and `estimate_tokens`
-- of src/thumbelina/rag/retrieval/context_formatter.py). A LangChain message is its class with the
-- fields that the compressors read.
use Prim.Native.Char.{code}
use Prim.Native.String.{[] as end, ◌∷◌ as char}
use thumbelina.Prelude.{
  ℕ, ◌+◌, ◌-◌, ◌*◌, ◌/◌, String, Bool, false, Option, none, some, List, [], ◌∷◌, str_eq,
  if◌then◌else◌,
}

-- A block of a list content: a plain text, or a dictionary with its `type`, `text` and `thinking`.
pub data Block : Type 0 where
  plain : String → Block
  dict : Option String → Option String → Option String → Block

pub data Content : Type 0 where
  text : String → Content
  blocks : List Block → Content
  absent : Content

-- The `id` of each tool call, where there is one, in the three places that declare calls.
pub record AiMessage : Type 0 where
  pub content : Content
  pub tool_calls : List (Option String)
  pub invalid_tool_calls : List (Option String)
  pub additional_tool_calls : List (Option String)

pub data Message : Type 0 where
  system : Content → Message
  human : Content → Message
  ai : AiMessage → Message
  tool : Content → String → Message

abbrev pub content_of : Message → Content
content_of (Message.system c) = c
content_of (Message.human c) = c
content_of (Message.ai a) = a.content
content_of (Message.tool c id) = c

-- the number of characters, and of those that `east_asian_width` calls wide or full-width
unfoldable pub char_count : String → ℕ
char_count end = 0
char_count (char c cs) = char_count cs + 1

unfoldable pub wide_count : (ℕ → Bool) → String → ℕ
wide_count wide end = 0
wide_count wide (char c cs) = (if wide (code c) then 1 else 0) + wide_count wide cs

-- `int(cjk * 2 + (len(text) - cjk) * 0.25)`, in quarters of a token
unfoldable pub estimate_tokens : (ℕ → Bool) → String → ℕ
unfolding char_count wide_count
estimate_tokens wide s = (wide_count wide s * 8 + (char_count s - wide_count wide s)) / 4

abbrev pub image_block_token_placeholder : ℕ
image_block_token_placeholder = 765

-- `block.get("text") or block.get("thinking") or ""`
abbrev or_else : Option String → String → String
or_else none d = d
or_else (some s) d = if str_eq s "" then d else s

abbrev pub block_text : Block → String
block_text (plain s) = s
block_text (dict type words thinking) = or_else words (or_else thinking "")

-- The texts that `message_text` joins.
unfoldable pub block_texts : List Block → List String
block_texts [] = []
block_texts (b ∷ bs) = block_text b ∷ block_texts bs

abbrev pub is_image : Block → Bool
is_image (plain s) = false
is_image (dict none words thinking) = false
is_image (dict (some type) words thinking) = str_eq type "image"

unfoldable pub image_blocks : List Block → ℕ
image_blocks [] = 0
image_blocks (b ∷ bs) = (if is_image b then 1 else 0) + image_blocks bs

unfoldable pub image_block_count : Content → ℕ
unfolding image_blocks
image_block_count (Content.text s) = 0
image_block_count (blocks bs) = image_blocks bs
image_block_count absent = 0

-- the counts of the joined texts are the sums of their counts
unfoldable pub chars_of : List String → ℕ
chars_of [] = 0
chars_of (s ∷ ss) = char_count s + chars_of ss

unfoldable pub wides_of : (ℕ → Bool) → List String → ℕ
wides_of wide [] = 0
wides_of wide (s ∷ ss) = wide_count wide s + wides_of wide ss

-- `estimate_tokens(message_text(message))`
unfoldable pub content_tokens : (ℕ → Bool) → Content → ℕ
unfolding estimate_tokens block_texts chars_of wides_of
content_tokens wide (Content.text s) = estimate_tokens wide s
content_tokens wide (blocks bs) =
    let ss = block_texts bs in (wides_of wide ss * 8 + (chars_of ss - wides_of wide ss)) / 4
content_tokens wide absent = 0

unfoldable pub message_tokens : (ℕ → Bool) → Message → ℕ
unfolding content_tokens image_block_count
message_tokens wide m =
    content_tokens wide (content_of m)
    + image_block_count (content_of m) * image_block_token_placeholder

unfoldable pub estimate_messages_tokens : (ℕ → Bool) → List Message → ℕ
unfolding message_tokens
estimate_messages_tokens wide [] = 0
estimate_messages_tokens wide (m ∷ ms) = message_tokens wide m + estimate_messages_tokens wide ms
