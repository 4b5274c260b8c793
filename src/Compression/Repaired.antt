-- ===== src/Compression/Repaired.antt =====
-- What the repair of tool pairing achieves (`ensure_tool_pairing` of
-- src/thumbelina/agent/compression/base.py).
use thumbelina.Prelude.{
  String, Bool, true, false, ◌&&◌, ◌||◌, none, some, List, [], ◌∷◌, ◌≡◌, refl, ◌∙◌, arith, contains,
  if◌then◌else◌, if_known, eq_iff, eq_refl,
}
use thumbelina.Compression.Messages.{Message}
use thumbelina.Compression.Pairing.{
  Repair, Turn, declared_ids, is_tool, fill, begin_turn, answer_turn, repair_from,
}

unfoldable pub all_in : List String → List String → Bool
all_in [] answered = true
all_in (id ∷ ids) answered = contains answered id && all_in ids answered

unfoldable pub accepts_begin : (Turn → Bool) → Message → List String → Bool
accepts_begin accepts m (id ∷ ids) = accepts (some (id ∷ ids, []))
accepts_begin accepts m [] = if is_tool m then false else accepts none

unfoldable pub accepts_answer : (Turn → Bool) → List String → List String → Message → Bool
unfolding accepts_begin all_in
accepts_answer accepts ids answered (Message.tool c id) =
    contains ids id && accepts (some (ids, id ∷ answered))
accepts_answer accepts ids answered m =
    all_in ids answered && accepts_begin accepts m (declared_ids m)

-- The rule of the endpoints: an assistant turn that declares tool calls is followed by tool messages
-- of its ids only, which cover them all, and tool messages stand nowhere else.
unfoldable pub accepts_from : List Message → Turn → Bool
unfolding accepts_answer accepts_begin all_in
accepts_from [] none = true
accepts_from [] (some (ids, answered)) = all_in ids answered
accepts_from (m ∷ ms) none = accepts_begin (accepts_from ms) m (declared_ids m)
accepts_from (m ∷ ms) (some (ids, answered)) = accepts_answer (accepts_from ms) ids answered m

unfoldable pub is_paired : List Message → Bool
unfolding accepts_from
is_paired messages = accepts_from messages none

-- each id of the first list is in the second
Covers : List String → List String → Type 0
Covers ids answered = (i : String) → contains ids i ≡ true → contains answered i ≡ true

all_in-Covers : (ids answered : List String) → Covers ids answered → all_in ids answered ≡ true
unfolding all_in Covers
all_in-Covers [] answered h = refl
all_in-Covers (id ∷ ids) answered h =
    ground (arith, h id, eq_refl id, all_in-Covers ids answered (λ i g. h i (ground (arith, g))))

-- after the placeholders for the ids still to be answered, all are
fill-accepts :
    (todo ids answered now : List String) (r : Repair)
    → Covers todo ids
    → Covers answered now
    → ((i : String) → contains ids i ≡ true → contains now i || contains todo i ≡ true)
    → ((now' : List String) → all_in ids now' ≡ true → accepts_from (r.0) (some (ids, now')) ≡ true)
    → accepts_from ((fill todo answered r).0) (some (ids, now)) ≡ true
unfolding fill accepts_from accepts_answer Covers
fill-accepts [] ids answered now r a b c d =
    d now (all_in-Covers ids now (λ i g. ground (arith, c i g)))
fill-accepts (id ∷ todo) ids answered now r a b c d =
    if_known (λ (x : Repair). accepts_from (x.0) (some (ids, now)) ≡ true) (contains answered id)
      (λ h.
        fill-accepts todo ids answered now r (λ i g. a i (ground (arith, g))) b
          (λ i g. ground (arith, c i g, b id h, eq_iff id i)) d)
      (λ h. ground (
        arith,
        a id,
        eq_refl id,
        fill-accepts todo ids answered (id ∷ now) r (λ i g. a i (ground (arith, g)))
            (λ i g. ground (arith, b i g)) (λ i g. ground (arith, c i g)) d,
      ))

-- every continuation of the pass is accepted
unfoldable pub Repairs : (Turn → Repair) → Type 0
Repairs repair = (o : Turn) → accepts_from ((repair o).0) o ≡ true

begin_turn-accepts :
    (repair : Turn → Repair) (m : Message) (ds : List String)
    → Repairs repair
    → declared_ids m ≡ ds
    → accepts_from ((begin_turn repair m ds).0) none ≡ true
unfolding begin_turn accepts_from accepts_begin Repairs
begin_turn-accepts repair m (d ∷ ds) h e = rw e (h (some (d ∷ ds, [])))
begin_turn-accepts repair m [] h e =
    if_known (λ (x : Repair). accepts_from (x.0) none ≡ true) (is_tool m) (λ t. h none)
      (λ t. rw e (rw t (h none)))

accepts_from-cons :
    (m : Message) (ms : List Message) (ids now : List String)
    → is_tool m ≡ false
    → accepts_from (m ∷ ms) (some (ids, now))
      ≡ (all_in ids now && accepts_begin (accepts_from ms) m (declared_ids m))
unfolding accepts_from accepts_answer
accepts_from-cons (Message.system c) ms ids now t = refl
accepts_from-cons (Message.human c) ms ids now t = refl
accepts_from-cons (Message.ai a) ms ids now t = refl
accepts_from-cons (Message.tool c id) ms ids now t = cc

begin_turn-accepts_after :
    (repair : Turn → Repair) (ids now : List String) (m : Message) (ds : List String)
    → Repairs repair
    → is_tool m ≡ false
    → declared_ids m ≡ ds
    → all_in ids now ≡ true
    → accepts_from ((begin_turn repair m ds).0) (some (ids, now)) ≡ true
unfolding begin_turn accepts_begin Repairs
begin_turn-accepts_after repair ids now m (d ∷ ds) h t e a =
    let o : Turn = some (d ∷ ds, []) in
    accepts_from-cons m ((repair o).0) ids now t ∙ rw (a, e) (h o)
begin_turn-accepts_after repair ids now m [] h t e a =
    rw t (accepts_from-cons m ((repair none).0) ids now t ∙ rw (a, e, t) (h none))

fill-accepts_after :
    (repair : Turn → Repair) (ids answered : List String) (m : Message)
    → Repairs repair
    → is_tool m ≡ false
    → accepts_from
        ((fill ids answered (begin_turn repair m (declared_ids m))).0)
        (some (ids, answered))
      ≡ true
unfolding Covers
fill-accepts_after repair ids answered m h t =
    fill-accepts ids ids answered answered (begin_turn repair m (declared_ids m)) (λ i g. g)
      (λ i g. g) (λ i g. ground (arith, g))
      (λ now. begin_turn-accepts_after repair ids now m (declared_ids m) h t refl)

answer_turn-accepts :
    (repair : Turn → Repair) (ids answered : List String) (m : Message)
    → Repairs repair
    → accepts_from ((answer_turn repair ids answered m).0) (some (ids, answered)) ≡ true
unfolding answer_turn accepts_from accepts_answer Repairs
answer_turn-accepts repair ids answered (Message.tool c id) h =
    if_known (λ (x : Repair). accepts_from (x.0) (some (ids, answered)) ≡ true) (contains ids id)
      (λ e. rw e (h (some (ids, id ∷ answered)))) (λ e. h (some (ids, answered)))
answer_turn-accepts repair ids answered (Message.system c) h =
    fill-accepts_after repair ids answered (Message.system c) h refl
answer_turn-accepts repair ids answered (Message.human c) h =
    fill-accepts_after repair ids answered (Message.human c) h refl
answer_turn-accepts repair ids answered (Message.ai a) h =
    fill-accepts_after repair ids answered (Message.ai a) h refl

pub repair_from-accepts : (ms : List Message) → Repairs (repair_from ms)
unfolding repair_from Repairs accepts_from Covers
repair_from-accepts [] none = refl
repair_from-accepts [] (some (ids, answered)) =
    fill-accepts ids ids answered answered ([], false) (λ i g. g) (λ i g. g)
      (λ i g. ground (arith, g)) (λ now a. a)
repair_from-accepts (m ∷ ms) none =
    begin_turn-accepts (repair_from ms) m (declared_ids m) (repair_from-accepts ms) refl
repair_from-accepts (m ∷ ms) (some (ids, answered)) =
    answer_turn-accepts (repair_from ms) ids answered m (repair_from-accepts ms)
