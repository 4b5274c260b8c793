-- ===== src/Rag/RolledBack.antt =====
-- Storing the chunks of a document is all or nothing (src/thumbelina/rag/pipeline/indexer.py).
use mathlib.Core.List.{append-nil}
use mathlib.Core.Path.{subst}
use thumbelina.Prelude.{
  ℕ, zero, suc, ◌+◌, ◌≤◌, String, Bool, true, false, ◌||◌, ◌⊎◌, ◌≢◌, Option, none, some, List, [],
  ◌∷◌, ◌++◌, map, take, drop, length, take-drop, append_assoc, contains, if◌then◌else◌, if_both,
  if_known, ◌≡◌, refl, sym, ap, ◌∙◌, arith, Bool-cases, inl, inr,
}
use thumbelina.Rag.Texts.{Text}
use thumbelina.Rag.Fingerprints.{IndexedChunk, ids_of}
use thumbelina.Rag.Indexer.{
  VectorStore, Embedded, embedded, raised, embedding, completed, BatchState, batch_size,
  rollback_added, write_ended, batch_embedded, store_batches,
}

pub contains-append :
    (x : String) (xs ys : List String) → contains (xs ++ ys) x ≡ (contains xs x || contains ys x)
contains-append x [] ys = refl
contains-append x (y ∷ xs) ys = ground (arith, contains-append x xs ys)

ids_of-append : (cs ds : List IndexedChunk) → ids_of (cs ++ ds) ≡ ids_of cs ++ ids_of ds
ids_of-append [] ds = refl
ids_of-append (c ∷ cs) ds = ap (◌∷◌ c.id) (ids_of-append cs ds)

drop_at_most : (n : ℕ) (cs : List IndexedChunk) → length (drop n cs) ≤ length cs
drop_at_most zero cs = omega arith
drop_at_most (suc n) [] = omega arith
drop_at_most (suc n) (c ∷ cs) = omega (arith, drop_at_most n cs)

drop_shorter :
    (n : ℕ) (c : IndexedChunk) (cs : List IndexedChunk) → length (drop (suc n) (c ∷ cs)) ≤ length cs
drop_shorter n c cs = drop_at_most n cs

-- What a vector store does: a deletion that does not raise deletes the ids and no other; an addition, also one that
-- raises, touches no other id than those of its chunks, and one that does not raise adds these.
pub record IsStore (v : VectorStore) : Type 0 where
  pub deletes :
      (ids : List String) (c : v.Contents) (x : String)
      → (v.delete ids c).0 ≡ none
      → v.holds (v.delete ids c).1 x ≡ (if contains ids x then false else v.holds c x)
  pub touches :
      (batch : List IndexedChunk) (vs : List v.Vector) (c : v.Contents) (x : String)
      → contains (ids_of batch) x ≡ false
      → v.holds (v.add batch vs c).1 x ≡ v.holds c x
  pub adds :
      (batch : List IndexedChunk) (vs : List v.Vector) (c : v.Contents) (x : String)
      → (v.add batch vs c).0 ≡ none
      → contains (ids_of batch) x ≡ true
      → v.holds (v.add batch vs c).1 x ≡ true

-- no deletion raises
abbrev pub Deletes : VectorStore → Type 0
Deletes v = (ids : List String) (c : v.Contents) → (v.delete ids c).0 ≡ none

module _ (v : VectorStore) (law : IsStore v) (deletes : Deletes v)
    (embed : ℕ → List Text → Embedded v.Vector) (is_cancelled : ℕ → Bool) where
  holds-rollback_added :
      (ids : List String) (c : v.Contents) (x : String)
      → v.holds (rollback_added v ids c) x ≡ (if contains ids x then false else v.holds c x)
  unfolding rollback_added
  holds-rollback_added [] c x = refl
  holds-rollback_added (i ∷ ids) c x = law.deletes (i ∷ ids) c x (deletes (i ∷ ids) c)

  module _ (x : String) (before : v.Contents) (ids : List String)
      (fresh : contains ids x ≡ true → v.holds before x ≡ false) where
    undone :
        (a : List String) (c : v.Contents)
        → (contains a x ≡ true → contains ids x ≡ true)
        → (contains a x ≡ false → v.holds c x ≡ v.holds before x)
        → v.holds (rollback_added v a c) x ≡ v.holds before x
    undone a c h k =
        holds-rollback_added a c x
        ∙ if_known (λ (b : Bool). b ≡ v.holds before x) (contains a x) (λ was. sym (fresh (h was)))
            k

    -- all of the chunks are held, or what was held before
    unfoldable pub IsAllOrNothing : BatchState v → Type 0
    IsAllOrNothing s =
        ((s.ending ≡ completed) × (v.holds s.contents x ≡ (contains ids x || v.holds before x)))
        ⊎ ((s.ending ≢ completed) × (v.holds s.contents x ≡ v.holds before x))

    -- what holds at the head of the loop, with the chunks that are left
    pub record IsStoring (rest : List IndexedChunk) (s : BatchState v) : Type 0 where
      pub split : s.added_ids ++ ids_of rest ≡ ids
      pub held : v.holds s.contents x ≡ (contains s.added_ids x || v.holds before x)
      pub going : s.ending ≡ completed

    contains-first :
        (a b : List String) → a ++ b ≡ ids → contains a x ≡ true → contains ids x ≡ true
    contains-first a b h k =
        sym (ap (λ l. contains l x) h) ∙ contains-append x a b ∙ ground (arith, k)

    module _ (batch rest : List IndexedChunk) (vs : List v.Vector) (s : BatchState v)
        (k : IsStoring (batch ++ rest) s) (o : Option String × v.Contents)
        (e : o ≡ v.add batch vs s.contents) where
      split_after : (s.added_ids ++ ids_of batch) ++ ids_of rest ≡ ids
      split_after =
          append_assoc s.added_ids (ids_of batch) (ids_of rest)
          ∙ ap (λ l. s.added_ids ++ l) (sym (ids_of-append batch rest))
          ∙ k.split

      -- an addition keeps what is not of its batch
      kept_outside :
          contains (ids_of batch) x ≡ false
          → v.holds o.1 x ≡ (contains s.added_ids x || v.holds before x)
      kept_outside out =
          ap (λ (p : Option String × v.Contents). v.holds p.1 x) e
          ∙ law.touches batch vs s.contents x out
          ∙ k.held

      kept_unless_added :
          contains (s.added_ids ++ ids_of batch) x ≡ false → v.holds o.1 x ≡ v.holds before x
      kept_unless_added out =
          let c = contains-append x s.added_ids (ids_of batch) in
          kept_outside (ground (arith, c, out)) ∙ ground (arith, c, out)

      held_after :
          o.0 ≡ none
          → v.holds o.1 x ≡ (contains (s.added_ids ++ ids_of batch) x || v.holds before x)
      held_after success = elim (Bool-cases (contains (ids_of batch) x)) [
        | inl inside ↦
            ap (λ (p : Option String × v.Contents). v.holds p.1 x) e
            ∙ law.adds batch vs s.contents x
                (sym (ap (λ (p : Option String × v.Contents). p.0) e) ∙ success) inside
            ∙ ground (arith, contains-append x s.added_ids (ids_of batch), inside)
        | inr outside ↦
            kept_outside outside
            ∙ ground (arith, contains-append x s.added_ids (ids_of batch), outside)
      ]

    -- the batch is written and the loop goes on, or everything is undone
    write_ended-IsAllOrNothing :
        (next : BatchState v → BatchState v) (done total : ℕ) (batch rest : List IndexedChunk)
        (vs : List v.Vector) (s : BatchState v)
        → IsStoring (batch ++ rest) s
        → ((t : BatchState v) → IsStoring rest t → IsAllOrNothing (next t))
        → (o : Option String × v.Contents) → o ≡ v.add batch vs s.contents
        → IsAllOrNothing
            (write_ended v next done total (record s { added_ids = s.added_ids ++ ids_of batch }) o)
    unfolding write_ended IsAllOrNothing
    write_ended-IsAllOrNothing next done total batch rest vs s k g (some msg, c) e = inr (
      (λ h. cc),
      undone (s.added_ids ++ ids_of batch) c
          (contains-first (s.added_ids ++ ids_of batch) (ids_of rest)
            (split_after batch rest vs s k (some msg, c) e))
          (kept_unless_added batch rest vs s k (some msg, c) e),
    )
    write_ended-IsAllOrNothing next done total batch rest vs s k g (none, c) e =
        g
          (record s {
            added_ids = s.added_ids ++ ids_of batch;
            contents = c;
            events = s.events ++ embedding done total ∷ [];
          })
          record {
            split = split_after batch rest vs s k (none, c) e;
            held = held_after batch rest vs s k (none, c) e refl;
            going = k.going;
          }

    undone_now :
        (rest : List IndexedChunk) (s : BatchState v)
        → IsStoring rest s
        → v.holds (rollback_added v s.added_ids s.contents) x ≡ v.holds before x
    undone_now rest s k =
        undone s.added_ids s.contents (contains-first s.added_ids (ids_of rest) k.split)
          (λ out. k.held ∙ ground (arith, out))

    batch_embedded-IsAllOrNothing :
        (next : BatchState v → BatchState v) (done total : ℕ) (batch rest : List IndexedChunk)
        (s : BatchState v)
        → IsStoring (batch ++ rest) s
        → ((t : BatchState v) → IsStoring rest t → IsAllOrNothing (next t))
        → (r : Embedded v.Vector) → IsAllOrNothing (batch_embedded v next done total batch s r)
    unfolding batch_embedded IsAllOrNothing
    batch_embedded-IsAllOrNothing next done total batch rest s k g (raised msg) =
        inr ((λ h. cc), undone_now (batch ++ rest) s k)
    batch_embedded-IsAllOrNothing next done total batch rest s k g (embedded vs) =
        write_ended-IsAllOrNothing next done total batch rest vs s k g (v.add batch vs s.contents)
          refl

    all_stored : (s : BatchState v) → IsStoring [] s → IsAllOrNothing s
    unfolding IsAllOrNothing
    all_stored s k = inl (
      k.going,
      k.held ∙ ap (λ l. contains l x || v.holds before x) (sym (append-nil s.added_ids) ∙ k.split),
    )

    pub store_batches-IsAllOrNothing :
        (fuel total start : ℕ) (chunks : List IndexedChunk) (s : BatchState v)
        → length chunks ≤ fuel
        → IsStoring chunks s
        → IsAllOrNothing (store_batches v embed is_cancelled fuel total start chunks s)
    unfolding store_batches IsAllOrNothing
    store_batches-IsAllOrNothing zero total start [] s f k = all_stored s k
    store_batches-IsAllOrNothing (suc fuel) total start [] s f k = all_stored s k
    store_batches-IsAllOrNothing zero total start (c ∷ cs) s f k = absurd (omega (arith, f))
    store_batches-IsAllOrNothing (suc fuel) total start (c ∷ cs) s f k =
        if_both IsAllOrNothing (is_cancelled start) (inr ((λ h. cc), undone_now (c ∷ cs) s k)) (
          batch_embedded-IsAllOrNothing
            (store_batches v embed is_cancelled fuel total (start + batch_size)
              (drop batch_size (c ∷ cs)))
            (start + length (take batch_size (c ∷ cs))) total (take batch_size (c ∷ cs))
            (drop batch_size (c ∷ cs)) s
            (subst (λ l. IsStoring l s) (sym (take-drop batch_size (c ∷ cs))) k)
            (λ t j.
              store_batches-IsAllOrNothing fuel total (start + batch_size)
                (drop batch_size (c ∷ cs)) t (omega (arith, f, drop_shorter 31 c cs)) j)
            (embed start (map (λ (d : IndexedChunk). d.content) (take batch_size (c ∷ cs)))))
