-- ===== src/Rag/Stored.antt =====
-- What the indexer's step leaves in the vector store (src/thumbelina/rag/pipeline/indexer.py).
use mathlib.Core.List.{append-nil}
use mathlib.Core.Path.{subst}
use thumbelina.Prelude.{
  ℕ, ◌+◌, String, Bool, true, false, ◌||◌, ◌⊎◌, ◌≢◌, Option, none, some, List, [], ◌∷◌, ◌++◌,
  length, contains, if◌then◌else◌, ◌≡◌, refl, sym, ◌∙◌, arith, inl, inr,
}
use thumbelina.Rag.Texts.{Text, is_empty}
use thumbelina.Rag.Fingerprints.{
  IndexedChunk, Fingerprint, Hashing, Deduplicated, ids_of, deduplicate, register_chunks,
}
use thumbelina.Rag.Indexer.{
  VectorStore, Embedded, Ending, completed, cancelled, failed, broken, IndexError, BatchState,
  IndexState, store_batches, settle_batches, store_chunks, delete_removed, unless_broken,
  embed_and_store,
}
use thumbelina.Rag.RolledBack.{IsStore, Deletes, IsAllOrNothing, store_batches-IsAllOrNothing}

-- what the deduplicator keeps and removes, if there is one
abbrev pub kept_chunks : Option Hashing → List IndexedChunk → List Fingerprint → List IndexedChunk
kept_chunks none chunks table = chunks
kept_chunks (some h) chunks table = (deduplicate h chunks table).chunks

abbrev pub removed_ids : Option Hashing → List IndexedChunk → List Fingerprint → List String
removed_ids none chunks table = []
removed_ids (some h) chunks table = (deduplicate h chunks table).removed_old_ids

module _ (v : VectorStore) (law : IsStore v) (deletes : Deletes v)
    (embed : ℕ → List Text → Embedded v.Vector) (is_cancelled : ℕ → Bool) where
  -- the end of a step on chunks, from a state in which `held` says whether an id is held
  unfoldable pub IsSettled :
      List IndexedChunk → String → Bool → IndexState v → Ending × IndexState v → Type 0
  IsSettled kept x held s r =
      ((r.0 ≡ completed)
        × (v.holds r.1.contents x ≡ (contains (ids_of kept) x || held))
        × (r.1.indexed_count ≡ s.indexed_count + length kept)
        × (r.1.errors ≡ s.errors))
      ⊎ ((r.0 ≢ completed)
          × (v.holds r.1.contents x ≡ held)
          × (r.1.indexed_count ≡ s.indexed_count)
          × ((e : List IndexError) × (r.1.errors ≡ s.errors ++ e)))

  settle_batches-IsSettled :
      (register : List Fingerprint → List Fingerprint) (kept : List IndexedChunk) (x : String)
      (s : IndexState v) (fresh : contains (ids_of kept) x ≡ true → v.holds s.contents x ≡ false)
      (b : BatchState v)
      → IsAllOrNothing v law deletes embed is_cancelled x s.contents (ids_of kept) fresh b
      → (e : Ending) → b.ending ≡ e
      → IsSettled kept x (v.holds s.contents x) s (settle_batches v register (length kept) s b e)
  unfolding IsSettled settle_batches IsAllOrNothing
  settle_batches-IsSettled register kept x s fresh b (inl k) completed h =
      inl (refl, k.1, refl, refl)
  settle_batches-IsSettled register kept x s fresh b (inr k) completed h = absurd (k.0 h)
  settle_batches-IsSettled register kept x s fresh b (inl k) cancelled h = cc
  settle_batches-IsSettled register kept x s fresh b (inr k) cancelled h =
      inr ((λ g. cc), k.1, refl, ([], sym (append-nil s.errors)))
  settle_batches-IsSettled register kept x s fresh b (inl k) (failed e) h = cc
  settle_batches-IsSettled register kept x s fresh b (inr k) (failed e) h =
      inr ((λ g. cc), k.1, refl, (e ∷ [], refl))
  settle_batches-IsSettled register kept x s fresh b (inl k) (broken msg) h = cc
  settle_batches-IsSettled register kept x s fresh b (inr k) (broken msg) h =
      inr ((λ g. cc), k.1, refl, ([], sym (append-nil s.errors)))

  store_chunks-IsSettled :
      (register : List Fingerprint → List Fingerprint) (kept : List IndexedChunk) (x : String)
      (s : IndexState v)
      → (contains (ids_of kept) x ≡ true → v.holds s.contents x ≡ false)
      → IsSettled kept x
          (v.holds s.contents x)
          s
          (store_chunks v embed is_cancelled register kept s)
  unfolding IsSettled store_chunks
  store_chunks-IsSettled register [] x s fresh = inl (refl, refl, omega arith, refl)
  store_chunks-IsSettled register (c ∷ cs) x s fresh =
      let start : BatchState v = record {
        added_ids = [];
        contents = s.contents;
        events = [];
        ending = completed;
      } in
      let b =
        store_batches v embed is_cancelled (length (c ∷ cs)) (length (c ∷ cs)) 0 (c ∷ cs) start in
      settle_batches-IsSettled register (c ∷ cs) x s fresh b
        (store_batches-IsAllOrNothing v law deletes embed is_cancelled x s.contents
          (ids_of (c ∷ cs)) fresh (length (c ∷ cs)) (length (c ∷ cs)) 0 (c ∷ cs) start (omega arith)
          record { split = refl; held = refl; going = refl })
        b.ending refl

  -- whether an id is held once the old chunks are deleted that the new ones replace
  abbrev pub was_held : Option Hashing → List IndexedChunk → String → IndexState v → Bool
  was_held h chunks x s =
      if contains (removed_ids h chunks s.table) x then false else v.holds s.contents x

  holds-delete_removed :
      (d : Deduplicated) (x : String) (s : IndexState v)
      → v.holds (delete_removed v d s).1.contents x
        ≡ (if contains d.removed_old_ids x then false else v.holds s.contents x)
  unfolding delete_removed
  holds-delete_removed d x s = deleted d.removed_old_ids
    where
      deleted :
          (ids : List String)
          → v.holds (if is_empty ids then (none, s.contents) else v.delete ids s.contents).1 x
            ≡ (if contains ids x then false else v.holds s.contents x)
      deleted [] = refl
      deleted (i ∷ ids) = law.deletes (i ∷ ids) s.contents x (deletes (i ∷ ids) s.contents)

  delete_removed-none : (d : Deduplicated) (s : IndexState v) → (delete_removed v d s).0 ≡ none
  unfolding delete_removed
  delete_removed-none d s = of_ids d.removed_old_ids
    where
      of_ids :
          (ids : List String)
          → (if is_empty ids then (none, s.contents) else v.delete ids s.contents).0 ≡ none
      of_ids [] = refl
      of_ids (i ∷ ids) = deletes (i ∷ ids) s.contents

  -- Where the store's deletions succeed and the ids of the chunks that are kept are new to the store,
  -- and whatever the embedding model, the cancel event and the store's additions do: the step ends completed, and then the store holds
  -- exactly these chunks and what it held before less the chunks that they replace, all of them are
  -- counted and there is no new error; or it ends otherwise, and then the store holds none of the new
  -- chunks and still not those that were to be replaced, nothing is counted, and errors are at most
  -- added.
  pub embed_and_store-IsSettled :
      (h : Option Hashing) (chunks : List IndexedChunk) (x : String) (s : IndexState v)
      → (contains (ids_of (kept_chunks h chunks s.table)) x ≡ true → was_held h chunks x s ≡ false)
      → IsSettled
          (kept_chunks h chunks s.table)
          x
          (was_held h chunks x s)
          s
          (embed_and_store v embed is_cancelled h chunks s)
  unfolding embed_and_store delete_removed unless_broken IsSettled
  embed_and_store-IsSettled none chunks x s fresh = store_chunks-IsSettled (λ t. t) chunks x s fresh
  embed_and_store-IsSettled (some h) chunks x s fresh =
      let d = deduplicate h chunks s.table in
      let g = holds-delete_removed d x s in
      let after = (delete_removed v d s).1 in
      let kept =
        subst
          (λ held.
            IsSettled d.chunks x held s
              (store_chunks v embed is_cancelled (register_chunks h d.chunks) d.chunks after))
          g
          (store_chunks-IsSettled (register_chunks h d.chunks) d.chunks x after
            (λ i. g ∙ fresh i)) in
      rw (delete_removed-none d s) kept
