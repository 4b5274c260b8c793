-- ===== src/Rag/Indexer.antt =====
-- The indexer's step that embeds and stores the chunks of a document (`_embed_and_store` of
-- src/thumbelina/rag/pipeline/indexer.py). The embedding model, the vector store, and whether the cancel
-- event is set when a batch begins, are parameters; a progress callback returns.
use thumbelina.Prelude.{
  ℕ, zero, suc, ◌+◌, String, Bool, Option, none, some, List, [], ◌∷◌, ◌++◌, map, take, drop, length,
  if◌then◌else◌,
}
use thumbelina.Rag.Texts.{Text, is_empty}
use thumbelina.Rag.Fingerprints.{
  IndexedChunk, Fingerprint, Hashing, Deduplicated, ids_of, deduplicate, register_chunks,
}

-- a vector store by what it holds; a call that raises gives the error's text
pub record VectorStore : Type 1 where
  pub Contents : Type 0
  pub Vector : Type 0
  pub add : List IndexedChunk → List Vector → Contents → Option String × Contents
  pub delete : List String → Contents → Option String × Contents
  pub holds : Contents → String → Bool

pub data Embedded (Vector : Type 0) : Type 0 where
  embedded : List Vector → Embedded Vector
  raised : String → Embedded Vector

pub data IndexError : Type 0 where
  loading_failed chunking_failed embedding_failed storing_failed : String → IndexError

-- an event of the callback: the stage, and how many of how many chunks
pub data ProgressEvent : Type 0 where
  loading chunking : ProgressEvent
  embedding storing : ℕ → ℕ → ProgressEvent

-- `broken` is the exception of a deletion that nothing in the step catches
pub data Ending : Type 0 where
  completed cancelled : Ending
  failed : IndexError → Ending
  broken : String → Ending

abbrev pub batch_size : ℕ
batch_size = 32

module _ (v : VectorStore) where
  -- `added_ids`, what the store holds, the events, and how the loop ends
  pub record BatchState : Type 0 where
    pub added_ids : List String
    pub contents : v.Contents
    pub events : List ProgressEvent
    pub ending : Ending

  -- `_rollback_added`: the error of the deletion is only logged
  unfoldable pub rollback_added : List String → v.Contents → v.Contents
  rollback_added ids contents = if is_empty ids then contents else (v.delete ids contents).1

  abbrev roll_back : Ending → BatchState → BatchState
  roll_back e s = record s { contents = rollback_added s.added_ids s.contents; ending = e }

  -- after the write of a batch, with the error if it raised
  unfoldable pub write_ended :
      (BatchState → BatchState) → ℕ → ℕ → BatchState → Option String × v.Contents → BatchState
  write_ended next done total s (some msg, contents) =
      roll_back (failed (storing_failed msg)) (record s { contents = contents })
  write_ended next done total s (none, contents) =
      next (record s { contents = contents; events = s.events ++ embedding done total ∷ [] })

  -- a batch whose texts were given to the model
  unfoldable pub batch_embedded :
      (BatchState → BatchState)
      → ℕ
      → ℕ
      → List IndexedChunk
      → BatchState
      → Embedded v.Vector
      → BatchState
  batch_embedded next done total batch s (raised msg) = roll_back (failed (embedding_failed msg)) s
  batch_embedded next done total batch s (embedded vectors) =
      write_ended next done total (record s { added_ids = s.added_ids ++ ids_of batch })
        (v.add batch vectors s.contents)

  -- what the step changes: the store, the fingerprints, `indexed_count` and `errors`
  pub record IndexState : Type 0 where
    pub contents : v.Contents
    pub table : List Fingerprint
    pub indexed_count : ℕ
    pub errors : List IndexError
    pub events : List ProgressEvent

  -- the end of the step, with the chunks and their number
  unfoldable pub settle_batches :
      (List Fingerprint → List Fingerprint)
      → ℕ
      → IndexState
      → BatchState
      → Ending
      → Ending × IndexState
  settle_batches register total s b completed = (
    completed,
    record s {
      contents = b.contents;
      table = register s.table;
      indexed_count = s.indexed_count + total;
      events = s.events ++ b.events ++ storing total total ∷ [];
    },
  )
  settle_batches register total s b cancelled =
      (cancelled, record s { contents = b.contents; events = s.events ++ b.events })
  settle_batches register total s b (failed e) = (
    failed e,
    record s { contents = b.contents; errors = s.errors ++ e ∷ []; events = s.events ++ b.events },
  )
  settle_batches register total s b (broken msg) =
      (broken msg, record s { contents = b.contents; events = s.events ++ b.events })

  abbrev delete_ids : List String → v.Contents → Option String × v.Contents
  delete_ids ids contents = if is_empty ids then (none, contents) else v.delete ids contents

  -- what the deduplicator removes is deleted at once; with the error of the deletion if it raised
  unfoldable pub delete_removed : Deduplicated → IndexState → Option String × IndexState
  delete_removed d s =
      let r = delete_ids d.removed_old_ids s.contents in
      (r.0, record s { contents = r.1; table = d.table })

  -- an error of that deletion leaves the step
  unfoldable pub unless_broken :
      (IndexState → Ending × IndexState) → Option String × IndexState → Ending × IndexState
  unless_broken next (some msg, s) = (broken msg, s)
  unless_broken next (none, s) = next s

  module _ (embed : ℕ → List Text → Embedded v.Vector) (is_cancelled : ℕ → Bool) where
    -- the loop over the batches from `start`, on the chunks that are left; the fuel bounds its rounds
    unfoldable pub store_batches : ℕ → ℕ → ℕ → List IndexedChunk → BatchState → BatchState
    store_batches zero total start chunks s = s
    store_batches (suc fuel) total start [] s = s
    store_batches (suc fuel) total start (c ∷ cs) s =
        let batch = take batch_size (c ∷ cs) in
        let later = store_batches fuel total (start + batch_size) (drop batch_size (c ∷ cs)) in
        let texts = map (λ (d : IndexedChunk). d.content) batch in
        if is_cancelled start
        then roll_back cancelled s
        else batch_embedded later (start + length batch) total batch s (embed start texts)

    -- the batches of chunks that are there
    unfoldable pub store_chunks :
        (List Fingerprint → List Fingerprint) → List IndexedChunk → IndexState → Ending × IndexState
    store_chunks register [] s = (completed, s)
    store_chunks register (c ∷ cs) s =
        let total = length (c ∷ cs) in
        let start : BatchState = record {
          added_ids = [];
          contents = s.contents;
          events = [];
          ending = completed;
        } in
        let b = store_batches total total 0 (c ∷ cs) start in
        settle_batches register total s b b.ending

    -- `_embed_and_store`, with or without `chunk_dedup`
    unfoldable pub embed_and_store :
        Option Hashing → List IndexedChunk → IndexState → Ending × IndexState
    embed_and_store none chunks s = store_chunks (λ t. t) chunks s
    embed_and_store (some h) chunks s =
        let d = deduplicate h chunks s.table in
        unless_broken (store_chunks (register_chunks h d.chunks) d.chunks) (delete_removed d s)
