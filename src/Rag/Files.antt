-- ===== src/Rag/Files.antt =====
-- The indexing of files (`index`, `index_batch`, `_load` and `_chunk` of
-- src/thumbelina/rag/pipeline/indexer.py). The loader, the chunker and the embedding model are
-- parameters, and so is when the cancel event is set. Deleting by document returns. Loading and
-- chunking of an event go without the file's name.
use thumbelina.Prelude.{
  ℕ, suc, ◌+◌, String, Bool, true, false, Option, none, some, List, [], ◌∷◌, ◌++◌, length, str_eq,
  if◌then◌else◌,
}
use thumbelina.Rag.Texts.{Text}
use thumbelina.Rag.Fingerprints.{IndexedChunk, Hashing, remove_fingerprints_by_doc}
use thumbelina.Rag.DocumentDedup.{
  LoadedDocument, DocumentRecord, DedupAction, delete_document, check,
}
use thumbelina.Rag.Indexer.{
  VectorStore, Embedded, IndexError, loading_failed, chunking_failed, ProgressEvent, loading,
  chunking, Ending, completed, cancelled, failed, broken, IndexState, embed_and_store,
}

-- a call that may raise, with the error's text
pub data Attempt (A : Type 0) : Type 0 where
  done : A → Attempt A
  raised : String → Attempt A

module _ (v : VectorStore) where
  -- the state that the step changes, the table of documents, and the other fields of `IndexStats`
  pub record FileState : Type 0 where
    pub inner : IndexState v
    pub repo : List DocumentRecord
    pub documents : List LoadedDocument
    pub document_count : ℕ
    pub chunk_count : ℕ
    pub skipped_count : ℕ

  -- what the indexer is made of
  pub record Parts : Type 0 where
    pub load : String → Attempt (List LoadedDocument)
    pub chunk : LoadedDocument → Attempt (List IndexedChunk)
    pub embed : LoadedDocument → ℕ → List Text → Embedded v.Vector
    pub delete_by_document : String → v.Contents → v.Contents
    pub similar : String → List DocumentRecord → List (DocumentRecord × ℕ)
    pub doc_deduplicator : Bool
    pub chunk_dedup : Option Hashing

  -- when the cancel event is set: at the start of a file, and at the batches of a document
  pub record Cancelled : Type 0 where
    pub at_start : String → Bool
    pub at_batch : LoadedDocument → ℕ → Bool

  abbrev pub emit : ProgressEvent → FileState → FileState
  emit e s = record s { inner = record s.inner { events = s.inner.events ++ e ∷ [] } }

  abbrev add_error : IndexError → FileState → FileState
  add_error e s = record s { inner = record s.inner { errors = s.inner.errors ++ e ∷ [] } }

  abbrev skip_one : FileState → FileState
  skip_one s = record s { skipped_count = suc s.skipped_count }

  -- `documents.remove`, where documents are told apart by their ids
  unfoldable pub remove_document : LoadedDocument → List LoadedDocument → List LoadedDocument
  remove_document d [] = []
  remove_document d (e ∷ es) =
      let rest = remove_document d es in if str_eq e.id d.id then es else e ∷ rest

  -- the old document that a similar one replaces is deleted everywhere
  unfoldable pub replace_old : Parts → String → FileState → FileState
  replace_old parts old s = record s {
    repo = delete_document old s.repo;
    inner = record s.inner {
      contents = parts.delete_by_document old s.inner.contents;
      table = elim parts.chunk_dedup [
        | none ↦ s.inner.table
        | some h ↦ remove_fingerprints_by_doc old s.inner.table
      ];
    };
  }

  abbrev pub goes_on : Ending → Bool
  goes_on completed = true
  goes_on cancelled = false
  goes_on (failed e) = true
  goes_on (broken msg) = false

  -- the document with what the chunker gives; whether the file goes on
  unfoldable pub store_chunked :
      Parts
      → Cancelled
      → LoadedDocument
      → Attempt (List IndexedChunk)
      → FileState
      → Bool × FileState
  store_chunked parts c d (raised msg) s = (true, add_error (chunking_failed msg) s)
  store_chunked parts c d (done []) s = (true, skip_one s)
  store_chunked parts c d (done (k ∷ ks)) s =
      let r = embed_and_store v (parts.embed d) (c.at_batch d) parts.chunk_dedup (k ∷ ks) s.inner in
      (goes_on r.0, record s { inner = r.1; chunk_count = s.chunk_count + length (k ∷ ks) })

  -- `_chunk` and `_embed_and_store`
  unfoldable pub store_document : Parts → Cancelled → LoadedDocument → FileState → Bool × FileState
  store_document parts c d s = store_chunked parts c d (parts.chunk d) (emit chunking s)

  abbrev pub skip_duplicate : LoadedDocument → FileState → FileState
  skip_duplicate d s = record s {
    documents = remove_document d s.documents;
    skipped_count = suc s.skipped_count;
  }

  -- a document, after what the deduplicator says of it
  unfoldable pub settle_document :
      Parts
      → Cancelled
      → LoadedDocument
      → DedupAction
      → Option String
      → FileState
      → Bool × FileState
  settle_document parts c d DedupAction.exact_duplicate old s = (true, skip_duplicate d s)
  settle_document parts c d DedupAction.identical_simhash old s = (true, skip_duplicate d s)
  settle_document parts c d DedupAction.near_duplicate (some old) s =
      store_document parts c d (replace_old parts old s)
  settle_document parts c d DedupAction.near_duplicate none s = store_document parts c d s
  settle_document parts c d DedupAction.pass old s = store_document parts c d s

  unfoldable pub index_document : Parts → Cancelled → LoadedDocument → FileState → Bool × FileState
  index_document parts c d s =
      let r = check parts.similar d s.repo in
      if parts.doc_deduplicator
      then settle_document parts c d r.action r.existing_doc_id s
      else store_document parts c d s

  abbrev pub go_on : (FileState → Bool × FileState) → Bool × FileState → Bool × FileState
  go_on next (true, s) = next s
  go_on next (false, s) = (false, s)

  -- the loop over the documents; false when the cancellation or the error of a deletion is raised
  unfoldable pub index_documents :
      Parts → Cancelled → List LoadedDocument → FileState → Bool × FileState
  index_documents parts c [] s = (true, s)
  index_documents parts c (d ∷ ds) s =
      go_on (index_documents parts c ds) (index_document parts c d s)

  -- the documents that `_load` gives
  unfoldable pub index_loaded :
      Parts → Cancelled → Attempt (List LoadedDocument) → FileState → Bool × FileState
  index_loaded parts c (raised msg) s = (true, add_error (loading_failed msg) s)
  index_loaded parts c (done []) s = (true, skip_one s)
  index_loaded parts c (done (d ∷ ds)) s =
      index_documents parts c (d ∷ ds)
        (record s { documents = d ∷ ds; document_count = s.document_count + length (d ∷ ds) })

  -- the statistics of a new file
  unfoldable pub with_new_stats : FileState → FileState
  with_new_stats s = record s {
    inner = record s.inner { indexed_count = 0; errors = [] };
    documents = [];
    document_count = 0;
    chunk_count = 0;
    skipped_count = 0;
  }

  unfoldable pub index : Parts → Cancelled → String → FileState → Bool × FileState
  index parts c path s =
      let t = with_new_stats s in
      if c.at_start path
      then (false, t)
      else index_loaded parts c (parts.load path) (emit loading t)

  -- `total` after a file, on the state that the file leaves
  unfoldable pub add_stats : FileState → FileState → FileState
  add_stats total r = record r {
    inner = record r.inner {
      indexed_count = total.inner.indexed_count + r.inner.indexed_count;
      errors = total.inner.errors ++ r.inner.errors;
    };
    documents = total.documents ++ r.documents;
    document_count = total.document_count + r.document_count;
    chunk_count = total.chunk_count + r.chunk_count;
    skipped_count = total.skipped_count + r.skipped_count;
  }

  -- a file of the batch: its statistics are new, and are added to the total
  abbrev pub add_result : FileState → Bool × FileState → Bool × FileState
  add_result total (goes_on, r) = (goes_on, add_stats total r)

  unfoldable pub index_paths : Parts → Cancelled → List String → FileState → Bool × FileState
  index_paths parts c [] total = (true, total)
  index_paths parts c (p ∷ ps) total =
      go_on (index_paths parts c ps) (add_result total (index parts c p total))

  unfoldable pub index_batch : Parts → Cancelled → List String → FileState → Bool × FileState
  index_batch parts c paths s = index_paths parts c paths (with_new_stats s)
