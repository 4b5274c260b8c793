-- ===== src/Rag/Reported.antt =====
-- No chunk is lost without an error (src/thumbelina/rag/pipeline/indexer.py).
use thumbelina.Prelude.{
  ℕ, ◌+◌, String, Bool, true, false, Option, none, some, List, [], ◌∷◌, ◌++◌, length, if_both, ◌≡◌,
  refl, arith,
}
use thumbelina.Rag.Texts.{Text}
use thumbelina.Rag.Fingerprints.{IndexedChunk, Fingerprint, Hashing}
use thumbelina.Rag.DocumentDedup.{LoadedDocument, DedupAction, check}
use thumbelina.Rag.Indexer.{
  VectorStore, Embedded, Ending, completed, cancelled, failed, broken, BatchState, IndexState,
  loading_failed, chunking_failed, loading, chunking, store_batches, settle_batches, store_chunks,
  embed_and_store,
}
use thumbelina.Rag.Files.{
  goes_on, go_on, add_result, emit, store_chunked, FileState, Parts, Cancelled, Attempt, done,
  raised, replace_old, store_document, settle_document, index_document, index_documents,
  index_loaded, with_new_stats, index, add_stats, index_paths, index_batch,
}

append_nil_left : {A : Type 0} (xs ys : List A) → xs ++ ys ≡ [] → xs ≡ []
append_nil_left [] ys h = refl
append_nil_left (x ∷ xs) ys h = cc

append_nil_right : {A : Type 0} (xs ys : List A) → xs ++ ys ≡ [] → ys ≡ []
append_nil_right [] ys h = h
append_nil_right (x ∷ xs) ys h = cc

module _ (v : VectorStore) where
  -- unless an error is reported, the chunks that were made are counted as indexed
  unfoldable pub IsReported : FileState v → Type 0
  IsReported s = s.inner.errors ≡ [] → s.inner.indexed_count ≡ s.chunk_count

  -- what holds of a run that goes on
  Going : Bool × FileState v → Type 0
  Going r = r.0 ≡ true → IsReported r.1

  -- a step on chunks that goes on without a new error counts them all
  settle_batches-counted :
      (register : List Fingerprint → List Fingerprint) (total : ℕ) (s : IndexState v)
      (b : BatchState v) (e : Ending)
      → let r = settle_batches v register total s b e in
        goes_on v r.0 ≡ true
        → r.1.errors ≡ []
        → (s.errors ≡ []) × (r.1.indexed_count ≡ s.indexed_count + total)
  unfolding settle_batches
  settle_batches-counted register total s b completed g h = (h, refl)
  settle_batches-counted register total s b cancelled g h = cc
  settle_batches-counted register total s b (broken msg) g h = cc
  settle_batches-counted register total s b (failed e) g h =
      absurd (never (append_nil_right s.errors (e ∷ []) h))
    where
      never : e ∷ [] ≡ [] → ⊥
      never h = cc

  embed_and_store-counted :
      (embed : ℕ → List Text → Embedded v.Vector) (is_cancelled : ℕ → Bool) (h : Option Hashing)
      (k : IndexedChunk) (ks : List IndexedChunk) (s : IndexState v)
      → h ≡ none
      → let r = embed_and_store v embed is_cancelled h (k ∷ ks) s in
        goes_on v r.0 ≡ true
        → r.1.errors ≡ []
        → (s.errors ≡ []) × (r.1.indexed_count ≡ s.indexed_count + length (k ∷ ks))
  unfolding embed_and_store store_chunks
  embed_and_store-counted embed is_cancelled (some h) k ks s e g f = cc
  embed_and_store-counted embed is_cancelled none k ks s e g f =
      let total = length (k ∷ ks) in
      let b =
        store_batches v embed is_cancelled total total 0 (k ∷ ks)
          record { added_ids = []; contents = s.contents; events = []; ending = completed } in
      settle_batches-counted (λ t. t) total s b b.ending g f

  module _ (parts : Parts v) (c : Cancelled v) (unchanged : parts.chunk_dedup ≡ none) where
    store_chunked-Going :
        (d : LoadedDocument) (a : Attempt (List IndexedChunk)) (s : FileState v)
        → IsReported s
        → Going (store_chunked v parts c d a s)
    unfolding Going IsReported store_chunked
    store_chunked-Going d (raised msg) s h g e =
        h (append_nil_left s.inner.errors (chunking_failed msg ∷ []) e)
    store_chunked-Going d (done []) s h g e = h e
    store_chunked-Going d (done (k ∷ ks)) s h g e =
        let (f, n) =
          embed_and_store-counted (parts.embed d) (c.at_batch d) parts.chunk_dedup k ks s.inner
            unchanged g e in
        omega (arith, n, h f)

    store_document-Going :
        (d : LoadedDocument) (s : FileState v) → IsReported s → Going (store_document v parts c d s)
    unfolding store_document IsReported
    store_document-Going d s h = store_chunked-Going d (parts.chunk d) (emit v chunking s) h

    settle_document-Going :
        (d : LoadedDocument) (a : DedupAction) (old : Option String) (s : FileState v)
        → IsReported s
        → Going (settle_document v parts c d a old s)
    unfolding settle_document IsReported Going replace_old
    settle_document-Going d DedupAction.exact_duplicate old s h = λ g e. h e
    settle_document-Going d DedupAction.identical_simhash old s h = λ g e. h e
    settle_document-Going d DedupAction.near_duplicate (some old) s h =
        store_document-Going d (replace_old v parts old s) h
    settle_document-Going d DedupAction.near_duplicate none s h = store_document-Going d s h
    settle_document-Going d DedupAction.pass old s h = store_document-Going d s h

    index_document-Going :
        (d : LoadedDocument) (s : FileState v) → IsReported s → Going (index_document v parts c d s)
    unfolding index_document
    index_document-Going d s h =
        let r = check parts.similar d s.repo in
        if_both Going parts.doc_deduplicator
          (settle_document-Going d r.action r.existing_doc_id s h) (store_document-Going d s h)

    go_on-Going :
        (next : FileState v → Bool × FileState v)
        → ((s : FileState v) → IsReported s → Going (next s))
        → (r : Bool × FileState v) → Going r
        → Going (go_on v next r)
    unfolding Going
    go_on-Going next f (true, s) h = f s (h refl)
    go_on-Going next f (false, s) h = λ g. cc

    index_documents-Going :
        (ds : List LoadedDocument) (s : FileState v)
        → IsReported s
        → Going (index_documents v parts c ds s)
    unfolding index_documents Going
    index_documents-Going [] s h = λ g. h
    index_documents-Going (d ∷ ds) s h =
        go_on-Going (index_documents v parts c ds) (index_documents-Going ds)
          (index_document v parts c d s) (index_document-Going d s h)

    index_loaded-Going :
        (a : Attempt (List LoadedDocument)) (s : FileState v)
        → IsReported s
        → Going (index_loaded v parts c a s)
    unfolding index_loaded Going IsReported
    index_loaded-Going (raised msg) s h =
        λ g e. h (append_nil_left s.inner.errors (loading_failed msg ∷ []) e)
    index_loaded-Going (done []) s h = λ g e. h e
    index_loaded-Going (done (d ∷ ds)) s h =
        index_documents-Going (d ∷ ds)
          (record s { documents = d ∷ ds; document_count = s.document_count + length (d ∷ ds) }) h

    index-Going : (path : String) (s : FileState v) → Going (index v parts c path s)
    unfolding index Going with_new_stats IsReported
    index-Going path s =
        if_both Going (c.at_start path) (λ g. cc)
          (index_loaded-Going (parts.load path) (emit v loading (with_new_stats v s)) (λ e. refl))

    add_result-Going :
        (total : FileState v) (r : Bool × FileState v)
        → IsReported total
        → Going r
        → Going (add_result v total r)
    unfolding Going IsReported add_stats
    add_result-Going total (goes, r) h k g e = omega (
      arith,
      h (append_nil_left total.inner.errors r.inner.errors e),
      k g (append_nil_right total.inner.errors r.inner.errors e),
    )

    index_paths-Going :
        (ps : List String) (total : FileState v)
        → IsReported total
        → Going (index_paths v parts c ps total)
    unfolding index_paths Going
    index_paths-Going [] total h = λ g. h
    index_paths-Going (p ∷ ps) total h =
        go_on-Going (index_paths v parts c ps) (index_paths-Going ps)
          (add_result v total (index v parts c p total))
          (add_result-Going total (index v parts c p total) h (index-Going p total))

    -- Without the deduplicator of chunks, and whatever the files, the loader, the chunker, the embedding
    -- model, the vector store and the deduplicator of documents are: when a batch of files is indexed to
    -- its end, and no error is reported, then the count of indexed chunks is that of the chunks made.
    pub index_batch-IsReported :
        (paths : List String) (s : FileState v)
        → (index_batch v parts c paths s).0 ≡ true
        → (index_batch v parts c paths s).1.inner.errors ≡ []
        → (index_batch v parts c paths s).1.inner.indexed_count
          ≡ (index_batch v parts c paths s).1.chunk_count
    unfolding index_batch Going IsReported with_new_stats
    index_batch-IsReported paths s = index_paths-Going paths (with_new_stats v s) (λ e. refl)
