-- ===== src/Rag/StoreExamples.antt =====
-- A store that holds a list of ids, and a step on two chunks of which one replaces an old one
-- (src/thumbelina/rag/pipeline/indexer.py).
use thumbelina.Prelude.{
  ℕ, String, true, false, not, Option, none, some, List, [], ◌∷◌, ◌++◌, map, keep, contains, leb,
  str_eq, eq_iff, if◌then◌else◌, ◌≡◌, refl, ap, ◌∙◌, arith, Bool-cases, inl, inr,
}
use thumbelina.Rag.Texts.{Text}
use thumbelina.Rag.Fingerprints.{
  IndexedChunk, Fingerprint, Hashing, ids_of, deduplicate, exact_dedup, minhash_dedup,
  unique_chunks, rows_with_hashes, similar_rows, similar_row, remove_fingerprints,
}
use thumbelina.Rag.Indexer.{
  VectorStore, Embedded, embedded, IndexState, embed_and_store, store_chunks, store_batches,
  batch_embedded, write_ended, settle_batches,
}
use thumbelina.Rag.DocumentDedup.{LoadedDocument, check, check_sha256, get_by_sha256, check_simhash}
use thumbelina.Rag.Files.{
  FileState, Parts, Cancelled, done, store_document, store_chunked, settle_document, index_document,
  index_documents, index_loaded, with_new_stats, index, add_stats, index_paths, index_batch,
}
use thumbelina.Rag.Reported.{index_batch-IsReported}
use thumbelina.Rag.RolledBack.{IsStore, Deletes, contains-append}
use thumbelina.Rag.Stored.{IsSettled, kept_chunks, was_held, embed_and_store-IsSettled}

abbrev without : List String → List String → List String
without ids held = keep (λ x. not (contains ids x)) held

-- it refuses a batch without vectors
abbrev add_ids : List IndexedChunk → List ℕ → List String → Option String × List String
add_ids batch [] held = (some "no vectors", held)
add_ids batch (w ∷ ws) held = (none, ids_of batch ++ held)

abbrev list_store : VectorStore
list_store = record {
  Contents = List String;
  Vector = ℕ;
  add = add_ids;
  delete = λ ids held. (none, without ids held);
  holds = contains;
}

contains-without :
    (ids held : List String) (x : String)
    → contains (without ids held) x ≡ (if contains ids x then false else contains held x)
contains-without ids [] x = ground arith
contains-without ids (y ∷ ys) x = elim (Bool-cases (str_eq y x)) [
  | inl same ↦
      let e : y ≡ x = (eq_iff y x).0 same in
      ground (arith, same, ap (contains ids) e, contains-without ids ys x)
  | inr other ↦ ground (arith, other, contains-without ids ys x)
]

touches_ids :
    (batch : List IndexedChunk) (vs : List ℕ) (held : List String) (x : String)
    → contains (ids_of batch) x ≡ false
    → contains (add_ids batch vs held).1 x ≡ contains held x
touches_ids batch [] held x h = refl
touches_ids batch (w ∷ ws) held x h = contains-append x (ids_of batch) held ∙ ground (arith, h)

adds_ids :
    (batch : List IndexedChunk) (vs : List ℕ) (held : List String) (x : String)
    → (add_ids batch vs held).0 ≡ none
    → contains (ids_of batch) x ≡ true
    → contains (add_ids batch vs held).1 x ≡ true
adds_ids batch [] held x e h = cc
adds_ids batch (w ∷ ws) held x e h = contains-append x (ids_of batch) held ∙ ground (arith, h)

list_store-IsStore : IsStore list_store
list_store-IsStore = record {
  deletes = λ ids c x e. contains-without ids c x;
  touches = touches_ids;
  adds = adds_ids;
}

list_store-Deletes : Deletes list_store
list_store-Deletes ids held = refl

-- texts are their own hashes, by their first character
abbrev hash : Text → String
hash [] = "empty"
hash (c ∷ t) = if leb c 97 then "a" else "b"

abbrev hashing : Hashing
hashing = record { sha256 = hash; signature = hash; is_similar = str_eq }

abbrev chunk_of : String → ℕ → IndexedChunk
chunk_of id c = record { id = id; document_id = "d"; knowledge_base_id = "0"; content = c ∷ [] }

abbrev chunks : List IndexedChunk
chunks = chunk_of "n-1" 97 ∷ chunk_of "n-2" 98 ∷ []

abbrev old : Fingerprint
old = record { id = "o-1"; document_id = "e"; kb_id = "0"; content_hash = "a"; minhash_sig = "a" }

abbrev embed : ℕ → List Text → Embedded ℕ
embed start texts = embedded (map (λ t. 1) texts)

abbrev state : IndexState list_store
state = record {
  contents = "o-1" ∷ "o-2" ∷ [];
  table = old ∷ [];
  indexed_count = 0;
  errors = [];
  events = [];
}

new_id :
    contains (ids_of (kept_chunks (some hashing) chunks state.table)) "n-1" ≡ true
    → was_held list_store list_store-IsStore list_store-Deletes embed
        (λ n. false)
        (some hashing)
        chunks
        "n-1"
        state
      ≡ false
unfolding deduplicate exact_dedup minhash_dedup unique_chunks rows_with_hashes similar_rows
    similar_row remove_fingerprints
new_id i = refl

embed_and_store-IsSettled_example :
    IsSettled list_store list_store-IsStore list_store-Deletes embed
      (λ n. false)
      (kept_chunks (some hashing) chunks state.table)
      "n-1"
      (was_held list_store list_store-IsStore list_store-Deletes embed
        (λ n. false)
        (some hashing)
        chunks
        "n-1"
        state)
      state
      (embed_and_store list_store embed (λ n. false) (some hashing) chunks state)
embed_and_store-IsSettled_example =
    embed_and_store-IsSettled list_store list_store-IsStore list_store-Deletes embed (λ n. false)
      (some hashing) chunks "n-1" state new_id

abbrev report : LoadedDocument
report = record { id = "d"; name = "report"; knowledge_base_id = "0"; sha256 = "h"; sim_hash = "" }

-- one file, of one document, in two chunks
abbrev parts : Parts list_store
parts = record {
  load = λ path. done (report ∷ []);
  chunk = λ d. done chunks;
  embed = λ d. embed;
  delete_by_document = λ id held. held;
  similar = λ h rs. [];
  doc_deduplicator = true;
  chunk_dedup = none;
}

abbrev never : Cancelled list_store
never = record { at_start = λ path. false; at_batch = λ d n. false }

abbrev file_state : FileState list_store
file_state = record {
  inner = state;
  repo = [];
  documents = [];
  document_count = 0;
  chunk_count = 0;
  skipped_count = 0;
}

batch_ends :
    ((index_batch list_store parts never ("a.txt" ∷ []) file_state).0 ≡ true)
    × ((index_batch list_store parts never ("a.txt" ∷ []) file_state).1.inner.errors ≡ [])
unfolding index_batch index_paths index index_loaded index_documents index_document settle_document
    store_document store_chunked with_new_stats add_stats check check_sha256 get_by_sha256
    check_simhash embed_and_store store_chunks store_batches batch_embedded write_ended
    settle_batches
batch_ends = (refl, refl)

index_batch-IsReported_example :
    (index_batch list_store parts never ("a.txt" ∷ []) file_state).1.inner.indexed_count
    ≡ (index_batch list_store parts never ("a.txt" ∷ []) file_state).1.chunk_count
index_batch-IsReported_example =
    index_batch-IsReported list_store parts never refl ("a.txt" ∷ []) file_state batch_ends.0
      batch_ends.1
