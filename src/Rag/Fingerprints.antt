-- ===== src/Rag/Fingerprints.antt =====
-- The fingerprints of chunks (src/thumbelina/rag/ingestion/chunk_dedup.py): the table
-- rag_chunk_fingerprints in the order of its rows, whose calls succeed. SHA-256, the signature of a
-- text and the test of the similarity of two signatures are parameters; the comparison of embeddings,
-- which the indexer leaves off, and the counters for the log are left out.
use thumbelina.Prelude.{
  String, Bool, not, ◌&&◌, List, [], ◌∷◌, ◌++◌, map, keep, contains, str_eq, if◌then◌else◌,
}
use thumbelina.Rag.Texts.{Text}

-- a chunk as the indexer passes it on
pub record IndexedChunk : Type 0 where
  pub id : String
  pub document_id : String
  pub knowledge_base_id : String
  pub content : Text

-- a row of the table; the signature is there with `enable_minhash`, which is on
pub record Fingerprint : Type 0 where
  pub id : String
  pub document_id : String
  pub kb_id : String
  pub content_hash : String
  pub minhash_sig : String

pub record Hashing : Type 0 where
  pub sha256 : Text → String
  pub signature : Text → String
  pub is_similar : String → String → Bool

-- the chunks, the removed ids and the table
pub record Deduplicated : Type 0 where
  pub chunks : List IndexedChunk
  pub removed_old_ids : List String
  pub table : List Fingerprint

abbrev pub ids_of : List IndexedChunk → List String
ids_of chunks = map (λ (c : IndexedChunk). c.id) chunks

-- `_remove_fingerprints`
unfoldable pub remove_fingerprints : List String → List Fingerprint → List Fingerprint
remove_fingerprints ids table = keep (λ (f : Fingerprint). not (contains ids f.id)) table

-- `remove_fingerprints_by_doc`
unfoldable pub remove_fingerprints_by_doc : String → List Fingerprint → List Fingerprint
remove_fingerprints_by_doc doc_id table =
    keep (λ (f : Fingerprint). not (str_eq f.document_id doc_id)) table

module _ (h : Hashing) where
  -- the chunks of the batch whose hash is not that of an earlier one
  unfoldable pub unique_chunks : List String → List IndexedChunk → List IndexedChunk
  unique_chunks seen [] = []
  unique_chunks seen (c ∷ cs) =
      let again = unique_chunks seen cs in
      let rest = unique_chunks (h.sha256 c.content ∷ seen) cs in
      if contains seen (h.sha256 c.content) then again else c ∷ rest

  -- `_query_hash_and_ids`, less the hashes
  unfoldable pub rows_with_hashes : String → List String → List Fingerprint → List String
  rows_with_hashes kb_id hashes table =
      map (λ (f : Fingerprint). f.id)
        (keep (λ (f : Fingerprint). str_eq f.kb_id kb_id && contains hashes f.content_hash) table)

  -- the first row that is similar to the text
  unfoldable pub similar_row : Text → List Fingerprint → List String
  similar_row content [] = []
  similar_row content (f ∷ fs) =
      let rest = similar_row content fs in
      if h.is_similar (h.signature content) f.minhash_sig then f.id ∷ [] else rest

  unfoldable pub similar_rows : List IndexedChunk → List Fingerprint → List String
  similar_rows [] existing = []
  similar_rows (c ∷ cs) existing = similar_row c.content existing ++ similar_rows cs existing

  -- `_minhash_dedup`, on what `_exact_dedup` leaves
  unfoldable pub minhash_dedup : String → Deduplicated → Deduplicated
  minhash_dedup kb_id d =
      let matched =
        similar_rows d.chunks (keep (λ (f : Fingerprint). str_eq f.kb_id kb_id) d.table) in
      record d {
        removed_old_ids = d.removed_old_ids ++ matched;
        table = remove_fingerprints matched d.table;
      }

  -- `_exact_dedup`
  unfoldable pub exact_dedup : String → List IndexedChunk → List Fingerprint → Deduplicated
  exact_dedup kb_id chunks table =
      let kept = unique_chunks [] chunks in
      let old =
        rows_with_hashes kb_id (map (λ (c : IndexedChunk). h.sha256 c.content) kept) table in
      record { chunks = kept; removed_old_ids = old; table = remove_fingerprints old table }

  -- `deduplicate`, where the chunks are those of one knowledge base
  unfoldable pub deduplicate : List IndexedChunk → List Fingerprint → Deduplicated
  deduplicate [] table = record { chunks = []; removed_old_ids = []; table = table }
  deduplicate (c ∷ cs) table =
      minhash_dedup c.knowledge_base_id (exact_dedup c.knowledge_base_id (c ∷ cs) table)

  -- the row of a chunk
  abbrev fingerprint_of : IndexedChunk → Fingerprint
  fingerprint_of c = record {
    id = c.id;
    document_id = c.document_id;
    kb_id = c.knowledge_base_id;
    content_hash = h.sha256 c.content;
    minhash_sig = h.signature c.content;
  }

  -- `register_chunks`: a row with the id of a chunk is replaced
  unfoldable pub register_chunks : List IndexedChunk → List Fingerprint → List Fingerprint
  register_chunks [] table = table
  register_chunks (c ∷ cs) table =
      register_chunks cs (remove_fingerprints (c.id ∷ []) table ++ fingerprint_of c ∷ [])
