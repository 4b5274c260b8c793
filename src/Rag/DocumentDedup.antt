-- ===== src/Rag/DocumentDedup.antt =====
-- The deduplicator of documents (src/thumbelina/rag/ingestion/document_dedup.py) over the table of
-- documents. The search of similar hashes, which a vector index answers in the order of the distance,
-- is a parameter. A hash that is not there is the empty text.
use thumbelina.Prelude.{
  ℕ, zero, suc, String, not, Option, none, some, List, [], ◌∷◌, keep, str_eq, if◌then◌else◌,
}

-- a document of the loader
pub record LoadedDocument : Type 0 where
  pub id : String
  pub name : String
  pub knowledge_base_id : String
  pub sha256 : String
  pub sim_hash : String

-- a row of the table of documents
pub record DocumentRecord : Type 0 where
  pub id : String
  pub name : String
  pub sha256 : String

pub data DedupAction : Type 0 where
  pass exact_duplicate near_duplicate identical_simhash : DedupAction

-- with the fields that the indexer reads
pub record DedupResult : Type 0 where
  pub action : DedupAction
  pub existing_doc_id : Option String

abbrev passed_on : DedupResult
passed_on = record { action = DedupAction.pass; existing_doc_id = none }

-- `_get_by_sha256`
unfoldable pub get_by_sha256 : String → List DocumentRecord → Option DocumentRecord
get_by_sha256 sha256 [] = none
get_by_sha256 sha256 (r ∷ rs) =
    let rest = get_by_sha256 sha256 rs in if str_eq r.sha256 sha256 then some r else rest

-- `delete_sync`, less the index of hashes, which belongs to the search
unfoldable pub delete_document : String → List DocumentRecord → List DocumentRecord
delete_document id rs = keep (λ (r : DocumentRecord). not (str_eq r.id id)) rs

abbrev exact_if_found : Option DocumentRecord → DedupResult
exact_if_found none = passed_on
exact_if_found (some r) = record {
  action = DedupAction.exact_duplicate;
  existing_doc_id = some r.id;
}

-- `_check_sha256`
unfoldable pub check_sha256 : LoadedDocument → List DocumentRecord → DedupResult
check_sha256 d rs =
    if str_eq d.sha256 "" then passed_on else exact_if_found (get_by_sha256 d.sha256 rs)

-- the first of the similar documents decides
abbrev nearest : List (DocumentRecord × ℕ) → DedupResult
nearest [] = passed_on
nearest ((r, zero) ∷ rs) = record {
  action = DedupAction.identical_simhash;
  existing_doc_id = some r.id;
}
nearest ((r, suc n) ∷ rs) = record {
  action = DedupAction.near_duplicate;
  existing_doc_id = some r.id;
}

module _ (similar : String → List DocumentRecord → List (DocumentRecord × ℕ)) where
  -- `_check_simhash`
  unfoldable pub check_simhash : LoadedDocument → List DocumentRecord → DedupResult
  check_simhash d rs = if str_eq d.sim_hash "" then passed_on else nearest (similar d.sim_hash rs)

  abbrev or_else : DedupResult → DedupResult → DedupResult
  or_else first second = elim first.action [ DedupAction.pass ↦ second | _ ↦ first ]

  unfoldable pub check : LoadedDocument → List DocumentRecord → DedupResult
  check d rs = or_else (check_sha256 d rs) (check_simhash d rs)
