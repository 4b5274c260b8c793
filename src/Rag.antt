-- ===== src/Rag.antt =====
-- The ingestion of documents for retrieval (src/thumbelina/rag/ingestion and
-- src/thumbelina/rag/pipeline).
pub mod Texts
pub mod Chunker
pub mod Fingerprints
pub mod Indexer
pub mod RolledBack
pub mod Stored
pub mod DocumentDedup
pub mod Files
pub mod Reported
mod Examples
mod StoreExamples
