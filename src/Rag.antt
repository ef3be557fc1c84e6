-- ===== src/Rag.antt =====
-- rag: retrieval.
pub mod EmbeddingCache
pub mod Memstore
pub mod EmbedderRegistry
pub mod Chunker
pub mod Pipeline
pub mod Hits
pub mod Context
pub mod Nearest
pub mod ParentRetriever
pub mod Fusion
pub mod Search
