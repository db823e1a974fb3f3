-- ===== src/Indexer.antt =====
-- internal/hosted/indexer: what of a repository is indexed, and what a new commit changes in the index.
pub mod Limits
pub mod Reindex
pub mod Bytes
pub mod Split
pub mod Chunk
