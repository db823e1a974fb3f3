-- ===== src/Llm.antt =====
-- internal/hosted/llm/gateway.go: the bounded, recorded access to language models.
pub mod Request
pub mod Gateway
pub mod MemoryCache
