-- ===== src/Graph.antt =====
-- internal/hosted/graph: the symbols of a repository and the edges between them.
pub mod Resolve
pub mod Incremental
pub mod Overlay
