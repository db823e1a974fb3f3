-- ===== src/Learning.antt =====
-- internal/hosted/learning: what reviewers' feedback changes.
pub mod Suppression
pub mod Links
pub mod Proposals
pub mod Memory
pub mod Replies
