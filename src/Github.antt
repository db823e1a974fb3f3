-- ===== src/Github.antt =====
-- internal/hosted/githubapp: what a comment on a pull request may ask for.
pub mod Commands
