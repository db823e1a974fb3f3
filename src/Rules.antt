-- ===== src/Rules.antt =====
-- artifact_rules.go and validate_rules.go: the review rules of a team.
pub mod Globs
pub mod Rule
pub mod Team
