-- ===== src/Config.antt =====
-- config_cascade.go: the settings that a file of the repository gets.
pub mod Decode
pub mod Cascade
