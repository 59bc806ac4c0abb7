-- ===== src/Flags/Tests.antt =====
-- The tests of crates/feature-flag and platform-services/feature-flags.
mod Evaluation
mod Server
