-- ===== src/Strings.antt =====
-- src/strings.c: the shell's string helpers.
pub mod Case
pub mod Search
pub mod Quote
pub mod Split
pub mod Join
pub mod Colon
pub mod PathEntry
pub mod Buffer
