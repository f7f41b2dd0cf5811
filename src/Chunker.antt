-- ===== src/Chunker.antt =====
-- internal/chunker/chunker.go: how a stream of bytes is cut into chunks.
pub mod Options
pub mod Reader
pub mod Builtin
pub mod Stream
pub mod Cuts
pub mod Equivalence
pub mod Prefix
pub mod Whole
pub mod Split
mod Tests
