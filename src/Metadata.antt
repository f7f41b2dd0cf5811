-- ===== src/Metadata.antt =====
-- internal/metadata: the records of store.go and the in-memory store of memory.go.
pub mod Types
pub mod Memory
pub mod Sessions
pub mod Counts
pub mod Invariant
pub mod Steps
pub mod Runs
pub mod Garbage
pub mod View
pub mod Shards
mod Tests
