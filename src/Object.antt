-- ===== src/Object.antt =====
-- internal/object/service.go: objects as chunks in a block store and manifests in the metadata.
pub mod Blocks
pub mod Service
pub mod Open
pub mod Slices
pub mod Pieces
pub mod Ranges
pub mod Stored
pub mod Upload
pub mod Select
pub mod Samples
mod Tests
