-- ===== src/Backend.antt =====
-- internal/backend/fs.go: blocks as files.
pub mod FileStore
pub mod FileLaws
pub mod Isolation
mod Tests
