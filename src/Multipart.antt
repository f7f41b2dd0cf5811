-- ===== src/Multipart.antt =====
-- internal/multipart/manager.go: the sessions of multipart uploads and the scratch space they
-- reserve.
pub mod Manager
pub mod Sessions
pub mod Parts
pub mod Cleanup
pub mod Rollback
mod Tests
