-- ===== src/Delta.antt =====
-- internal/deltaclient: the client that downloads the chunks that it lacks.
pub mod Rebuild
mod Chunks
mod Rebuilt
mod Tests
