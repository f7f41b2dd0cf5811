-- ===== src/Gc.antt =====
-- internal/gc/sweeper.go and internal/backend/retry.go: the garbage collector and the retries.
pub mod Retry
pub mod Sweeper
pub mod Attempts
pub mod Accounts
pub mod Deletes
mod Tests
