-- ===== src/Limits.antt =====
-- internal/limits: the reservation counter and the semaphores of reservations.go, and the disk guard of disk.go.
-- An `int64` is an integer with the wrap-around written out (`wrap64`).
pub mod Reservations
pub mod Concurrent
pub mod DiskGuard
pub mod Semaphore
mod Slots
mod Tests
