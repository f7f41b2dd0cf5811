-- ===== src/Limits/Tests.antt =====
-- The theorems on reservations at concrete amounts.
use chunk_gate.Prelude.{
  ℕ, ◌+◌, ◌≤◌, ◌≡◌, ◌⊎◌, refl, Bool, false, List, [], ◌∷◌, All, arith, none, some,
}
use chunk_gate.Prelude.Int.{pos}
use chunk_gate.Errors.{Error, capacity_exceeded, ok}
use chunk_gate.Limits.Semaphore.{
  Caller, polling, acquire_step, limit_of, new_adaptive_cpu_semaphore,
}
use chunk_gate.Limits.Slots.{AllNew, holds, queues, run-holders, limit_of-bounds}
use chunk_gate.Prelude.Threads.{run_threads, sum_of}
use chunk_gate.Limits.Reservations.{
  DiskReservations, IsValid, Fits, next_reserved, try_reserve, release, try_reserve_exact,
  release_exact, release-try_reserve,
}
use chunk_gate.Limits.Concurrent.{
  Shared, reserves, releases, called, loaded, returned, action, alone, schedule, IsSound,
  action-linearizable, refusal-linearizable, schedule-IsSound,
}
use chunk_gate.Limits.DiskGuard.{DiskGuard, reserve, reserved, Accepted, reserve_atomic}

abbrev half_full : DiskReservations
half_full = record { capacity = pos 10; used = pos 5 }

half_full-IsValid : IsValid half_full
half_full-IsValid = omega arith

try_reserve_exact_example :
    (Fits half_full (pos 5)
      × (try_reserve half_full (pos 5) ≡ (none, record half_full { used = pos 10 })))
    ⊎ ((¬ Fits half_full (pos 5))
        × (try_reserve half_full (pos 5) ≡ (some capacity_exceeded, half_full)))
try_reserve_exact_example = try_reserve_exact half_full (pos 5) half_full-IsValid (omega arith)

release_exact_example : (release half_full (pos 7)).used ≡ pos 0
release_exact_example = release_exact half_full (pos 7) half_full-IsValid (omega arith)

release-try_reserve_example : release (try_reserve half_full (pos 5)).1 (pos 5) ≡ half_full
unfolding try_reserve
release-try_reserve_example =
    release-try_reserve half_full (pos 5) half_full-IsValid (omega arith) refl

-- Two threads that want the last bytes, and one that gives some back.
abbrev contended : Shared
contended = record {
  reservations = half_full;
  threads = called (reserves (pos 5)) ∷ called (reserves (pos 5)) ∷ called (releases (pos 2)) ∷ [];
}

schedule-IsSound_example :
    IsValid (schedule contended (0 ∷ 1 ∷ 0 ∷ 1 ∷ 2 ∷ 0 ∷ 1 ∷ [])).reservations
    × All IsSound (schedule contended (0 ∷ 1 ∷ 0 ∷ 1 ∷ 2 ∷ 0 ∷ 1 ∷ [])).threads
schedule-IsSound_example =
    schedule-IsSound contended (0 ∷ 1 ∷ 0 ∷ 1 ∷ 2 ∷ 0 ∷ 1 ∷ []) half_full-IsValid (omega arith)

action-linearizable_example :
    ((action half_full (loaded (reserves (pos 5)) (pos 5))).0 ≡ half_full)
    ⊎ (((action half_full (loaded (reserves (pos 5)) (pos 5))).1 ≡ returned (reserves (pos 5)) none)
        × (alone half_full (reserves (pos 5))
            ≡ (none, (action half_full (loaded (reserves (pos 5)) (pos 5))).0)))
action-linearizable_example =
    action-linearizable half_full (loaded (reserves (pos 5)) (pos 5)) (omega arith)

refusal-linearizable_example :
    alone half_full (reserves (pos 6)) ≡ (some capacity_exceeded, half_full)
unfolding next_reserved
refusal-linearizable_example = refusal-linearizable half_full (pos 6) (omega arith) refl

abbrev guard : DiskGuard
guard = record { min_free_bytes = pos 100; reservations = half_full }

reserve_atomic_example :
    ((e : Error) × (reserve guard none none (pos 5) (ok (pos 200)) ≡ (some e, guard)))
    ⊎ ((reserve guard none none (pos 5) (ok (pos 200)) ≡ (none, reserved guard (pos 5)))
        × Accepted guard (pos 5) (pos 200))
reserve_atomic_example =
    reserve_atomic guard (pos 5) (pos 200) half_full-IsValid (omega arith) (omega arith)
      (omega arith)

abbrev callers : List Caller
callers = polling false ∷ polling false ∷ []

callers-AllNew : AllNew callers
callers-AllNew = (refl, (refl, tt))

-- Two callers that load 0 both, of whom one gets the slot.
abbrev race : List (ℕ × Bool)
race = (0, false) ∷ (1, false) ∷ (0, false) ∷ (1, false) ∷ []

run-holders_example :
    let (s, us) =
      run_threads (acquire_step 4) race (new_adaptive_cpu_semaphore 8 (pos 1) (pos 2)) callers in
    (sum_of (acquire_step 4) holds us ≡ s.active)
    × (sum_of (acquire_step 4) queues us ≡ s.waiting)
    × (sum_of (acquire_step 4) holds us ≤ limit_of 4 (new_adaptive_cpu_semaphore 8 (pos 1) (pos 2)))
run-holders_example = run-holders 8 4 (pos 1) (pos 2) callers race callers-AllNew

limit_of-bounds_example :
    let s = new_adaptive_cpu_semaphore 8 (pos 0) (pos 2) in
    (1 ≤ limit_of 4 s)
    × (limit_of 4 s ≤ s.max_limit)
    × ((limit_of 4 s ≡ 1) ⊎ (limit_of 4 s + s.headroom ≤ 4))
limit_of-bounds_example = limit_of-bounds 8 4 (pos 0) (pos 2) (omega arith)
