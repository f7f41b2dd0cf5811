-- ===== src/Limits/Slots.antt =====
-- How many callers hold the semaphores of internal/limits/reservations.go.
use chunk_gate.Prelude.{
  ℕ, ◌+◌, ◌≤◌, ◌<◌, ◌≡◌, refl, ap, sym, ◌⊎◌, inl, inr, Bool, true, false, ◌&&◌, Bool-cases, List,
  [], ◌∷◌, All, arith, ltb, nat_eq, if◌then◌else◌,
}
use Prim.Native.Nat.{max}
use chunk_gate.Prelude.Int.{ℤ, pos, leb_ℤ, pos_part}
use chunk_gate.Prelude.Threads.{run_threads, run_threads-All, sum_of, run_threads-sum_of}
use chunk_gate.Limits.Semaphore.{
  AdaptiveCpuSemaphore, new_adaptive_cpu_semaphore, limit_of, Caller, polling, loaded, holding,
  released, failed, acquire_step, acquired, unqueue, CpuSemaphore, new_cpu_semaphore, slot_step,
}

-- A caller that holds a slot, and one that waits.
abbrev pub holds : Caller → ℕ
holds holding = 1
holds _ = 0

abbrev queued_of : Bool → ℕ
queued_of true = 1
queued_of false = 0

abbrev pub queues : Caller → ℕ
queues (polling queued) = queued_of queued
queues (loaded queued active) = queued_of queued
queues _ = 0

-- Callers that have not done anything yet.
abbrev pub AllNew : List Caller → Type 0
AllNew ts = All (λ t. t ≡ polling false) ts

module _ (procs : ℕ) where
  step-holds :
      (canceled : Bool) (s : AdaptiveCpuSemaphore) (t : Caller)
      → holds t ≤ s.active
      → (acquire_step procs canceled s t).0.active + holds t
        ≡ s.active + holds (acquire_step procs canceled s t).1
  unfolding acquire_step
  step-holds canceled s (polling queued) h = ground arith
  step-holds canceled s (loaded queued active) h = ground arith
  step-holds canceled s holding h = omega arith
  step-holds canceled s released h = refl
  step-holds canceled s failed h = refl

  step-queues :
      (canceled : Bool) (s : AdaptiveCpuSemaphore) (t : Caller)
      → queues t ≤ s.waiting
      → (acquire_step procs canceled s t).0.waiting + queues t
        ≡ s.waiting + queues (acquire_step procs canceled s t).1
  unfolding acquire_step
  step-queues true s (polling true) h = omega arith
  step-queues true s (polling false) h = omega arith
  step-queues false s (polling queued) h = refl
  step-queues canceled s (loaded true active) h = ground arith
  step-queues canceled s (loaded false active) h = ground arith
  step-queues canceled s holding h = refl
  step-queues canceled s released h = refl
  step-queues canceled s failed h = refl

  -- The limit stays, and no more slots are taken.
  WithinLimit : ℕ → AdaptiveCpuSemaphore → Type 0
  WithinLimit n s = (limit_of procs s ≡ n) × (s.active ≤ n)

  took :
      (queued : Bool) (n : ℕ) (s : AdaptiveCpuSemaphore)
      → WithinLimit n s
      → s.active < limit_of procs s
      → WithinLimit n (unqueue queued (acquired queued s))
  unfolding WithinLimit limit_of
  took queued n s h k = (h.0, omega (arith, h.0, k))

  step-WithinLimit :
      (n : ℕ) (canceled : Bool) (s : AdaptiveCpuSemaphore) (t : Caller)
      → WithinLimit n s
      → WithinLimit n (acquire_step procs canceled s t).0
  unfolding acquire_step WithinLimit limit_of
  step-WithinLimit n true s (polling queued) h = h
  step-WithinLimit n false s (polling queued) h = h
  step-WithinLimit n canceled s (loaded queued active) h =
      elim (Bool-cases (ltb active (limit_of procs s) && nat_eq s.active active)) [
        | inl e ↦ rw e (took queued n s h (free s active e))
        | inr e ↦ rw e h
      ]
    where
      free :
          (s : AdaptiveCpuSemaphore) (active : ℕ)
          → (ltb active (limit_of procs s) && nat_eq s.active active) ≡ true
          → s.active < limit_of procs s
      free s active e = ground arith
  step-WithinLimit n canceled s holding h = (h.0, omega (arith, h.1))
  step-WithinLimit n canceled s released h = h
  step-WithinLimit n canceled s failed h = h

  none_yet : (ts : List Caller) → AllNew ts → 0 ≡ sum_of (acquire_step procs) holds ts
  none_yet [] h = refl
  none_yet (t ∷ ts) h = omega (arith, ap holds h.0, none_yet ts h.1)

  none_queued : (ts : List Caller) → AllNew ts → 0 ≡ sum_of (acquire_step procs) queues ts
  none_queued [] h = refl
  none_queued (t ∷ ts) h = omega (arith, ap queues h.0, none_queued ts h.1)

  all_kept : (ts : List Caller) → All (λ t. Unit {0}) ts
  all_kept [] = tt
  all_kept (t ∷ ts) = (tt, all_kept ts)

-- Under every interleaving of calls of `Acquire` and of the functions that they return, with their
-- contexts cancelled or not, the callers that hold the adaptive semaphore are `active`, those in its
-- queue are `waiting`, and no more hold it than `Limit` allows. `GOMAXPROCS` stays as it is.
pub run-holders :
    (num_cpu procs : ℕ) (max_limit headroom : ℤ) (ts : List Caller) (moves : List (ℕ × Bool))
    → AllNew ts
    → let (s, us) =
        run_threads
          (acquire_step procs)
          moves
          (new_adaptive_cpu_semaphore num_cpu max_limit headroom)
          ts in
      (sum_of (acquire_step procs) holds us ≡ s.active)
      × (sum_of (acquire_step procs) queues us ≡ s.waiting)
      × (sum_of (acquire_step procs) holds us
          ≤ limit_of procs (new_adaptive_cpu_semaphore num_cpu max_limit headroom))
unfolding new_adaptive_cpu_semaphore WithinLimit
run-holders num_cpu procs max_limit headroom ts moves h =
    let s : AdaptiveCpuSemaphore = new_adaptive_cpu_semaphore num_cpu max_limit headroom in
    let active : (run_threads (acquire_step procs) moves s ts).0.active
        ≡ sum_of (acquire_step procs) holds (run_threads (acquire_step procs) moves s ts).1 =
      run_threads-sum_of (acquire_step procs) (λ r. r.active) holds (step-holds procs) moves s ts
        (none_yet procs ts h) in
    let waiting : (run_threads (acquire_step procs) moves s ts).0.waiting
        ≡ sum_of (acquire_step procs) queues (run_threads (acquire_step procs) moves s ts).1 =
      run_threads-sum_of (acquire_step procs) (λ r. r.waiting) queues (step-queues procs) moves s ts
        (none_queued procs ts h) in
    let within : WithinLimit procs (limit_of procs s)
        (run_threads (acquire_step procs) moves s ts).0 =
      (run_threads-All (acquire_step procs) (WithinLimit procs (limit_of procs s)) (λ t. Unit {0})
        (λ canceled r t p q. (step-WithinLimit procs (limit_of procs s) canceled r t p, tt)) moves s
        ts (refl, omega arith) (all_kept procs ts)).0 in
    (sym active, sym waiting, omega (arith, active, within.1))

-- With at least one CPU, the limit of a new semaphore is at least 1 and at most its maximum, and is 1
-- or leaves its headroom free of the processors.
pub limit_of-bounds :
    (num_cpu procs : ℕ) (max_limit headroom : ℤ)
    → 1 ≤ num_cpu
    → let s = new_adaptive_cpu_semaphore num_cpu max_limit headroom in
      (1 ≤ limit_of procs s)
      × (limit_of procs s ≤ s.max_limit)
      × ((limit_of procs s ≡ 1) ⊎ (limit_of procs s + s.headroom ≤ procs))
unfolding limit_of new_adaptive_cpu_semaphore
limit_of-bounds num_cpu procs (pos n) (pos m) h = ground arith
limit_of-bounds num_cpu procs (ℤ.negsuc n) (pos m) h = ground arith
limit_of-bounds num_cpu procs (pos n) (ℤ.negsuc m) h = ground arith
limit_of-bounds num_cpu procs (ℤ.negsuc n) (ℤ.negsuc m) h = ground arith

slot-holds :
    (canceled : Bool) (s : CpuSemaphore) (t : Caller)
    → holds t ≤ s.taken
    → (slot_step canceled s t).0.taken + holds t ≡ s.taken + holds (slot_step canceled s t).1
unfolding slot_step
slot-holds true s (polling queued) h = refl
slot-holds false s (polling queued) h = ground arith
slot-holds canceled s (loaded queued active) h = refl
slot-holds canceled s holding h = omega arith
slot-holds canceled s released h = refl
slot-holds canceled s failed h = refl

HasRoom : ℕ → CpuSemaphore → Type 0
HasRoom n s = (s.slots ≡ n) × (s.taken ≤ n)

slot-HasRoom :
    (n : ℕ) (canceled : Bool) (s : CpuSemaphore) (t : Caller)
    → HasRoom n s
    → HasRoom n (slot_step canceled s t).0
unfolding slot_step HasRoom
slot-HasRoom n true s (polling queued) h = h
slot-HasRoom n false s (polling queued) h = ground arith
slot-HasRoom n canceled s (loaded queued active) h = h
slot-HasRoom n canceled s holding h = (h.0, omega (arith, h.1))
slot-HasRoom n canceled s released h = h
slot-HasRoom n canceled s failed h = h

no_slot : (ts : List Caller) → AllNew ts → 0 ≡ sum_of slot_step holds ts
no_slot [] h = refl
no_slot (t ∷ ts) h = omega (arith, ap holds h.0, no_slot ts h.1)

any_caller : (ts : List Caller) → All (λ t. Unit {0}) ts
any_caller [] = tt
any_caller (t ∷ ts) = (tt, any_caller ts)

-- Under every interleaving, no more callers hold a `CPUSemaphore` than its limit, or than 1 if that is
-- not positive.
pub run-slots :
    (limit : ℤ) (ts : List Caller) (moves : List (ℕ × Bool))
    → AllNew ts
    → sum_of slot_step holds (run_threads slot_step moves (new_cpu_semaphore limit) ts).1
      ≤ max 1 (pos_part limit)
unfolding new_cpu_semaphore HasRoom
run-slots limit ts moves h =
    let s : CpuSemaphore = new_cpu_semaphore limit in
    let taken : (run_threads slot_step moves s ts).0.taken
        ≡ sum_of slot_step holds (run_threads slot_step moves s ts).1 =
      run_threads-sum_of slot_step (λ r. r.taken) holds slot-holds moves s ts (no_slot ts h) in
    let room : HasRoom s.slots (run_threads slot_step moves s ts).0 =
      (run_threads-All slot_step (HasRoom s.slots) (λ t. Unit {0})
        (λ canceled r t p q. (slot-HasRoom s.slots canceled r t p, tt)) moves s ts
        (refl, omega arith) (any_caller ts)).0 in
    let slots : s.slots ≤ max 1 (pos_part limit) = most limit in omega (arith, taken, room.1, slots)
  where
    most :
        (limit : ℤ) → (if leb_ℤ limit (pos 0) then 1 else pos_part limit) ≤ max 1 (pos_part limit)
    most (pos n) = ground arith
    most (ℤ.negsuc n) = ground arith
