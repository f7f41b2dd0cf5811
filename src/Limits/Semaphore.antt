-- ===== src/Limits/Semaphore.antt =====
-- `CPUSemaphore` and `AdaptiveCPUSemaphore` of internal/limits/reservations.go, as the threads of the
-- program run them. What `runtime` answers, `NumCPU()` and `GOMAXPROCS(0)`, is an argument.
use chunk_gate.Prelude.{ℕ, ◌+◌, ◌-◌, Bool, true, ◌&&◌, ltb, nat_eq, if◌then◌else◌}
use chunk_gate.Prelude.Int.{ℤ, pos, leb_ℤ, pos_part}

-- The counters are atomic; `queueNanos` and the interval of polling are times.
pub record AdaptiveCpuSemaphore : Type 0 where
  pub max_limit : ℕ
  pub headroom : ℕ
  pub limit_floor : ℕ
  pub active : ℕ
  pub waiting : ℕ
  pub acquire_total : ℕ
  pub queue_total : ℕ

unfoldable pub new_adaptive_cpu_semaphore : ℕ → ℤ → ℤ → AdaptiveCpuSemaphore
new_adaptive_cpu_semaphore num_cpu max_limit headroom = record {
  max_limit = if leb_ℤ max_limit (pos 0) then num_cpu else pos_part max_limit;
  headroom = pos_part headroom;
  limit_floor = 1;
  active = 0;
  waiting = 0;
  acquire_total = 0;
  queue_total = 0;
}

-- `Limit`; a difference below the floor is raised to it.
unfoldable pub limit_of : ℕ → AdaptiveCpuSemaphore → ℕ
limit_of gomaxprocs s =
    let limit = gomaxprocs - s.headroom in
    let raised = if ltb limit s.limit_floor then s.limit_floor else limit in
    if ltb 0 s.max_limit && ltb s.max_limit raised then s.max_limit else raised

-- A call of `Acquire` is before its load, or before the test and the swap with the loaded value, each
-- with whether it has queued; it holds a slot, has released it, or has failed.
pub data Caller : Type 0 where
  polling : Bool → Caller
  loaded : Bool → ℕ → Caller
  holding released failed : Caller

-- A call that leaves the queue at its end.
abbrev pub unqueue : Bool → AdaptiveCpuSemaphore → AdaptiveCpuSemaphore
unqueue queued s = record s { waiting = if queued then s.waiting - 1 else s.waiting }

abbrev pub enqueue : Bool → AdaptiveCpuSemaphore → AdaptiveCpuSemaphore
enqueue queued s = record s { waiting = if queued then s.waiting else s.waiting + 1 }

abbrev pub acquired : Bool → AdaptiveCpuSemaphore → AdaptiveCpuSemaphore
acquired queued s = record s {
  active = s.active + 1;
  acquire_total = s.acquire_total + 1;
  queue_total = if queued then s.queue_total + 1 else s.queue_total;
}

-- One action of a caller, given whether its context is cancelled. What a call does between its swap and
-- its return is part of the swap's action, and what it does after a failed swap of that action.
unfoldable pub acquire_step :
    ℕ → Bool → AdaptiveCpuSemaphore → Caller → AdaptiveCpuSemaphore × Caller
unfolding limit_of
acquire_step procs canceled s (polling queued) =
    if canceled then (unqueue queued s, failed) else (s, loaded queued s.active)
acquire_step procs canceled s (loaded queued active) =
    if ltb active (limit_of procs s) && nat_eq s.active active
    then (unqueue queued (acquired queued s), holding)
    else (enqueue queued s, polling true)
acquire_step procs canceled s holding = (record s { active = s.active - 1 }, released)
acquire_step procs canceled s released = (s, released)
acquire_step procs canceled s failed = (s, failed)

-- The buffer of the channel `slots` and how many it holds.
pub record CpuSemaphore : Type 0 where
  pub slots : ℕ
  pub taken : ℕ

unfoldable pub new_cpu_semaphore : ℤ → CpuSemaphore
new_cpu_semaphore limit = record {
  slots = if leb_ℤ limit (pos 0) then 1 else pos_part limit;
  taken = 0;
}

-- A send waits for room in the buffer, unless the `select` takes the end of the context.
unfoldable pub slot_step : Bool → CpuSemaphore → Caller → CpuSemaphore × Caller
slot_step canceled s (polling queued) =
    if canceled
    then (s, failed)
    else if ltb s.taken s.slots
    then (record s { taken = s.taken + 1 }, holding)
    else (s, polling queued)
slot_step canceled s (loaded queued active) = (s, loaded queued active)
slot_step canceled s holding = (record s { taken = s.taken - 1 }, released)
slot_step canceled s released = (s, released)
slot_step canceled s failed = (s, failed)
