-- ===== src/Limits/Concurrent.antt =====
-- `TryReserve` and `Release` of internal/limits/reservations.go as the threads of the program run
-- them: a step loads the counter or tries its compare-and-swap, and a swap that finds another
-- value than the loaded one goes round the loop.
use chunk_gate.Prelude.{
  ℕ, ◌≡◌, refl, ◌⊎◌, inl, inr, Bool, false, Option, Option-cases, none, some, arith, if◌then◌else◌,
  List, [], ◌∷◌, All,
}
use chunk_gate.Prelude.Int.{ℤ, pos, ◌≤ℤ◌, ◌<ℤ◌, ltb_ℤ, leb_ℤ, IsInt64}
use chunk_gate.Errors.{Error, capacity_exceeded}
use chunk_gate.Limits.Reservations.{
  DiskReservations, next_reserved, next_released, next_reserved_lem, next_released_lem, try_reserve,
  release, IsValid,
}

pub data Call : Type 0 where
  reserves releases : ℤ → Call

-- Where a thread stands: before its test of the argument, before the load, before the swap with
-- the loaded value, or returned.
pub data Thread : Type 0 where
  called loading : Call → Thread
  loaded : Call → ℤ → Thread
  returned : Call → Option Error → Thread

-- The tests that precede the loops.
unfoldable pub enter : Call → Thread
enter (reserves bytes) =
    if ltb_ℤ bytes (pos 0)
    then returned (reserves bytes) (some capacity_exceeded)
    else if leb_ℤ bytes (pos 0)
    then returned (reserves bytes) none
    else loading (reserves bytes)
enter (releases bytes) =
    if leb_ℤ bytes (pos 0) then returned (releases bytes) none else loading (releases bytes)

eq_ℤ : ℤ → ℤ → Bool
eq_ℤ a b = if leb_ℤ a b then leb_ℤ b a else false

-- `r.used.CompareAndSwap(current, next)`: the thread returns, or loads again.
abbrev compare_and_swap : DiskReservations → Call → ℤ → ℤ → DiskReservations × Thread
compare_and_swap r c current next =
    if eq_ℤ r.used current then (record r { used = next }, returned c none) else (r, loading c)

attempt : DiskReservations → Call → ℤ → Option ℤ → DiskReservations × Thread
unfolding eq_ℤ
attempt r c current none = (r, returned c (some capacity_exceeded))
attempt r c current (some next) = compare_and_swap r c current next

-- One atomic action of a thread on the shared counter.
unfoldable pub action : DiskReservations → Thread → DiskReservations × Thread
unfolding attempt enter
action r (called c) = (r, enter c)
action r (loading c) = (r, loaded c r.used)
action r (loaded (reserves bytes) current) =
    attempt r (reserves bytes) current (next_reserved r.capacity current bytes)
action r (loaded (releases bytes) current) =
    attempt r (releases bytes) current (some (next_released current bytes))
action r (returned c e) = (r, returned c e)

-- The counter and the threads of a run.
pub record Shared : Type 0 where
  pub reservations : DiskReservations
  pub threads : List Thread

advance : DiskReservations → ℕ → List Thread → DiskReservations × List Thread
advance r i [] = (r, [])
advance r ℕ.zero (t ∷ ts) = let (r', t') = action r t in (r', t' ∷ ts)
advance r (ℕ.suc i) (t ∷ ts) = let (r', ts') = advance r i ts in (r', t ∷ ts')

-- The scheduler picks the thread that moves; a thread not there moves nothing.
tick : Shared → ℕ → Shared
unfolding advance
tick s i =
    let (r', ts') = advance s.reservations i s.threads in
    record { reservations = r'; threads = ts' }

pub schedule : Shared → List ℕ → Shared
schedule s [] = s
schedule s (i ∷ is) = schedule (tick s i) is

abbrev pub bytes_of : Call → ℤ
bytes_of (reserves bytes) = bytes
bytes_of (releases bytes) = bytes

-- The call run alone.
abbrev pub alone : DiskReservations → Call → Option Error × DiskReservations
alone r (reserves bytes) = try_reserve r bytes
alone r (releases bytes) = (none, release r bytes)

-- A thread past its tests has an amount above 0, and has loaded a value that the counter had.
abbrev pub IsSound : Thread → Type 0
IsSound (called c) = IsInt64 (bytes_of c)
IsSound (loading c) = IsInt64 (bytes_of c) × (pos 0 <ℤ bytes_of c)
IsSound (loaded c current) =
    IsInt64 (bytes_of c) × (pos 0 <ℤ bytes_of c) × (pos 0 ≤ℤ current) × IsInt64 current
IsSound (returned c e) = Unit {0}

abbrev pub call_of : Thread → Call
call_of (called c) = c
call_of (loading c) = c
call_of (loaded c current) = c
call_of (returned c e) = c

-- Each action leaves the counter alone, or ends the thread's call without an error and has on the
-- counter exactly the effect of the whole call run alone at that moment.
pub action-linearizable :
    (r : DiskReservations) (t : Thread)
    → IsSound t
    → ((action r t).0 ≡ r)
      ⊎ (((action r t).1 ≡ returned (call_of t) none)
          × (alone r (call_of t) ≡ (none, (action r t).0)))
unfolding action try_reserve release
action-linearizable r (called c) s = inl refl
action-linearizable r (loading c) s = inl refl
action-linearizable r (loaded (reserves bytes) current) s = ground arith
action-linearizable r (loaded (releases bytes) current) s = ground arith
action-linearizable r (returned c e) s = inl refl

-- A refusal is that of the whole call run alone at the moment of the load.
pub refusal-linearizable :
    (r : DiskReservations) (bytes : ℤ)
    → IsSound (loading (reserves bytes))
    → next_reserved r.capacity r.used bytes ≡ none
    → alone r (reserves bytes) ≡ (some capacity_exceeded, r)
unfolding try_reserve
refusal-linearizable r bytes s h = ground arith

attempt-IsSound :
    (r : DiskReservations) (bytes current next : ℤ)
    → IsValid r
    → IsSound (loaded (reserves bytes) current)
    → next_reserved r.capacity current bytes ≡ some next
    → let (r', t) = attempt r (reserves bytes) current (some next) in IsValid r' × IsSound t
unfolding attempt
attempt-IsSound r bytes current next v s e =
    ground (arith, next_reserved_lem r.capacity current bytes next)

action-IsSound :
    (r : DiskReservations) (t : Thread)
    → IsValid r
    → IsSound t
    → IsValid (action r t).0 × IsSound (action r t).1
unfolding action
action-IsSound r (called (reserves bytes)) v s = ground arith
action-IsSound r (called (releases bytes)) v s = ground arith
action-IsSound r (loading c) v s = (v, (s.0, s.1, v.nonneg, v.int64))
action-IsSound r (loaded (reserves bytes) current) v s =
    elim (Option-cases (next_reserved r.capacity current bytes)) [
      | inl e ↦ rw e (v, tt)
      | inr (next, e) ↦ rw e (attempt-IsSound r bytes current next v s e)
    ]
action-IsSound r (loaded (releases bytes) current) v s =
    ground (arith, next_released_lem current bytes)
action-IsSound r (returned c e) v s = (v, tt)

advance-IsSound :
    (r : DiskReservations) (i : ℕ) (ts : List Thread)
    → IsValid r
    → All IsSound ts
    → IsValid (advance r i ts).0 × All IsSound (advance r i ts).1
unfolding advance
advance-IsSound r i [] v s = (v, tt)
advance-IsSound r ℕ.zero (t ∷ ts) v s = let (v', s') = action-IsSound r t v s.0 in (v', (s', s.1))
advance-IsSound r (ℕ.suc i) (t ∷ ts) v s =
    let (v', s') = advance-IsSound r i ts v s.1 in (v', (s.0, s'))

pub schedule-IsSound :
    (s : Shared) (is : List ℕ)
    → IsValid s.reservations
    → All IsSound s.threads
    → IsValid (schedule s is).reservations × All IsSound (schedule s is).threads
unfolding schedule tick
schedule-IsSound s [] v h = (v, h)
schedule-IsSound s (i ∷ is) v h =
    let (v', h') = advance-IsSound s.reservations i s.threads v h in
    schedule-IsSound (tick s i) is v' h'
