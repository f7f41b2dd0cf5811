-- ===== src/Limits/Reservations.antt =====
-- `DiskReservations` of internal/limits/reservations.go, for one caller at a time: there the
-- compare-and-swap of the loop succeeds in its first round. Concurrent.antt has the interleavings.
use chunk_gate.Prelude.{◌≡◌, ◌⊎◌, ◌&&◌, ◌||◌, Option, none, some, arith, if◌then◌else◌}
use chunk_gate.Prelude.Int.{ℤ, pos, ◌+ℤ◌, ◌-ℤ◌, ◌≤ℤ◌, ◌<ℤ◌, ltb_ℤ, leb_ℤ, wrap64, IsInt64}
use chunk_gate.Errors.{Error, capacity_exceeded}

pub record DiskReservations : Type 0 where
  pub capacity : ℤ
  pub used : ℤ

pub new_disk_reservations : ℤ → DiskReservations
new_disk_reservations capacity = record { capacity = capacity; used = pos 0 }

-- What the loop computes from the loaded value: the next value, or none for the error.
unfoldable pub next_reserved : ℤ → ℤ → ℤ → Option ℤ
next_reserved capacity current bytes =
    let next = wrap64 (current +ℤ bytes) in
    if ltb_ℤ next current || ltb_ℤ (pos 0) capacity && ltb_ℤ capacity next then none else some next

unfoldable pub next_released : ℤ → ℤ → ℤ
next_released current bytes =
    let next = wrap64 (current -ℤ bytes) in if ltb_ℤ next (pos 0) then pos 0 else next

abbrev swap_in : DiskReservations → Option ℤ → Option Error × DiskReservations
swap_in r none = (some capacity_exceeded, r)
swap_in r (some next) = (none, record r { used = next })

unfoldable pub try_reserve : DiskReservations → ℤ → Option Error × DiskReservations
unfolding next_reserved
try_reserve r bytes =
    if ltb_ℤ bytes (pos 0)
    then (some capacity_exceeded, r)
    else if leb_ℤ bytes (pos 0)
    then (none, r)
    else swap_in r (next_reserved r.capacity r.used bytes)

unfoldable pub release : DiskReservations → ℤ → DiskReservations
unfolding next_released
release r bytes = if leb_ℤ bytes (pos 0) then r else record r { used = next_released r.used bytes }

-- The counter is a non-negative `int64`, within the capacity where there is one.
pub record IsValid (r : DiskReservations) : Type 0 where
  pub nonneg : pos 0 ≤ℤ r.used
  pub int64 : IsInt64 r.used
  pub within : pos 0 <ℤ r.capacity → r.used ≤ℤ r.capacity

-- A reservation of `bytes` fits: no overflow, and within the capacity where there is one.
abbrev pub Fits : DiskReservations → ℤ → Type 0
Fits r bytes =
    (pos 0 ≤ℤ bytes)
    × ((bytes ≡ pos 0)
        ⊎ (IsInt64 (r.used +ℤ bytes) × ((r.capacity ≤ℤ pos 0) ⊎ (r.used +ℤ bytes ≤ℤ r.capacity))))

pub next_reserved_lem :
    (capacity current bytes next : ℤ)
    → pos 0 ≤ℤ current
    → IsInt64 current
    → pos 0 <ℤ bytes
    → IsInt64 bytes
    → next_reserved capacity current bytes ≡ some next
    → (next ≡ current +ℤ bytes) × IsInt64 next × ((capacity ≤ℤ pos 0) ⊎ (next ≤ℤ capacity))
unfolding next_reserved
next_reserved_lem capacity current bytes next p q r s h = ground arith

pub next_released_lem :
    (current bytes : ℤ)
    → pos 0 ≤ℤ current
    → IsInt64 current
    → pos 0 <ℤ bytes
    → IsInt64 bytes
    → (pos 0 ≤ℤ next_released current bytes)
      × IsInt64 (next_released current bytes)
      × (next_released current bytes ≤ℤ current)
unfolding next_released
next_released_lem current bytes p q r s = ground arith

-- A reservation succeeds exactly when it fits, and then adds its bytes to the counter; a refused
-- one changes nothing. The counter is valid and the request an `int64`.
pub try_reserve_exact :
    (r : DiskReservations) (bytes : ℤ)
    → IsValid r
    → IsInt64 bytes
    → (Fits r bytes × (try_reserve r bytes ≡ (none, record r { used = r.used +ℤ bytes })))
      ⊎ ((¬ Fits r bytes) × (try_reserve r bytes ≡ (some capacity_exceeded, r)))
unfolding try_reserve
try_reserve_exact r bytes v w = ground arith

pub try_reserve-IsValid :
    (r : DiskReservations) (bytes : ℤ) → IsValid r → IsInt64 bytes → IsValid (try_reserve r bytes).1
unfolding try_reserve
try_reserve-IsValid r bytes v w = ground arith

-- Releasing more than is reserved leaves 0; releasing nothing or a negative amount, no change.
pub release_exact :
    (r : DiskReservations) (bytes : ℤ)
    → IsValid r
    → IsInt64 bytes
    → (release r bytes).used ≡ (
        if leb_ℤ bytes (pos 0)
        then r.used
        else if ltb_ℤ r.used bytes
        then pos 0
        else r.used -ℤ bytes)
unfolding release
release_exact r bytes v w = ground arith

pub release-IsValid :
    (r : DiskReservations) (bytes : ℤ) → IsValid r → IsInt64 bytes → IsValid (release r bytes)
unfolding release
release-IsValid r bytes v w = ground arith

pub release-reserved :
    (r : DiskReservations) (bytes : ℤ)
    → IsValid r
    → IsInt64 bytes
    → Fits r bytes
    → let r' = record r { used = r.used +ℤ bytes } in IsValid r' × (release r' bytes ≡ r)
unfolding release
release-reserved r bytes v w f = ground arith

-- Releasing what was just reserved restores the counter.
pub release-try_reserve :
    (r : DiskReservations) (bytes : ℤ)
    → IsValid r
    → IsInt64 bytes
    → (try_reserve r bytes).0 ≡ none
    → release (try_reserve r bytes).1 bytes ≡ r
release-try_reserve r bytes v w h =
    ground (arith, try_reserve_exact r bytes, release-reserved r bytes)
