-- ===== src/Limits/DiskGuard.antt =====
-- `DiskGuard` of internal/limits/disk.go. The free space that the system reports is an argument of
-- each call (`AvailableBytes` asks the operating system), and so is the context's error.
use chunk_gate.Prelude.{
  ◌∙◌, Bool-cases, ap, ◌≡◌, refl, ◌⊎◌, inl, inr, Bool, Option, none, some, arith, if◌then◌else◌,
  codes,
}
use chunk_gate.Prelude.Int.{ℤ, pos, ◌+ℤ◌, ◌-ℤ◌, ◌≤ℤ◌, ltb_ℤ, wrap64, IsInt64}
use chunk_gate.Errors.{Error, Result, ok, err, capacity_exceeded, insufficient_disk, wrapped}
use chunk_gate.Limits.Reservations.{
  DiskReservations, try_reserve, release, IsValid, Fits, try_reserve_exact, release-reserved,
  release-try_reserve,
}

-- The path only serves to ask for the free space. A guard of the server always has a counter.
pub record DiskGuard : Type 0 where
  pub min_free_bytes : ℤ
  pub reservations : DiskReservations

unfoldable pub new_disk_guard : DiskReservations → ℤ → DiskGuard
new_disk_guard reservations min_free_bytes = record {
  min_free_bytes = if ltb_ℤ min_free_bytes (pos 0) then pos 0 else min_free_bytes;
  reservations = reservations;
}

free_after : ℤ → ℤ → ℤ → ℤ
free_after available reserved additional = wrap64 (wrap64 (available -ℤ reserved) -ℤ additional)

enough : DiskGuard → ℤ → Result ℤ → Option Error
unfolding free_after
enough g additional (err e) = some (wrapped (codes "check scratch free space") e)
enough g additional (ok available) =
    if ltb_ℤ (free_after available g.reservations.used additional) g.min_free_bytes
    then some insufficient_disk
    else none

unfoldable pub check : DiskGuard → Option Error → ℤ → Result ℤ → Option Error
unfolding enough
check g canceled additional available =
    if ltb_ℤ additional (pos 0)
    then some capacity_exceeded
    else elim canceled [ some e ↦ some e | none ↦ enough g additional available ]

abbrev with_reservations : DiskGuard → DiskReservations → DiskGuard
with_reservations g r = record g { reservations = r }

-- What follows the reservation: the free space is checked, and a failure gives the bytes back.
confirm :
    DiskGuard
    → Option Error
    → ℤ
    → Result ℤ
    → Option Error × DiskReservations
    → Option Error × DiskGuard
confirm g canceled bytes available (some e, r) = (some e, with_reservations g r)
confirm g canceled bytes available (none, r) =
    elim (check (with_reservations g r) canceled (pos 0) available) [
      | some e ↦ (some e, with_reservations g (release r bytes))
      | none ↦ (none, with_reservations g r)
    ]

-- `entering` answers the first `ctx.Err()`, `checking` that of the free-space check.
unfoldable pub reserve :
    DiskGuard → Option Error → Option Error → ℤ → Result ℤ → Option Error × DiskGuard
unfolding confirm
reserve g (some e) checking bytes available = (some e, g)
reserve g none checking bytes available =
    confirm g checking bytes available (try_reserve g.reservations bytes)

unfoldable pub guard_release : DiskGuard → ℤ → DiskGuard
guard_release g bytes = with_reservations g (release g.reservations bytes)

-- Within `int64` the check compares the space left beside everything reserved.
check_exact :
    (g : DiskGuard) (a : ℤ)
    → IsValid g.reservations
    → pos 0 ≤ℤ a
    → IsInt64 a
    → check g none (pos 0) (ok a)
      ≡ (if ltb_ℤ (a -ℤ g.reservations.used) g.min_free_bytes then some insufficient_disk else none)
unfolding check
check_exact g a v p w = ground arith

abbrev pub reserved : DiskGuard → ℤ → DiskGuard
reserved g bytes =
    with_reservations g (record g.reservations { used = g.reservations.used +ℤ bytes })

-- What an accepted reservation guarantees.
abbrev pub Accepted : DiskGuard → ℤ → ℤ → Type 0
Accepted g bytes a =
    Fits g.reservations bytes × (g.min_free_bytes ≤ℤ a -ℤ (g.reservations.used +ℤ bytes))

-- The second half of an accepted reservation, from the counter with the bytes on it.
confirm_cases :
    (g : DiskGuard) (bytes a : ℤ) (r : DiskReservations)
    → r ≡ record g.reservations { used = g.reservations.used +ℤ bytes }
    → IsValid r
    → release r bytes ≡ g.reservations
    → pos 0 ≤ℤ a
    → IsInt64 a
    → ((e : Error) × (confirm g none bytes (ok a) (none, r) ≡ (some e, g)))
      ⊎ ((confirm g none bytes (ok a) (none, r) ≡ (none, reserved g bytes))
          × (g.min_free_bytes ≤ℤ a -ℤ r.used))
unfolding confirm
confirm_cases g bytes a r e v back p q = elim (Bool-cases (ltb_ℤ (a -ℤ r.used) g.min_free_bytes)) [
  | inl low ↦
      let c : checked ≡ some insufficient_disk = exact ∙ ap answer low in
      inl (insufficient_disk, rw (c, confirm, back) refl)
  | inr free ↦
      let c : checked ≡ none = exact ∙ ap answer free in inr (rw (c, confirm, e) refl, ground arith)
]
  where
    answer : Bool → Option Error
    answer low = if low then some insufficient_disk else none

    checked : Option Error
    checked = check (with_reservations g r) none (pos 0) (ok a)

    exact : checked ≡ answer (ltb_ℤ (a -ℤ r.used) g.min_free_bytes)
    exact = check_exact (with_reservations g r) a v p q

-- A refused reservation leaves the guard and its counter as they were, whichever test refused it;
-- an accepted one fits, has its bytes on the counter, and leaves at least the configured space
-- free beside everything reserved. The counter is valid, the request an `int64`, the free space
-- an `int64` not below 0, and the context is not cancelled.
pub reserve_atomic :
    (g : DiskGuard) (bytes a : ℤ)
    → IsValid g.reservations
    → IsInt64 bytes
    → pos 0 ≤ℤ a
    → IsInt64 a
    → ((e : Error) × (reserve g none none bytes (ok a) ≡ (some e, g)))
      ⊎ ((reserve g none none bytes (ok a) ≡ (none, reserved g bytes)) × Accepted g bytes a)
unfolding reserve
reserve_atomic g bytes a v w p q = elim (try_reserve_exact g.reservations bytes v w) [
  | inr (no_room, e) ↦ rw e (inl (capacity_exceeded, refl))
  | inl (fits, e) ↦
      let (v', back) = release-reserved g.reservations bytes v w fits in
      rw e (ground (arith, confirm_cases g bytes a _ refl v' back p q))
]

confirm-none :
    (g g' : DiskGuard) (canceled : Option Error) (bytes : ℤ) (available : Result ℤ)
    (p : Option Error × DiskReservations)
    → confirm g canceled bytes available p ≡ (none, g')
    → (p.0 ≡ none) × (g' ≡ with_reservations g p.1)
unfolding confirm
confirm-none g g' canceled bytes available (some e, r) h = cc
confirm-none g g' canceled bytes available (none, r) h =
    go (check (with_reservations g r) canceled (pos 0) available) h
  where
    go :
        (o : Option Error)
        → ◌≡◌ {A = Option Error × DiskGuard}
            (elim o as (λ k. Option Error × DiskGuard) [
              | some e ↦ (some e, with_reservations g (release r bytes))
              | none ↦ (none, with_reservations g r)
            ])
            (none, g')
        → ◌≡◌ {A = Option Error} none none × (g' ≡ with_reservations g r)
    go (some e) h = cc
    go none h = (refl, cc)

-- Releasing what a guard has reserved restores the guard.
pub guard_release-reserve :
    (g g' : DiskGuard) (entering checking : Option Error) (bytes : ℤ) (available : Result ℤ)
    → IsValid g.reservations
    → IsInt64 bytes
    → reserve g entering checking bytes available ≡ (none, g')
    → guard_release g' bytes ≡ g
unfolding reserve guard_release
guard_release-reserve g g' (some e) checking bytes available v w h = cc
guard_release-reserve g g' none checking bytes available v w h =
    let (none_first, e) =
      confirm-none g g' checking bytes available (try_reserve g.reservations bytes) h in
    ap (λ g. with_reservations g (release g.reservations bytes)) e
    ∙ ap (with_reservations g) (release-try_reserve g.reservations bytes v w none_first)
