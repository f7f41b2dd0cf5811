-- ===== src/Multipart/Rollback.antt =====
-- The reservation of a part in internal/multipart/manager.go and its rollback.
use chunk_gate.Prelude.{
  ℕ, ◌+◌, ◌≡◌, refl, sym, ap, ◌∙◌, inl, inr, true, false, Option, none, some, [], ◌∷◌, Text,
  Text_eq, ℕ_eq, arith, HasEq, Bool-cases, Option-cases,
}
use chunk_gate.Prelude.Int.{ℤ, pos, ltb_ℤ, leb_ℤ, IsInt64, wrap64, ◌-ℤ◌}
use chunk_gate.Prelude.Map.{Map, lookup, insert, delete, eq_self, lookup-insert}
use chunk_gate.Errors.{Error, Result, ok, err, unwrap, upload_too_large}
use chunk_gate.Limits.Reservations.{
  DiskReservations, IsValid, try_reserve, release, release-try_reserve,
}
use chunk_gate.Limits.DiskGuard.{DiskGuard, reserve, guard_release, guard_release-reserve}
use chunk_gate.Multipart.Manager.{
  PartInfo, PartReservation, Session, Manager, Calls, session_key, reserve_bytes, release_bytes,
  guarded, counted, release_in, limit_reserve,
}
use chunk_gate.Multipart.Sessions.{Method, reserved_then}
use chunk_gate.Multipart.Parts.{
  reserve_for_part, rollback_reservation, total_with, too_large, recorded, undo, update, restore,
  reserve_in,
}

module _ {ℓ κ} {K : Type ℓ} {V : Type κ} ⦃keys : HasEq K⦄ where
  -- Putting back the entry that an insertion replaced, or taking out a new one, undoes it.
  insert-insert :
      (k : K) (old new : V) (m : Map K V)
      → lookup k m ≡ some old
      → insert k old (insert k new m) ≡ m
  unfolding insert lookup
  insert-insert k old new [] h = cc
  insert-insert k old new ((a, v) ∷ m) h =
      ground (arith, insert-insert k old new m, keys.same_iff a k)

  delete-insert :
      (k : K) (new : V) (m : Map K V) → lookup k m ≡ none → delete k (insert k new m) ≡ m
  unfolding insert lookup delete
  delete-insert k new [] h = rw (eq_self k) refl
  delete-insert k new ((a, v) ∷ m) h = ground (arith, delete-insert k new m, keys.same_iff a k)

-- Where the manager has counters, they are valid.
abbrev pub HasValidLimits : Manager → Type 0
HasValidLimits m =
    ((g : DiskGuard) → m.disk ≡ some g → IsValid g.reservations)
    × ((r : DiskReservations) → m.reservations ≡ some r → IsValid r)

wrap64-IsInt64 : (a : ℤ) → IsInt64 (wrap64 a)
wrap64-IsInt64 a = ground arith

release-limit :
    (c : Calls) (n : ℕ) (bytes : ℤ) (m m' : Manager) (d : Option DiskGuard)
    (r : Option DiskReservations)
    → HasValidLimits m
    → IsInt64 bytes
    → m.disk ≡ d
    → m.reservations ≡ r
    → limit_reserve c n bytes m d r ≡ (none, m')
    → (m'.sessions ≡ m.sessions) × (release_bytes bytes m' ≡ m)
unfolding limit_reserve guarded counted release_bytes release_in
release-limit c n bytes m m' (some g) r v w ed er h =
    let (e, g') = reserve g (c.canceled n) (c.canceled (n + 1)) bytes (c.available n) in
    let here : m' ≡ record m {
      disk = some (reserve g (c.canceled n) (c.canceled (n + 1)) bytes (c.available n)).1;
    } =
      sym (ap (λ p. p.1) h) in
    let back : guard_release (reserve g (c.canceled n) (c.canceled (n + 1)) bytes (c.available n)).1
          bytes
        ≡ g =
      guard_release-reserve g _ (c.canceled n) (c.canceled (n + 1)) bytes (c.available n) (v.0 g ed)
        w
        (ap (λ e. (e, (reserve g (c.canceled n) (c.canceled (n + 1)) bytes (c.available n)).1))
          (ap (λ p. p.0) h)) in
    rw here (refl, ap (λ d. record m { disk = d }) (ap (λ g. some g) back ∙ sym ed))
release-limit c n bytes m m' none (some r) v w ed er h =
    let here : m' ≡ record m { reservations = some (try_reserve r bytes).1 } =
      sym (ap (λ p. p.1) h) in
    let X : Manager = record m { reservations = some (try_reserve r bytes).1 } in
    let back : release (try_reserve r bytes).1 bytes ≡ r =
      release-try_reserve r bytes (v.1 r er) w (ap (λ p. p.0) h) in
    rw here (
      refl,
      ap (λ d. release_in bytes X d (some (try_reserve r bytes).1)) ed
          ∙ ap (λ r. record m { reservations = r }) (ap (λ r. some r) back ∙ sym er),
    )
release-limit c n bytes m m' none none v w ed er h =
    let here : m' ≡ m = sym (ap (λ p. p.1) h) in rw here (refl, rw (ed, er) refl)

-- A reservation changes only the counters, and releasing it restores them.
release-reserve :
    (c : Calls) (n : ℕ) (bytes : ℤ) (m m' : Manager)
    → HasValidLimits m
    → IsInt64 bytes
    → reserve_bytes c n bytes m ≡ (none, m')
    → ltb_ℤ (pos 0) bytes ≡ true
    → (m'.sessions ≡ m.sessions) × (release_bytes bytes m' ≡ m)
unfolding reserve_bytes
release-reserve c n bytes m m' v w h p =
    release-limit c n bytes m m' m.disk m.reservations v w refl refl (sym (rw positive refl) ∙ h)
  where
    positive : leb_ℤ bytes (pos 0) ≡ false
    positive = ground arith

restore-insert :
    (number : ℕ) (info : PartInfo) (ps : Map ℕ PartInfo)
    → restore number (lookup number ps) (insert number info ps) ≡ ps
unfolding restore
restore-insert number info ps = elim (Option-cases (lookup number ps)) [
  | inl e ↦ rw e (delete-insert number info ps e)
  | inr (old, e) ↦ rw e (insert-insert number old info ps e)
]

undo-recorded :
    (at : Text) (number : ℕ) (info : PartInfo) (total : ℤ) (session : Session) (m m' : Manager)
    (r : PartReservation)
    → lookup at m.sessions ≡ some session
    → recorded at number info total session m ≡ (ok r, m')
    → (r.delta ≡ wrap64 (total -ℤ session.reserved))
      × (undo at number r (lookup at m'.sessions) m' ≡ m)
unfolding recorded undo update
undo-recorded at number info total session m m' r found e =
    let reservation : r ≡ (record {
      delta = wrap64 (total -ℤ session.reserved);
      reserved = total;
      previous = lookup number session.parts;
      previous_reserved = session.reserved;
    }) =
      sym (unwrap (ap (λ p. p.0) e)) in
    let changed : Session = record session {
      parts = insert number info session.parts;
      reserved = total;
    } in
    let here : m' ≡ record m { sessions = insert at changed m.sessions } = sym (ap (λ p. p.1) e) in
    rw (reservation, here, lookup-insert at at changed m.sessions, eq_self at)
      (
        refl,
        ap
              (λ ps. record m {
                sessions = insert at (record session { parts = ps }) (insert at changed m.sessions);
              })
              (restore-insert number info session.parts)
            ∙ ap (λ ss. record m { sessions = ss })
                (insert-insert at session changed m.sessions found),
      )

reserved_ok :
    {B : Type 0} (p : Option Error × Manager) (f : Method B) (b : B) (m : Manager)
    → reserved_then p f ≡ (ok b, m)
    → (p ≡ (none, p.1)) × (f p.1 ≡ (ok b, m))
reserved_ok (none, m') f b m e = (refl, e)
reserved_ok (some x, m') f b m e = cc

refused :
    {B : Type 0} (x : Error) (m m' : Manager) (b : B)
    → ◌≡◌ {A = Result B × Manager} (err x, m) (ok b, m')
    → ⊥
refused x m m' b e = cc

reserve-undo :
    (c : Calls) (tenant id : Text) (number : ℕ) (info : PartInfo) (o : Option Session)
    (m m' : Manager) (r : PartReservation)
    → HasValidLimits m
    → lookup (session_key tenant id) m.sessions ≡ o
    → reserve_in c (session_key tenant id) number info o m ≡ (ok r, m')
    → rollback_reservation tenant id number r m' ≡ m
unfolding reserve_in rollback_reservation
reserve-undo c tenant id number info none m m' r v found e = cc
reserve-undo c tenant id number info (some session) m m' r v found e =
    elim (Bool-cases (too_large m total)) [
      | inl large ↦ absurd (refused upload_too_large m m' r (sym (rw large refl) ∙ e))
      | inr fits ↦ elim (Bool-cases (ltb_ℤ (pos 0) delta)) [
        | inl more ↦
            let (reserved, part) =
              reserved_ok (reserve_bytes c 6 delta m) (recorded at number info total session) r m'
                (sym (rw (fits, more) refl) ∙ e) in
            let (same_sessions, back) =
              release-reserve c 6 delta m (reserve_bytes c 6 delta m).1 v
                (wrap64-IsInt64 (total -ℤ session.reserved)) reserved more in
            let (amount, undone) =
              undo-recorded at number info total session (reserve_bytes c 6 delta m).1 m' r
                (rw same_sessions found) part in
            rw (amount, more, undone) back
        | inr less ↦
            let (amount, undone) =
              undo-recorded at number info total session m m' r found
                (sym (rw (fits, less) refl) ∙ e) in
            rw (amount, less) undone
      ]
    ]
  where
    at : Text
    at = session_key tenant id

    total : ℤ
    total = total_with number info.size session.parts

    delta : ℤ
    delta = wrap64 (total -ℤ session.reserved)

-- Rolling back a reservation that was just made for a part restores the manager: the session's parts
-- and reserved bytes, and the counter that it uses. The counters are valid.
pub rollback-reserve_for_part :
    (c : Calls) (tenant id : Text) (number : ℕ) (info : PartInfo) (m m' : Manager)
    (r : PartReservation)
    → HasValidLimits m
    → reserve_for_part c tenant id number info m ≡ (ok r, m')
    → rollback_reservation tenant id number r m' ≡ m
unfolding reserve_for_part
rollback-reserve_for_part c tenant id number info m m' r v e = elim (Option-cases (c.canceled 5)) [
  | inl live ↦
      reserve-undo c tenant id number info (lookup (session_key tenant id) m.sessions) m m' r v refl
        (sym (rw live refl) ∙ e)
  | inr (x, dead) ↦ absurd (refused x m m' r (sym (rw dead refl) ∙ e))
]
