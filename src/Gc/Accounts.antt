-- ===== src/Gc/Accounts.antt =====
-- What a sweep of internal/gc/sweeper.go reports.
use chunk_gate.Prelude.{
  ℕ, zero, suc, ◌+◌, ◌-◌, ◌≤◌, ◌≡◌, refl, Option, none, some, List, [], ◌∷◌, length, ltb, nat_eq,
  Text, arith, Bool-cases, inl, inr,
}
use chunk_gate.Prelude.Int.{pos_part}
use chunk_gate.Errors.{Error, Result, ok, err}
use chunk_gate.Metadata.Types.{MemoryStore, BlockRef}
use chunk_gate.Metadata.Memory.{list_tenants, list_unreferenced_blocks_older_than}
use chunk_gate.Object.Blocks.{BlockStore}
use chunk_gate.Gc.Sweeper.{
  Sweeper, Swept, GcMetrics, Step, more, finished, stopped, State, batch_size, forgotten, deleted,
  listed, sweep_batch, polled, sweep_tenant, sweep_tenants, next_batch, next_tenant, from_tenants,
  sweep, orphan_age, observe,
}

-- Without an error there is no failure, and every candidate is deleted; with one there is a single
-- failure, and no more is deleted than was a candidate.
abbrev pub Accounted : Step → Swept → Type 0
Accounted (stopped e) r = (r.failures ≡ 1) × (r.deleted_blocks ≤ r.candidate_blocks)
Accounted _ r = (r.failures ≡ 0) × (r.deleted_blocks ≡ r.candidate_blocks)

module _ {B : Type 0} (blocks : BlockStore B) (w : Sweeper) (cutoff : ℕ)
    (canceled waiting : ℕ → Option Error) (tenant : Text) where
  forgotten-Accounted :
      (n : ℕ) (s : State B) (r : Result (Unit {0}) × MemoryStore)
      → s.swept.failures ≡ 0
      → s.swept.deleted_blocks + n ≡ s.swept.candidate_blocks
      → let p = forgotten blocks w cutoff canceled waiting tenant n s r in Accounted p.0 p.1.swept
  unfolding forgotten
  forgotten-Accounted n s (err e, store) f d = (omega arith, omega arith)
  forgotten-Accounted n s (ok done, store) f d =
      elim (Bool-cases (ltb n (pos_part (batch_size w)))) [
        | inl short ↦ rw short (f, d)
        | inr full ↦ rw full (f, d)
      ]

  deleted-Accounted :
      (refs : List BlockRef) (s : State B) (r : Option Error × B)
      → s.swept.failures ≡ 0
      → s.swept.deleted_blocks + length refs ≡ s.swept.candidate_blocks
      → let p = deleted blocks w cutoff canceled waiting tenant refs s r in Accounted p.0 p.1.swept
  unfolding deleted
  deleted-Accounted refs s (some e, b) f d = (omega arith, omega arith)
  deleted-Accounted refs s (none, b) f d =
      forgotten-Accounted (length refs) (record s { backend = b }) _ f d

  listed-Accounted :
      (s : State B) (r : Result (List BlockRef))
      → Accounted more s.swept
      → let p = listed blocks w cutoff canceled waiting tenant s r in Accounted p.0 p.1.swept
  unfolding listed
  listed-Accounted s (err e) h = (omega (arith, h.0), omega (arith, h.1))
  listed-Accounted s (ok refs) h = elim (Bool-cases (nat_eq (length refs) 0)) [
    | inl empty ↦ rw empty (h.0, ground arith)
    | inr some_refs ↦ rw some_refs (
        deleted-Accounted refs
          (record s {
            swept = record s.swept { candidate_blocks = s.swept.candidate_blocks + length refs };
          })
          _ h.0 (omega (arith, h.1)))
  ]

  polled-Accounted :
      (s : State B) (o : Option Error)
      → Accounted more s.swept
      → let p = polled blocks w cutoff canceled waiting tenant s o in Accounted p.0 p.1.swept
  unfolding polled
  polled-Accounted s none h =
      listed-Accounted s
        ((list_unreferenced_blocks_older_than (canceled 1) tenant cutoff (batch_size w) s.store).0)
        h
  polled-Accounted s (some e) h = (omega (arith, h.0), omega (arith, h.1))

next_batch-Accounted :
    {B : Type 0} (n : ℕ) (next : State B → (Step × ℕ) × State B) (p : Step × State B)
    → Accounted p.0 p.1.swept
    → ((s : State B) → Accounted more s.swept → Accounted (next s).0.0 (next s).1.swept)
    → Accounted (next_batch n next p).0.0 (next_batch n next p).1.swept
unfolding next_batch
next_batch-Accounted n next (more, s) h k = k s h
next_batch-Accounted n next (finished, s) h k = h
next_batch-Accounted n next (stopped e, s) h k = h

module _ {B : Type 0} (blocks : BlockStore B) (w : Sweeper) (cutoff : ℕ)
    (canceled waiting : ℕ → ℕ → Option Error) where
  sweep_tenant-Accounted :
      (tenant : Text) (fuel n : ℕ) (s : State B)
      → Accounted more s.swept
      → let p = sweep_tenant blocks w cutoff canceled waiting tenant fuel n s in
        Accounted p.0.0 p.1.swept
  unfolding sweep_tenant sweep_batch
  sweep_tenant-Accounted tenant zero n s h = h
  sweep_tenant-Accounted tenant (suc fuel) n s h =
      next_batch-Accounted (n + 1)
        (sweep_tenant blocks w cutoff canceled waiting tenant fuel (n + 1))
        (sweep_batch blocks w cutoff (canceled n) (waiting n) tenant s)
        (polled-Accounted blocks w cutoff (canceled n) (waiting n) tenant s (canceled n 0) h)
        (sweep_tenant-Accounted tenant fuel (n + 1))

  next_tenant-Accounted :
      (next : ℕ → State B → Step × State B) (p : (Step × ℕ) × State B)
      → Accounted p.0.0 p.1.swept
      → ((n : ℕ) (s : State B) → Accounted more s.swept → Accounted (next n s).0 (next n s).1.swept)
      → let q = next_tenant blocks w cutoff canceled waiting next p in Accounted q.0 q.1.swept
  unfolding next_tenant
  next_tenant-Accounted next ((finished, n), s) h k = k n s h
  next_tenant-Accounted next ((more, n), s) h k = h
  next_tenant-Accounted next ((stopped e, n), s) h k = h

  sweep_tenants-Accounted :
      (fuel : ℕ) (ts : List Text) (n : ℕ) (s : State B)
      → Accounted more s.swept
      → let p = sweep_tenants blocks w cutoff canceled waiting fuel ts n s in
        Accounted p.0 p.1.swept
  unfolding sweep_tenants
  sweep_tenants-Accounted fuel [] n s h = h
  sweep_tenants-Accounted fuel (t ∷ ts) n s h =
      next_tenant-Accounted (sweep_tenants blocks w cutoff canceled waiting fuel ts)
        (sweep_tenant blocks w cutoff canceled waiting t fuel n s)
        (sweep_tenant-Accounted t fuel n s h) (sweep_tenants-Accounted fuel ts)

module _ {B : Type 0} (blocks : BlockStore B) (w : Sweeper) (now fuel : ℕ)
    (canceled waiting : ℕ → ℕ → Option Error) where
  from_tenants-Accounted :
      (b : B) (store : MemoryStore) (r : Result (List Text))
      → let p = from_tenants blocks w now fuel canceled waiting b store r in Accounted p.0 p.1.swept
  unfolding from_tenants
  from_tenants-Accounted b store (err e) = (refl, omega arith)
  from_tenants-Accounted b store (ok ts) =
      sweep_tenants-Accounted blocks w (now - orphan_age w) canceled waiting fuel ts 1 _
        (refl, refl)

  -- Whatever the backend and the context do, and after any number of batches, a sweep without an
  -- error reports no failure and as many deleted blocks as candidates; one that ends in an error
  -- reports a single failure and no more deleted blocks than candidates. The metrics grow by the
  -- failures and the deleted blocks that it reports.
  pub sweep-Accounted :
      (metrics : GcMetrics) (b : B) (store : MemoryStore)
      → let p = sweep blocks w now fuel canceled waiting metrics b store in
        Accounted p.0.0 p.0.1.swept
        × ((p.1.failures ≡ metrics.failures + p.0.1.swept.failures)
            × (p.1.deleted_blocks ≡ metrics.deleted_blocks + p.0.1.swept.deleted_blocks))
  unfolding sweep observe
  sweep-Accounted metrics b store =
      (from_tenants-Accounted b store ((list_tenants (canceled 0 0) store).0), (refl, refl))
