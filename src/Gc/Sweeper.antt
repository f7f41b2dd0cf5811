-- ===== src/Gc/Sweeper.antt =====
-- `Sweeper` of internal/gc/sweeper.go over the in-memory metadata store, where store and backend are
-- there. The answers of the context in the n-th batch are `canceled n` (its calls of `ctx.Err()`) and
-- `waiting n` (the waits between its attempts). The last run's time is not modelled.
use chunk_gate.Prelude.{
  ℕ, zero, suc, ◌+◌, ◌-◌, Option, none, some, List, [], ◌∷◌, length, ltb, nat_eq, if◌then◌else◌,
  Text,
}
use chunk_gate.Prelude.Int.{ℤ, pos, pos_part, ◌+ℤ◌, leb_ℤ, ltb_ℤ, wrap64}
use chunk_gate.Errors.{Error, Result, ok, err}
use chunk_gate.Metadata.Types.{MemoryStore, BlockRef}
use chunk_gate.Metadata.Memory.{list_tenants, list_unreferenced_blocks_older_than, forget_blocks}
use chunk_gate.Object.Blocks.{BlockStore}

pub record Sweeper : Type 0 where
  pub limit : ℤ
  pub batch : ℤ
  pub min_orphan_age : ℤ
  pub max_retries : ℤ

pub record Swept : Type 0 where
  pub scanned_tenants : ℕ
  pub candidate_blocks : ℕ
  pub deleted_blocks : ℕ
  pub failures : ℕ

pub record GcMetrics : Type 0 where
  pub runs : ℕ
  pub scanned_tenants : ℕ
  pub candidate_blocks : ℕ
  pub deleted_blocks : ℕ
  pub failures : ℕ

unfoldable pub observe : Swept → GcMetrics → GcMetrics
observe r m = record {
  runs = m.runs + 1;
  scanned_tenants = m.scanned_tenants + r.scanned_tenants;
  candidate_blocks = m.candidate_blocks + r.candidate_blocks;
  deleted_blocks = m.deleted_blocks + r.deleted_blocks;
  failures = m.failures + r.failures;
}

-- `batchSize`
unfoldable pub batch_size : Sweeper → ℤ
batch_size s =
    let size = if leb_ℤ s.batch (pos 0) then s.limit else s.batch in
    let size' = if leb_ℤ size (pos 0) then pos 1000 else size in
    if ltb_ℤ (pos 1000) size' then pos 1000 else size'

-- `maxRetries`
unfoldable pub retries_of : Sweeper → ℕ
retries_of s = if ltb_ℤ s.max_retries (pos 0) then 3 else pos_part s.max_retries

-- `s.maxRetries() + 1` on an `int`, as the loop of `deleteWithRetry` counts to it: none when it is
-- negative, which it is for the largest `int`.
unfoldable pub delete_attempts : Sweeper → ℕ
unfolding retries_of
delete_attempts s = pos_part (wrap64 (pos (retries_of s) +ℤ pos 1))

-- `minOrphanAge`, in nanoseconds.
unfoldable pub orphan_age : Sweeper → ℕ
orphan_age s = if ltb_ℤ s.min_orphan_age (pos 0) then 86400000000000 else pos_part s.min_orphan_age

unfoldable pub hashes_of : List BlockRef → List Text
hashes_of [] = []
hashes_of (b ∷ bs) = b.hash ∷ hashes_of bs

module _ {B : Type 0} (blocks : BlockStore B) (canceled waiting : ℕ → Option Error) (tenant : Text)
    (hashes : List Text) where
  -- After an attempt: done, given up, or the next one behind the wait.
  unfoldable pub after_attempt :
      ℕ → ℕ → (B → Option Error × B) → Option Error × B → Option Error × B
  after_attempt left attempt next (none, b) = (none, b)
  after_attempt left attempt next (some e, b) =
      if nat_eq left 0
      then (some e, b)
      else elim (waiting attempt) [ some x ↦ (some x, b) | none ↦ next b ]

  -- `deleteWithRetry`, with the attempts that are left.
  unfoldable pub delete_with_retry : ℕ → ℕ → B → Option Error × B
  unfolding after_attempt
  delete_with_retry zero attempt b = (none, b)
  delete_with_retry (suc left) attempt b = elim (canceled attempt) [
    | some e ↦ (some e, b)
    | none ↦
        after_attempt left attempt (λ b'. delete_with_retry left (attempt + 1) b')
          (blocks.delete_blocks tenant hashes b)
  ]

-- A batch ends in the next batch, in the end of the tenant, or in an error.
pub data Step : Type 0 where
  more finished : Step
  stopped : Error → Step

pub record State (B : Type 0) : Type 0 where
  pub backend : B
  pub store : MemoryStore
  pub swept : Swept

abbrev pub fail : {B : Type 0} → Error → State B → Step × State B
fail e s = (stopped e, record s { swept = record s.swept { failures = s.swept.failures + 1 } })

module _ {B : Type 0} (blocks : BlockStore B) (w : Sweeper) (cutoff : ℕ)
    (canceled waiting : ℕ → Option Error) (tenant : Text) where
  unfoldable pub forgotten : ℕ → State B → Result (Unit {0}) × MemoryStore → Step × State B
  forgotten n s (err e, store) = fail e (record s { store = store })
  forgotten n s (ok done, store) = (
    if ltb n (pos_part (batch_size w)) then finished else more,
    record s {
      store = store;
      swept = record s.swept { deleted_blocks = s.swept.deleted_blocks + n };
    },
  )

  unfoldable pub deleted : List BlockRef → State B → Option Error × B → Step × State B
  unfolding forgotten
  deleted refs s (some e, b) = fail e (record s { backend = b })
  deleted refs s (none, b) =
      forgotten (length refs) (record s { backend = b })
        (forget_blocks (canceled 2) tenant (hashes_of refs) s.store)

  unfoldable pub listed : State B → Result (List BlockRef) → Step × State B
  unfolding deleted
  listed s (err e) = fail e s
  listed s (ok refs) =
      let s' = record s {
        swept = record s.swept { candidate_blocks = s.swept.candidate_blocks + length refs };
      } in
      if nat_eq (length refs) 0
      then (finished, s')
      else deleted refs s' (
          delete_with_retry blocks (λ n. canceled (n + 3)) waiting tenant (hashes_of refs)
            (delete_attempts w) 0 s.backend)

  unfoldable pub polled : State B → Option Error → Step × State B
  unfolding listed
  polled s (some e) = fail e s
  polled s none =
      listed s
        ((list_unreferenced_blocks_older_than (canceled 1) tenant cutoff (batch_size w) s.store).0)

  -- One round of the loop over a tenant's batches.
  unfoldable pub sweep_batch : State B → Step × State B
  sweep_batch s = polled s (canceled 0)

-- After a batch: on with the next one, or out of the loop with the number of batches so far.
unfoldable pub next_batch :
    {B : Type 0} → ℕ → (State B → (Step × ℕ) × State B) → Step × State B → (Step × ℕ) × State B
next_batch n next (more, s) = next s
next_batch n next (finished, s) = ((finished, n), s)
next_batch n next (stopped e, s) = ((stopped e, n), s)

module _ {B : Type 0} (blocks : BlockStore B) (w : Sweeper) (cutoff : ℕ)
    (canceled waiting : ℕ → ℕ → Option Error) where
  -- The batches of a tenant, on fuel: `more` says that it ran out.
  unfoldable pub sweep_tenant : Text → ℕ → ℕ → State B → (Step × ℕ) × State B
  unfolding next_batch
  sweep_tenant tenant zero n s = ((more, n), s)
  sweep_tenant tenant (suc fuel) n s =
      next_batch (n + 1) (sweep_tenant tenant fuel (n + 1))
        (sweep_batch blocks w cutoff (canceled n) (waiting n) tenant s)

  unfoldable pub next_tenant :
      (ℕ → State B → Step × State B) → (Step × ℕ) × State B → Step × State B
  next_tenant next ((finished, n), s) = next n s
  next_tenant next ((more, n), s) = (more, s)
  next_tenant next ((stopped e, n), s) = (stopped e, s)

  unfoldable pub sweep_tenants : ℕ → List Text → ℕ → State B → Step × State B
  unfolding next_tenant
  sweep_tenants fuel [] n s = (finished, s)
  sweep_tenants fuel (t ∷ ts) n s = next_tenant (sweep_tenants fuel ts) (sweep_tenant t fuel n s)

-- `Sweep`: what it leaves, its error, and the metrics.
module _ {B : Type 0} (blocks : BlockStore B) (w : Sweeper) (now fuel : ℕ)
    (canceled waiting : ℕ → ℕ → Option Error) where
  abbrev no_blocks : Swept
  no_blocks = record { scanned_tenants = 0; candidate_blocks = 0; deleted_blocks = 0; failures = 0 }

  unfoldable pub from_tenants : B → MemoryStore → Result (List Text) → Step × State B
  from_tenants b store (err e) = fail e (record { backend = b; store = store; swept = no_blocks })
  from_tenants b store (ok tenants) =
      sweep_tenants blocks w (now - orphan_age w) canceled waiting fuel tenants 1 (record {
        backend = b;
        store = store;
        swept = record no_blocks { scanned_tenants = length tenants };
      })

  unfoldable pub sweep : GcMetrics → B → MemoryStore → (Step × State B) × GcMetrics
  sweep metrics b store =
      let (o, s) = from_tenants b store ((list_tenants (canceled 0 0) store).0) in
      ((o, s), observe s.swept metrics)
