-- ===== src/Gc/Tests.antt =====
-- Retries of an operation that fails twice, and a sweep of two blocks.
use chunk_gate.Prelude.{
  ℕ, zero, suc, ◌+◌, ◌<◌, ◌≡◌, refl, true, false, Option, none, some, [], ◌∷◌, nat_eq, arith,
  if◌then◌else◌,
}
use chunk_gate.Prelude.Tests.{text_eq}
use chunk_gate.Prelude.Map.{lookup, insert, delete}
use chunk_gate.Prelude.Int.{pos}
use chunk_gate.Errors.{Error, ok, err, block_not_found}
use chunk_gate.Metadata.Types.{MemoryStore, BlockRefCount}
use chunk_gate.Metadata.Memory.{
  new_memory_store, list_tenants, list_unreferenced_blocks_older_than, unreferenced, forget_blocks,
  forget_each, forget_block,
}
use chunk_gate.Object.Blocks.{BlockStore}
use chunk_gate.Gc.Sweeper.{
  Sweeper, GcMetrics, Step, State, finished, sweep, from_tenants, sweep_tenants, sweep_tenant,
  sweep_batch, polled, next_batch, next_tenant, delete_with_retry, hashes_of, batch_size,
  retries_of, delete_attempts, orphan_age, deleted, listed, forgotten,
}
use chunk_gate.Gc.Accounts.{Accounted, sweep-Accounted}
use chunk_gate.Gc.Deletes.{DeletesAfter, delete_with_retry-DeletesAfter}
use chunk_gate.Gc.Retry.{attempts_of, do_with_retry}
use chunk_gate.Gc.Attempts.{live, Settles, do_with_retry-Settles}

abbrev third_time : ℕ → Option Error
third_time zero = some block_not_found
third_time (suc zero) = some block_not_found
third_time (suc (suc n)) = none

do_with_retry-Settles_example :
    Settles third_time
      (some (λ e. true))
      0
      (attempts_of (pos 3))
      (do_with_retry live live third_time (some (λ e. true)) (pos 3))
do_with_retry-Settles_example = do_with_retry-Settles third_time (some (λ e. true)) (pos 3)

-- A backend that only counts its deletions, of which the first one fails.
abbrev counting : BlockStore ℕ
counting = record {
  put_block = λ t h bytes b. (none, b);
  get_block = λ t h b. err block_not_found;
  has_block = λ t h b. ok false;
  delete_blocks = λ t hs b. (if nat_eq b 0 then some block_not_found else none, b + 1);
}

abbrev sweeper : Sweeper
sweeper = record { limit = pos 0; batch = pos 1; min_orphan_age = pos 2; max_retries = pos 1 }

abbrev block : ℕ → BlockRefCount
block refs = record { size = 3; ref_count = refs; updated_at = 5 }

-- Two blocks that no object refers to, and one that is in use.
abbrev store : MemoryStore
store = record new_memory_store {
  blocks = (116 ∷ [], (7 ∷ [], block 0) ∷ (8 ∷ [], block 1) ∷ (9 ∷ [], block 0) ∷ []) ∷ [];
}

abbrev metrics : GcMetrics
metrics = record {
  runs = 1;
  scanned_tenants = 1;
  candidate_blocks = 1;
  deleted_blocks = 1;
  failures = 0;
}

abbrev swept : (Step × State ℕ) × GcMetrics
swept = sweep counting sweeper 10 5 (λ n k. none) (λ n k. none) metrics 0 store

sweep-Accounted_example :
    Accounted swept.0.0 swept.0.1.swept
    × ((swept.1.failures ≡ metrics.failures + swept.0.1.swept.failures)
        × (swept.1.deleted_blocks ≡ metrics.deleted_blocks + swept.0.1.swept.deleted_blocks))
sweep-Accounted_example =
    sweep-Accounted counting sweeper 10 5 (λ n k. none) (λ n k. none) metrics 0 store

-- Both blocks go, in two batches, after a retry.
swept_lem : (swept.0.0 ≡ finished) × (swept.0.1.swept.deleted_blocks ≡ 2)
unfolding sweep from_tenants sweep_tenants sweep_tenant sweep_batch polled next_batch next_tenant
    delete_with_retry hashes_of batch_size retries_of delete_attempts orphan_age list_tenants
    list_unreferenced_blocks_older_than unreferenced forget_blocks forget_each forget_block lookup
    insert delete text_eq new_memory_store deleted listed forgotten
swept_lem = (refl, refl)

abbrev retried : Option Error × ℕ
retried =
    delete_with_retry counting (λ n. none) (λ n. none) (116 ∷ []) ((7 ∷ []) ∷ [])
      (delete_attempts sweeper) 0 0

retried_lem : retried ≡ (none, 2)
unfolding delete_with_retry delete_attempts retries_of
retried_lem = refl

few : retries_of sweeper < 9223372036854775807
unfolding retries_of
few = omega arith

delete_with_retry-DeletesAfter_example :
    DeletesAfter counting (116 ∷ []) ((7 ∷ []) ∷ []) (retries_of sweeper) 0 2
delete_with_retry-DeletesAfter_example =
    delete_with_retry-DeletesAfter counting (116 ∷ []) ((7 ∷ []) ∷ []) (λ n. none) (λ n. none)
      sweeper 0 2 few retried_lem

-- With the largest `int` of retries no call is made, and this counts as a success.
endless_retries : delete_attempts (record sweeper { max_retries = pos 9223372036854775807 }) ≡ 0
unfolding delete_attempts retries_of
endless_retries = refl
