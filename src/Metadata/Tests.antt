-- ===== src/Metadata/Tests.antt =====
-- The metadata theorems on concrete runs: an object is created and committed, and its chunk is then
-- held by a second object before the first is deleted.
use chunk_gate.Prelude.{
  ℕ, ◌≡◌, ◌≢◌, arith, refl, All, none, some, List, [], ◌∷◌, if◌then◌else◌, ◌==◌, Text, Text_eq,
  codes, true, text_eq_iff,
}
use chunk_gate.Prelude.Chars.{has_prefix}
use chunk_gate.Metadata.Shards.{IsPlain, shard_path, distinct_shards}
use chunk_gate.Prelude.Int.{pos}
use chunk_gate.Prelude.Map.{lookup, insert, delete}
use chunk_gate.Prelude.Tests.{text_eq}
use chunk_gate.Metadata.Types.{
  ObjectManifest, ChunkRef, MemoryStore, BlockRef, object_key, committed,
}
use chunk_gate.Metadata.Memory.{
  no_object, object_at, commit_found, retire, live, increment_locked, decrement_locked,
  increment_one, decrement_one, each_chunk, set_block, ensure_tenant, block_at, unreferenced,
  create_pending_object, commit_object, delete_object, key_of, new_memory_store,
  list_unreferenced_blocks_older_than, find_live, install, delete_found,
}
use chunk_gate.Metadata.Counts.{refs}
use chunk_gate.Metadata.Invariant.{uses, NulFree}
use chunk_gate.Metadata.Steps.{Call, creates, commits, deletes, step}
use chunk_gate.Metadata.Runs.{run, run-Inv, AllAdmissible, run-new-Inv, new-Inv}
use chunk_gate.Metadata.Garbage.{run-listed-unused}
use chunk_gate.Metadata.View.{find_live-install, find_live-delete}

abbrev clock : ℕ → ℕ
clock n = 5

abbrev chunk : Text → ChunkRef
chunk h = record { hash = h; offset = 0; size = 3; backend_key = [] }

abbrev object : Text → List ChunkRef → ObjectManifest
object key chunks = record no_object {
  tenant = 116 ∷ [];
  bucket = 98 ∷ [];
  key = key;
  chunks = chunks;
}

abbrev first : ObjectManifest
first = object (1 ∷ []) (chunk (7 ∷ []) ∷ chunk (8 ∷ []) ∷ [])

abbrev second : ObjectManifest
second = object (2 ∷ []) (chunk (7 ∷ []) ∷ [])

abbrev calls : List Call
calls =
    creates none (11 ∷ []) clock first
    ∷ commits none clock (11 ∷ []) first
    ∷ creates none (12 ∷ []) clock second
    ∷ commits none clock (12 ∷ []) second
    ∷ deletes none clock (116 ∷ []) (98 ∷ []) (1 ∷ [])
    ∷ []

nul_free : (c : ℕ) → c ≢ 0 → NulFree (c ∷ [])
nul_free c h = (h, tt)

t_free : NulFree (116 ∷ [])
t_free = nul_free 116 (omega arith)

b_free : NulFree (98 ∷ [])
b_free = nul_free 98 (omega arith)

admissible : AllAdmissible new_memory_store calls
unfolding step lookup insert text_eq new_memory_store create_pending_object commit_object
    commit_found install retire delete_object delete_found find_live live object_key
    increment_locked decrement_locked increment_one decrement_one each_chunk set_block ensure_tenant
    block_at
admissible = (refl, ((t_free, b_free), (refl, ((t_free, b_free), ((t_free, b_free), tt)))))

run-new-Inv_example :
    refs (run new_memory_store calls).blocks (116 ∷ []) (7 ∷ [])
    ≡ uses (run new_memory_store calls) (116 ∷ []) (7 ∷ [])
run-new-Inv_example = run-new-Inv calls admissible (116 ∷ []) (7 ∷ [])

-- The block of the deleted object alone is listed.
abbrev unused : List BlockRef
unused = record { hash = 8 ∷ []; size = 3; updated_at = 5 } ∷ []

run-listed-unused_example :
    All (λ r. uses (run new_memory_store calls) (116 ∷ []) r.hash ≡ 0) unused
unfolding run step lookup insert text_eq new_memory_store create_pending_object commit_object
    commit_found install retire delete_object delete_found find_live live object_key
    increment_locked decrement_locked increment_one decrement_one each_chunk set_block ensure_tenant
    block_at unreferenced list_unreferenced_blocks_older_than delete
run-listed-unused_example = run-listed-unused calls (116 ∷ []) 9 (pos 10) unused admissible refl

abbrev third : ObjectManifest
third = record (object (1 ∷ []) []) { id = 13 ∷ []; state = committed }

abbrev at_first : Text
at_first = object_key (116 ∷ []) (98 ∷ []) (1 ∷ [])

find_live-install_example : find_live (install clock third new_memory_store) at_first ≡ (
    if key_of third == at_first
    then some (third.id, third)
    else find_live new_memory_store at_first)
unfolding lookup new_memory_store
find_live-install_example =
    find_live-install clock third new_memory_store at_first new-Inv (λ k e. absurd (unindexed k e))
      refl
  where
    unindexed : (k : Text) → lookup k new_memory_store.index ≡ some (13 ∷ []) → ⊥
    unindexed k e = cc

abbrev uploads : List Call
uploads = creates none (11 ∷ []) clock first ∷ commits none clock (11 ∷ []) first ∷ []

uploads_admissible : AllAdmissible new_memory_store uploads
unfolding lookup new_memory_store
uploads_admissible = (refl, ((t_free, b_free), tt))

abbrev held_store : MemoryStore
held_store = run new_memory_store uploads

abbrev committed_first : ObjectManifest
committed_first = object_at held_store.objects (11 ∷ [])

-- A key that leads to the first object, until that is deleted.
find_live-delete_example :
    find_live
      (delete_found clock (116 ∷ []) at_first (some (11 ∷ [], committed_first)) held_store).1
      at_first
    ≡ (if at_first == at_first then none else find_live held_store at_first)
unfolding run step lookup insert text_eq new_memory_store create_pending_object commit_object
    commit_found install retire delete_object delete_found find_live live object_key
    increment_locked decrement_locked increment_one decrement_one each_chunk set_block ensure_tenant
    block_at
find_live-delete_example =
    find_live-delete clock (116 ∷ []) at_first (11 ∷ []) at_first committed_first held_store
      (run-Inv new_memory_store uploads new-Inv uploads_admissible) refl

alice : IsPlain (codes "alice")
unfolding has_prefix
alice = ((λ e. absurd (cc)), refl)

bob_b : IsPlain (codes "bob.b")
unfolding has_prefix
bob_b = ((λ e. absurd (cc)), refl)

alice_bob : codes "alice" ≢ codes "bob.b"
unfolding text_eq
alice_bob e =
    let same : text_eq (codes "alice") (codes "bob.b") ≡ true =
      (text_eq_iff (codes "alice") (codes "bob.b")).1 e in
    absurd (cc)

-- The names themselves stand in for their hashes.
distinct_shards_example :
    shard_path (λ bytes. bytes) (codes "/meta") (codes "alice")
    ≢ shard_path (λ bytes. bytes) (codes "/meta") (codes "bob.b")
distinct_shards_example =
    distinct_shards (λ bytes. bytes) (codes "/meta") (codes "alice") (codes "bob.b") alice bob_b
      (λ e. e) alice_bob
