-- ===== src/Metadata/Memory.antt =====
-- The objects and blocks of internal/metadata/memory.go. Each method runs under the mutex. The
-- context's error, the random id and the readings of the clock are arguments: `clock n` is the
-- n-th `time.Now()` of the call. Cloning a manifest is the identity on values.
use chunk_gate.Prelude.{
  ℕ, zero, suc, ◌+◌, ◌-◌, Bool, true, false, ◌&&◌, Option, none, some, List, [], ◌∷◌, ◌++◌, take,
  ltb, leb, nat_eq, if◌then◌else◌, Text, Text_eq,
}
use chunk_gate.Prelude.Int.{ℤ, pos, negsuc}
use chunk_gate.Prelude.Map.{Map, lookup, insert, delete}
use chunk_gate.Errors.{Error, Result, ok, err, metadata_not_found}
use chunk_gate.Metadata.Types.{
  ObjectState, pending, committed, deleted, failed, ChunkRef, ObjectManifest, BlockRef,
  BlockRefCount, MemoryStore, object_key,
}

abbrev pub Method : Type 0 → Type 0
Method A = MemoryStore → Result A × MemoryStore

-- `if err := ctx.Err(); err != nil { return err }`
abbrev pub unless_canceled : {A : Type 0} → Option Error → Method A → Method A
unless_canceled none m s = m s
unless_canceled (some e) m s = (err e, s)

abbrev pub Blocks : Type 0
Blocks = Map Text (Map Text BlockRefCount)

abbrev pub or_empty : {V : Type 0} → Option (Map Text V) → Map Text V
or_empty none = []
or_empty (some m) = m

unfoldable pub new_memory_store : MemoryStore
new_memory_store = record { objects = []; index = []; blocks = []; multipart = [] }

-- `s.blocks[tenant]`, empty where it is nil.
abbrev pub tenant_blocks : Blocks → Text → Map Text BlockRefCount
tenant_blocks blocks tenant = or_empty (lookup tenant blocks)

unfoldable pub ensure_tenant : Blocks → Text → Blocks
ensure_tenant blocks tenant = insert tenant (tenant_blocks blocks tenant) blocks

abbrev pub no_block : BlockRefCount
no_block = record { size = 0; ref_count = 0; updated_at = 0 }

-- A missing key reads as the zero value.
abbrev pub or_zero : Option BlockRefCount → BlockRefCount
or_zero none = no_block
or_zero (some b) = b

unfoldable pub block_at : Blocks → Text → Text → BlockRefCount
block_at blocks tenant hash = or_zero (lookup hash (tenant_blocks blocks tenant))

unfoldable pub set_block : Blocks → Text → Text → BlockRefCount → Blocks
set_block blocks tenant hash b = insert tenant (insert hash b (tenant_blocks blocks tenant)) blocks

-- One round of each loop.
unfoldable pub increment_one : ℕ → Text → Blocks → ChunkRef → Blocks
increment_one now tenant blocks c = set_block blocks tenant c.hash (record {
  size = c.size;
  ref_count = (block_at blocks tenant c.hash).ref_count + 1;
  updated_at = now;
})

unfoldable pub decrement_one : ℕ → Text → Blocks → ChunkRef → Blocks
decrement_one now tenant blocks c =
    let count = (block_at blocks tenant c.hash).ref_count in
    set_block blocks tenant c.hash (record {
      size = c.size;
      ref_count = if ltb 0 count then count - 1 else count;
      updated_at = now;
    })

unfoldable pub each_chunk : (Blocks → ChunkRef → Blocks) → List ChunkRef → Blocks → Blocks
each_chunk f [] blocks = blocks
each_chunk f (c ∷ cs) blocks = each_chunk f cs (f blocks c)

unfoldable pub increment_locked : ℕ → Text → List ChunkRef → Blocks → Blocks
increment_locked now tenant cs blocks =
    each_chunk (increment_one now tenant) cs (ensure_tenant blocks tenant)

unfoldable pub decrement_locked : ℕ → Text → List ChunkRef → Blocks → Blocks
decrement_locked now tenant cs blocks =
    each_chunk (decrement_one now tenant) cs (ensure_tenant blocks tenant)

abbrev is_empty : Text → Bool
is_empty [] = true
is_empty (c ∷ t) = false

-- `manifest.ID = randomID()` where it is empty.
abbrev pub with_id : Text → ObjectManifest → ObjectManifest
with_id random m = record m { id = if is_empty m.id then random else m.id }

unfoldable pub create_pending_object : Option Error → Text → (ℕ → ℕ) → ObjectManifest → Method Text
create_pending_object canceled random clock manifest = unless_canceled canceled λ s.
    let m = record (with_id random manifest) {
      state = pending;
      created_at = clock 0;
      updated_at = clock 0;
    } in
    (
      ok m.id,
      record s { objects = insert m.id m s.objects; blocks = ensure_tenant s.blocks m.tenant },
    )

abbrev pub is_pending : ObjectState → Bool
is_pending pending = true
is_pending _ = false

abbrev pub is_committed : ObjectState → Bool
is_committed committed = true
is_committed _ = false

-- The zero manifest, which a missing key reads as.
abbrev pub no_object : ObjectManifest
no_object = record {
  id = [];
  tenant = [];
  bucket = [];
  key = [];
  state = failed;
  size = 0;
  etag = [];
  headers = none;
  chunks = [];
  created_at = 0;
  updated_at = 0;
}

abbrev pub object_at : Map Text ObjectManifest → Text → ObjectManifest
object_at objects id = elim (lookup id objects) [ none ↦ no_object | some m ↦ m ]

-- The object that a commit replaces gives its blocks back and is marked deleted.
unfoldable pub retire : (ℕ → ℕ) → ℕ → Option Text → MemoryStore → MemoryStore
retire clock now none s = s
retire clock now (some id) s =
    let previous = object_at s.objects id in
    record s {
      blocks = decrement_locked (clock 1) previous.tenant previous.chunks s.blocks;
      objects = insert id (record previous { state = deleted; updated_at = now }) s.objects;
    }

-- The manifest that a commit stores.
abbrev pub committed_manifest : (ℕ → ℕ) → Text → ObjectManifest → ObjectManifest → ObjectManifest
committed_manifest clock id from m = record m {
  id = id;
  state = committed;
  created_at = if nat_eq m.created_at 0 then from.created_at else m.created_at;
  updated_at = clock 0;
}

abbrev pub key_of : ObjectManifest → Text
key_of m = object_key m.tenant m.bucket m.key

unfoldable pub install : (ℕ → ℕ) → ObjectManifest → MemoryStore → MemoryStore
install clock m s =
    let r = retire clock m.updated_at (lookup (key_of m) s.index) s in
    record r {
      blocks = increment_locked (clock 2) m.tenant m.chunks (ensure_tenant r.blocks m.tenant);
      objects = insert m.id m r.objects;
      index = insert (key_of m) m.id r.index;
    }

unfoldable pub commit_found :
    (ℕ → ℕ) → Text → ObjectManifest → Option ObjectManifest → Method (Unit {0})
commit_found clock id manifest none s = (err metadata_not_found, s)
commit_found clock id manifest (some from) s =
    if is_pending from.state
    then (ok tt, install clock (committed_manifest clock id from manifest) s)
    else (err metadata_not_found, s)

unfoldable pub commit_object : Option Error → (ℕ → ℕ) → Text → ObjectManifest → Method (Unit {0})
commit_object canceled clock id manifest =
    unless_canceled canceled λ s. commit_found clock id manifest (lookup id s.objects) s

-- The committed object at a key of the index.
unfoldable pub live : Map Text ObjectManifest → Option Text → Option (Text × ObjectManifest)
live objects none = none
live objects (some id) =
    let m = object_at objects id in if is_committed m.state then some (id, m) else none

unfoldable pub find_live : MemoryStore → Text → Option (Text × ObjectManifest)
find_live s key = live s.objects (lookup key s.index)

found_manifest : Option (Text × ObjectManifest) → Result ObjectManifest
found_manifest none = err metadata_not_found
found_manifest (some (id, m)) = ok m

unfoldable pub get_object : Option Error → Text → Text → Text → Method ObjectManifest
unfolding found_manifest
get_object canceled tenant bucket key =
    unless_canceled canceled λ s. (found_manifest (find_live s (object_key tenant bucket key)), s)

unfoldable pub delete_found :
    (ℕ → ℕ) → Text → Text → Option (Text × ObjectManifest) → Method ObjectManifest
delete_found clock tenant index_key none s = (err metadata_not_found, s)
delete_found clock tenant index_key (some (id, m)) s =
    let gone = record m { state = deleted; updated_at = clock 1 } in
    (
      ok gone,
      record s {
        blocks = decrement_locked (clock 0) tenant m.chunks s.blocks;
        objects = insert id gone s.objects;
        index = delete index_key s.index;
      },
    )

unfoldable pub delete_object : Option Error → (ℕ → ℕ) → Text → Text → Text → Method ObjectManifest
delete_object canceled clock tenant bucket key = unless_canceled canceled λ s.
    delete_found clock tenant (object_key tenant bucket key)
      (find_live s (object_key tenant bucket key)) s

-- The blocks that no object refers to and that are not younger than `before`.
unfoldable pub unreferenced : ℕ → Map Text BlockRefCount → List BlockRef
unreferenced before [] = []
unreferenced before ((hash, b) ∷ rest) =
    let others = unreferenced before rest in
    if nat_eq b.ref_count 0 && leb b.updated_at before
    then record { hash = hash; size = b.size; updated_at = b.updated_at } ∷ others
    else others

-- `limit <= 0` means 1000.
abbrev pub limit_or : ℤ → ℕ
limit_or (pos zero) = 1000
limit_or (pos (suc n)) = suc n
limit_or (negsuc n) = 1000

unfoldable pub list_unreferenced_blocks_older_than :
    Option Error → Text → ℕ → ℤ → Method (List BlockRef)
list_unreferenced_blocks_older_than canceled tenant before limit =
    unless_canceled canceled
      λ s. (ok (take (limit_or limit) (unreferenced before (tenant_blocks s.blocks tenant))), s)

unfoldable pub forget_block : Text → Blocks → Text → Blocks
forget_block tenant blocks hash = elim (lookup hash (tenant_blocks blocks tenant)) [
  | none ↦ blocks
  | some b ↦
      if nat_eq b.ref_count 0
      then insert tenant (delete hash (tenant_blocks blocks tenant)) blocks
      else blocks
]

unfoldable pub forget_each : Text → List Text → Blocks → Blocks
forget_each tenant [] blocks = blocks
forget_each tenant (h ∷ hs) blocks = forget_each tenant hs (forget_block tenant blocks h)

unfoldable pub forget_blocks : Option Error → Text → List Text → Method (Unit {0})
forget_blocks canceled tenant hashes =
    unless_canceled canceled λ s. (ok tt, record s { blocks = forget_each tenant hashes s.blocks })

has_key : {V : Type 0} → Map Text V → Text → Bool
has_key m k = elim (lookup k m) [ none ↦ false | some v ↦ true ]

keys : {V : Type 0} → Map Text V → List Text
keys [] = []
keys ((k, v) ∷ m) = k ∷ keys m

keys_not_in : {U V : Type 0} → Map Text U → Map Text V → List Text
unfolding has_key
keys_not_in seen [] = []
keys_not_in seen ((k, v) ∷ m) =
    let others = keys_not_in seen m in if has_key seen k then others else k ∷ others

unfoldable pub list_tenants : Option Error → Method (List Text)
unfolding keys keys_not_in
list_tenants canceled =
    unless_canceled canceled λ s. (ok (keys s.blocks ++ keys_not_in s.blocks s.multipart), s)
