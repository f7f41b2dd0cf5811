-- ===== src/Object/Upload.antt =====
-- `Put` and then `Open` or `OpenRange` of internal/object/service.go.
use chunk_gate.Prelude.{
  ℕ, ◌≡◌, refl, ap, ◌∙◌, true, Option, none, some, List, All, length, arith, Text, Text_eq,
}
use chunk_gate.Prelude.Map.{lookup, insert, lookup-insert, eq_self}
use chunk_gate.Errors.{Result, ok, err, background}
use chunk_gate.Effects.{World}
use chunk_gate.Ops.{observe_upload}
use chunk_gate.Chunker.Options.{Splitter, builtin}
use chunk_gate.Chunker.Reader.{contents, IsClean}
use chunk_gate.Chunker.Builtin.{Chunk}
use chunk_gate.Chunker.Stream.{FastCdc, stream}
use chunk_gate.Chunker.Cuts.{chunks_of, bytes_of-chunks_of}
use chunk_gate.Chunker.Equivalence.{outcome}
use chunk_gate.Chunker.Whole.{small_or, Emits, stream_lem}
use chunk_gate.Chunker.Cuts.Layout.{chunks_of-Contiguous}
use chunk_gate.Chunker.Split.{Covers, builtin-Emits, small_or-Covers}
use chunk_gate.Metadata.Types.{ObjectManifest, MemoryStore, pending, object_key}
use chunk_gate.Metadata.Memory.{
  create_pending_object, commit_object, commit_found, install, get_object, find_live,
  committed_manifest, no_object, ensure_tenant, key_of, is_pending,
}
use chunk_gate.Metadata.Invariant.{Inv}
use chunk_gate.Metadata.Steps.{creates-Inv, pending-Unindexed}
use chunk_gate.Metadata.View.{find_live-install}
use chunk_gate.Object.Blocks.{BlockStore, IsReliable}
use chunk_gate.Object.Service.{
  ByteRange, Server, Upload, Request, put, acquired_put, after_create, after_stream, after_commit,
  put_chunk, new_upload, uploaded,
}
use chunk_gate.Object.Ranges.{asked, IsRange, fetch, fetch-slice}
use chunk_gate.Object.Stored.{
  IsCollisionFree, HasSeen, IsSound, AllOccur, emit_all-IsPut, held-Laid, concat_each, bytes_each,
}

-- A manifest that was just committed at a key is what `GetObject` finds there.
found_lem :
    (t b k id : Text) (m : ObjectManifest) (s : MemoryStore)
    → find_live s (object_key t b k) ≡ some (id, m)
    → (get_object none t b k s).0 ≡ ok m
unfolding get_object
found_lem t b k id m s e = rw e refl

commit-get :
    (clock : ℕ → ℕ) (id : Text) (m from : ObjectManifest) (s : MemoryStore)
    → Inv s
    → lookup id s.objects ≡ some from
    → is_pending from.state ≡ true
    → (commit_object none clock id m s
        ≡ (ok tt, install clock (committed_manifest clock id from m) s))
      × ((get_object none m.tenant m.bucket m.key
            (install clock (committed_manifest clock id from m) s)).0
          ≡ ok (committed_manifest clock id from m))
unfolding commit_object commit_found
commit-get clock id m from s v l p = (
  rw (l, p) refl,
  found_lem m.tenant m.bucket m.key id (committed_manifest clock id from m) _ (
      find_live-install clock (committed_manifest clock id from m) s (key_of m) v
        (pending-Unindexed s v id from l p) refl
      ∙ rw (eq_self (key_of m)) refl),
)

module _ {B : Type 0} (blocks : BlockStore B) (sha256_hex md5_hex : List ℕ → Text)
    (engine : FastCdc) (splitter : Splitter) (q : Request) where
  abbrev manifest_of : Upload B → ObjectManifest
  manifest_of u =
      uploaded blocks sha256_hex md5_hex q.tenant q.bucket q.key q.headers (contents q.body) u

  -- What a stream that ends well leads to, for a pending object.
  after_stream_lem :
      (id : Text) (from : ObjectManifest) (s : Server B) (u : Upload B)
      (m : Result (Unit {0}) × World (Upload B))
      → Inv s.store
      → lookup id s.store.objects ≡ some from
      → is_pending from.state ≡ true
      → outcome m ≡ (ok tt, u)
      → (s' : Server B) × (after_stream blocks sha256_hex md5_hex engine splitter background q id s
            m
          ≡ (ok (committed_manifest q.commit_clock id from (manifest_of u)), s'))
        × (s'.backend ≡ u.backend)
        × ((get_object none q.tenant q.bucket q.key s'.store).0
            ≡ ok (committed_manifest q.commit_clock id from (manifest_of u)))
  unfolding after_stream after_commit
  after_stream_lem id from s u (err e, w) v l p h = cc
  after_stream_lem id from s u (ok done, w) v l p h =
      let user : w.user ≡ u = ap (λ x. x.1) h in
      let (commits, gets) = commit-get q.commit_clock id (manifest_of u) from s.store v l p in
      (
        record s {
          backend = u.backend;
          store =
              install q.commit_clock (committed_manifest q.commit_clock id from (manifest_of u))
                s.store;
          metrics = observe_upload u.size u.chunks s.metrics;
        },
        rw (user, commits, gets) refl,
        refl,
        gets,
      )

  -- The pending object that `Put` begins with.
  abbrev pending_of : ObjectManifest
  pending_of = record no_object {
    id = q.random;
    tenant = q.tenant;
    bucket = q.bucket;
    key = q.key;
    state = pending;
    created_at = q.create_clock 0;
    updated_at = q.create_clock 0;
  }

module _ {B : Type 0} (blocks : BlockStore B) (sha256_hex md5_hex : List ℕ → Text)
    (engine : FastCdc) (splitter : Splitter) (q : Request) (Takes : Text → Type 0)
    (Occurs : List ℕ → Type 0) (reliable : IsReliable blocks q.tenant Takes)
    (hashes : IsCollisionFree sha256_hex Takes Occurs) where
  -- The chunks of the body.
  abbrev pub chunks_put : (List ℕ → List Chunk) → List Chunk
  chunks_put spec =
      small_or splitter.small_file_threshold (contents q.body) (spec (contents q.body))

  nothing_seen :
      (b : B)
      → HasSeen blocks sha256_hex q.tenant Takes Occurs reliable hashes
          (new_upload blocks sha256_hex b)
  unfolding lookup
  nothing_seen b h t seen = cc

  put_lem :
      (s : Server B) (spec : List ℕ → List Chunk)
      → Emits engine splitter (put_chunk blocks sha256_hex q.tenant) spec
      → ((bytes : List ℕ)
          → Covers bytes (small_or splitter.small_file_threshold bytes (spec bytes)))
      → IsClean q.body
      → q.acquired ≡ none
      → Inv s.store
      → lookup q.random s.store.objects ≡ none
      → IsSound blocks sha256_hex q.tenant Takes Occurs reliable hashes s.backend
      → AllOccur blocks sha256_hex q.tenant Takes Occurs reliable hashes (chunks_put spec)
      → (m : ObjectManifest) × (s' : Server B) × (put blocks sha256_hex md5_hex engine splitter
            background q s
          ≡ (ok m, s'))
        × (m.size ≡ length (contents q.body))
        × ((range : Option ByteRange)
            → IsRange range
            → fetch blocks none q.tenant q.bucket q.key range s'
              ≡ ok (asked range (contents q.body)))
  unfolding put acquired_put after_create create_pending_object
  put_lem s spec emits covers clean acquired v fresh sound occur =
      let cs : List Chunk = chunks_put spec in
      let (u, e, p) =
        emit_all-IsPut blocks sha256_hex q.tenant Takes Occurs reliable hashes cs
          (new_upload blocks sha256_hex s.backend) occur sound (nothing_seen s.backend) in
      let first : Server B = record s {
        store = record s.store {
          objects =
              insert q.random (pending_of blocks sha256_hex md5_hex engine splitter q)
                s.store.objects;
          blocks = ensure_tenant s.store.blocks q.tenant;
        };
      } in
      let run : Result (Unit {0}) × World (Upload B) =
        stream engine splitter background (put_chunk blocks sha256_hex q.tenant) q.body
          (record { polls = 1; user = new_upload blocks sha256_hex s.backend }) in
      let streamed : outcome run ≡ (ok tt, u) =
        stream_lem engine splitter (put_chunk blocks sha256_hex q.tenant) spec q.body
          (record { polls = 1; user = new_upload blocks sha256_hex s.backend }) emits clean
        ∙ e in
      let (s', puts, same, gets) =
        after_stream_lem blocks sha256_hex md5_hex engine splitter q q.random
          (pending_of blocks sha256_hex md5_hex engine splitter q) first u run
          (creates-Inv s.store v q.random q.create_clock
            (record no_object { tenant = q.tenant; bucket = q.bucket; key = q.key }) fresh)
          (lookup-insert q.random q.random (pending_of blocks sha256_hex md5_hex engine splitter q)
              s.store.objects
            ∙ rw (eq_self q.random) refl)
          refl streamed in
      let (joined, contiguous) = covers (contents q.body) in
      (
        committed_manifest q.commit_clock q.random
            (pending_of blocks sha256_hex md5_hex engine splitter q)
            (manifest_of blocks sha256_hex md5_hex engine splitter q u),
        s',
        ap (λ o. acquired_put blocks sha256_hex md5_hex engine splitter background q o s) acquired
            ∙ puts,
        omega (arith, p.size, ap length joined),
        λ range h.
            fetch-slice blocks q.tenant q.bucket q.key range s' _
              (bytes_each blocks sha256_hex q.tenant Takes Occurs reliable hashes cs) h gets
              (rw (same, p.refs)
                (held-Laid blocks sha256_hex q.tenant Takes Occurs reliable hashes u.backend 0 cs
                  occur contiguous p.holds))
            ∙ ap (λ bytes. ok (asked range bytes)) (concat_each cs ∙ joined),
      )

module _ {B : Type 0} (blocks : BlockStore B) (sha256_hex md5_hex : List ℕ → Text)
    (engine : FastCdc) (splitter : Splitter) (q : Request) (Takes : Text → Type 0)
    (Occurs : List ℕ → Type 0) (reliable : IsReliable blocks q.tenant Takes)
    (hashes : IsCollisionFree sha256_hex Takes Occurs) where
  -- The chunks that the built-in engine makes of the body.
  abbrev pub chunks_builtin : List Chunk
  chunks_builtin =
      small_or splitter.small_file_threshold (contents q.body)
        (chunks_of splitter (contents q.body))

  -- With the built-in engine, over a backend that works and keeps blocks under their hashes, with no
  -- two byte strings of one hash among the stored blocks and the chunks: `Put` of a body that does not
  -- fail succeeds with its size, and `Open` and `OpenRange` then give the body and its ranges. The
  -- context is not cancelled, a slot was acquired, the counts are right and the random id is new.
  pub put-fetch :
      (s : Server B)
      → splitter.engine ≡ builtin
      → IsClean q.body
      → q.acquired ≡ none
      → Inv s.store
      → lookup q.random s.store.objects ≡ none
      → IsSound blocks sha256_hex q.tenant Takes Occurs reliable hashes s.backend
      → All (λ c. Occurs c.bytes) chunks_builtin
      → (m : ObjectManifest) × (s' : Server B) × (put blocks sha256_hex md5_hex engine splitter
            background q s
          ≡ (ok m, s'))
        × (m.size ≡ length (contents q.body))
        × ((range : Option ByteRange)
            → IsRange range
            → fetch blocks none q.tenant q.bucket q.key range s'
              ≡ ok (asked range (contents q.body)))
  put-fetch s e clean acquired v fresh sound occur =
      put_lem blocks sha256_hex md5_hex engine splitter q Takes Occurs reliable hashes s
        (chunks_of splitter)
        (builtin-Emits engine splitter (put_chunk blocks sha256_hex q.tenant) e)
        (λ bytes.
          small_or-Covers splitter.small_file_threshold bytes _
            (bytes_of-chunks_of splitter bytes, chunks_of-Contiguous splitter bytes))
        clean acquired v fresh sound occur
