-- ===== src/Object/Service.antt =====
-- The methods of `Service` in internal/object/service.go, over the in-memory metadata store.
-- SHA-256 and MD5 in hex are arguments.
use chunk_gate.Prelude.{
  ℕ, ◌+◌, Bool, true, false, Option, none, some, List, [], ◌∷◌, ◌++◌, length, if◌then◌else◌, Text,
  Text_eq,
}
use chunk_gate.Prelude.Map.{Map, lookup, insert}
use chunk_gate.Errors.{Error, Result, ok, err, Context}
use chunk_gate.Effects.{World}
use chunk_gate.Ops.{Metrics, observe_upload}
use chunk_gate.Chunker.Options.{Splitter}
use chunk_gate.Chunker.Reader.{Reader, contents}
use chunk_gate.Chunker.Builtin.{Chunk, Emit}
use chunk_gate.Chunker.Stream.{FastCdc, stream}
use chunk_gate.Metadata.Types.{ChunkRef, ObjectManifest, MemoryStore}
use chunk_gate.Metadata.Memory.{
  create_pending_object, commit_object, get_object, delete_object, no_object,
}
use chunk_gate.Object.Blocks.{BlockStore, is_some}

-- What the uploads of a service share.
pub record Server (B : Type 0) : Type 0 where
  pub backend : B
  pub store : MemoryStore
  pub metrics : Metrics

-- The variables of `Put` that its callback changes. `seen` are the block ids put so far.
pub record Upload (B : Type 0) : Type 0 where
  pub backend : B
  pub refs : List ChunkRef
  pub size : ℕ
  pub chunks : ℕ
  pub seen : Map Text Bool

pub record ByteRange : Type 0 where
  pub start : ℕ
  pub end : ℕ

module _ {B : Type 0} (blocks : BlockStore B) (sha256_hex : List ℕ → Text) where
  -- The block is in the backend: its reference is appended.
  unfoldable pub add_ref : Chunk → Upload B → Upload B
  add_ref c u = record u {
    seen = insert (sha256_hex c.bytes) true u.seen;
    refs =
        u.refs
        ++ record {
          hash = sha256_hex c.bytes;
          offset = c.offset;
          size = length c.bytes;
          backend_key = [];
        }
          ∷ [];
    size = u.size + length c.bytes;
    chunks = u.chunks + 1;
  }

  unfoldable pub put_missing : Chunk → Upload B → Option Error × B → Result (Unit {0}) × Upload B
  put_missing c u (some e, b) = (err e, record u { backend = b })
  put_missing c u (none, b) = (ok tt, add_ref c (record u { backend = b }))

  unfoldable pub after_has : Text → Chunk → Upload B → Result Bool → Result (Unit {0}) × Upload B
  after_has tenant c u (err e) = (err e, u)
  after_has tenant c u (ok true) = (ok tt, add_ref c u)
  after_has tenant c u (ok false) =
      put_missing c u (blocks.put_block tenant (sha256_hex c.bytes) c.bytes u.backend)

  -- The callback of `Put`: a block that is not there yet is put.
  unfoldable pub put_chunk : Text → Emit (Upload B)
  unfolding after_has put_missing
  put_chunk tenant c u =
      if is_some (lookup (sha256_hex c.bytes) u.seen)
      then (ok tt, add_ref c u)
      else after_has tenant c u (blocks.has_block tenant (sha256_hex c.bytes) u.backend)

  abbrev pub new_upload : B → Upload B
  new_upload b = record { backend = b; refs = []; size = 0; chunks = 0; seen = [] }

  -- The manifest that `Put` commits; the ETag is the quoted MD5 of the whole body.
  abbrev pub uploaded :
      (List ℕ → Text)
      → Text
      → Text
      → Text
      → Option (Map Text Text)
      → List ℕ
      → Upload B
      → ObjectManifest
  uploaded md5_hex tenant bucket key headers body u = record no_object {
    tenant = tenant;
    bucket = bucket;
    key = key;
    size = u.size;
    etag = 34 ∷ md5_hex body ++ 34 ∷ [];
    headers = headers;
    chunks = u.refs;
  }

-- What an upload brings: names, headers and body, whether a chunker slot was acquired, the random
-- id, and the clocks of the two metadata calls.
pub record Request : Type 0 where
  pub tenant : Text
  pub bucket : Text
  pub key : Text
  pub headers : Option (Map Text Text)
  pub body : Reader
  pub acquired : Option Error
  pub random : Text
  pub create_clock : ℕ → ℕ
  pub commit_clock : ℕ → ℕ

module _ {B : Type 0} (blocks : BlockStore B) (sha256_hex md5_hex : List ℕ → Text)
    (engine : FastCdc) (splitter : Splitter) (ctx : Context) (q : Request) where
  -- `CommitObject` succeeded: the upload is counted and its manifest read back.
  unfoldable pub after_commit :
      ℕ → Upload B → Server B → Result (Unit {0}) → Result ObjectManifest × Server B
  after_commit polls u s (err e) = (err e, s)
  after_commit polls u s (ok done) =
      let s' = record s { metrics = observe_upload u.size u.chunks s.metrics } in
      ((get_object (ctx polls) q.tenant q.bucket q.key s'.store).0, s')

  unfoldable pub after_stream :
      Text → Server B → Result (Unit {0}) × World (Upload B) → Result ObjectManifest × Server B
  after_stream id s (err e, w) = (err e, record s { backend = w.user.backend })
  after_stream id s (ok done, w) =
      let m =
        uploaded blocks sha256_hex md5_hex q.tenant q.bucket q.key q.headers (contents q.body)
          w.user in
      let (r, store) = commit_object (ctx w.polls) q.commit_clock id m s.store in
      after_commit (w.polls + 1) w.user (record s { backend = w.user.backend; store = store }) r

  unfoldable pub after_create : Server B → Result Text → Result ObjectManifest × Server B
  after_create s (err e) = (err e, s)
  after_create s (ok id) = after_stream id s (
      stream engine splitter ctx (put_chunk blocks sha256_hex q.tenant) q.body
        (record { polls = 1; user = new_upload blocks sha256_hex s.backend }))

  unfoldable pub acquired_put : Option Error → Server B → Result ObjectManifest × Server B
  acquired_put (some e) s = (err e, s)
  acquired_put none s =
      let m = record no_object { tenant = q.tenant; bucket = q.bucket; key = q.key } in
      let (r, store) = create_pending_object (ctx 0) q.random q.create_clock m s.store in
      after_create (record s { store = store }) r

  unfoldable pub put : Server B → Result ObjectManifest × Server B
  put s = acquired_put q.acquired s

-- `Delete`
unfoldable pub delete :
    {B : Type 0}
    → Option Error
    → (ℕ → ℕ)
    → Text
    → Text
    → Text
    → Server B
    → Result ObjectManifest × Server B
delete canceled clock tenant bucket key s =
    let (r, store) = delete_object canceled clock tenant bucket key s.store in
    (r, record s { store = store })

-- `Stat`
unfoldable pub stat :
    {B : Type 0} → Option Error → Text → Text → Text → Server B → Result ObjectManifest
stat canceled tenant bucket key s = (get_object canceled tenant bucket key s.store).0
