-- ===== src/Object/Open.antt =====
-- `openChunks`, `Open`, `OpenRange` and `ReadChunks` of internal/object/service.go. Closing the
-- readers that are already open, on an error, changes nothing that is modelled.
use chunk_gate.Prelude.{
  ℕ, ◌+◌, ◌-◌, Bool, true, not, ◌&&◌, ◌||◌, Option, none, some, List, [], ◌∷◌, ◌++◌, length, take,
  drop, ltb, leb, nat_eq, if◌then◌else◌, Text, Text_eq, ◌==◌, codes,
}
use chunk_gate.Prelude.Map.{Map, lookup, insert}
use chunk_gate.Errors.{Error, Result, ok, err, chunk_not_in_manifest, errorf, wrapped, ◌>>=◌}
use chunk_gate.Metadata.Types.{ChunkRef, ObjectManifest}
use chunk_gate.Metadata.Memory.{get_object}
use chunk_gate.Object.Blocks.{BlockStore, BlockReader, is_some}
use chunk_gate.Object.Service.{ByteRange, Server}

-- What is read of a chunk: nothing, all, or the bytes from the first to the last index.
pub data Part : Type 0 where
  skipped whole : Part
  part : ℕ → ℕ → Part

-- The clipped interval of a chunk that the range meets; it is read whole where nothing is clipped.
unfoldable pub clip : ByteRange → ChunkRef → Part
clip r c =
    let chunk_end = c.offset + c.size - 1 in
    let read_start = if ltb c.offset r.start then r.start - c.offset else 0 in
    let read_end = if ltb r.end chunk_end then r.end - c.offset else c.size - 1 in
    if nat_eq read_start 0 && nat_eq read_end (c.size - 1) then whole else part read_start read_end

unfoldable pub part_of : Option ByteRange → ChunkRef → Part
unfolding clip
part_of none c = whole
part_of (some r) c =
    if nat_eq c.size 0 || ltb (c.offset + c.size - 1) r.start || ltb r.end c.offset
    then skipped
    else clip r c

-- `data[readStart : readEnd+1]`, after the checks.
unfoldable pub cut_out : ℕ → ℕ → List ℕ → Result (List ℕ)
cut_out read_start read_end bytes =
    if ltb (length bytes) read_start || leb (length bytes) read_end || ltb read_end read_start
    then err (errorf (codes "invalid chunk range"))
    else ok (take (read_end + 1 - read_start) (drop read_start bytes))

closed : Option Error → List ℕ → Result (List ℕ)
closed none bytes = ok bytes
closed (some e) bytes = err e

read_error : Result (List ℕ) → Result (List ℕ)
read_error (ok bytes) = ok bytes
read_error (err e) = err (wrapped (codes "read range chunk") e)

-- Each source of the `io.MultiReader`: the bytes it gives, or the error that reading it ends in.
abbrev pub Source : Type 0
Source = Result (List ℕ)

module _ {B : Type 0} (blocks : BlockStore B) (tenant : Text) (b : B) where
  unfoldable pub open_part : Part → ChunkRef → Result (List Source) → Result (List Source)
  unfolding closed read_error
  open_part skipped c rest = rest
  open_part whole c rest = do
    reader ← blocks.get_block tenant c.hash b
    readers ← rest
    ok (reader.content ∷ readers)
  open_part (part read_start read_end) c rest = do
    reader ← blocks.get_block tenant c.hash b
    bytes ← read_error reader.content
    bytes ← closed reader.close_error bytes
    clipped ← cut_out read_start read_end bytes
    readers ← rest
    ok (ok clipped ∷ readers)

  unfoldable pub open_chunks : Option ByteRange → List ChunkRef → Result (List Source)
  unfolding open_part
  open_chunks range [] = ok []
  open_chunks range (c ∷ cs) = open_part (part_of range c) c (open_chunks range cs)

-- Reading a `MultiReader` to its end.
unfoldable pub read_all : List Source → Result (List ℕ)
read_all [] = ok []
read_all (r ∷ rs) = do bytes ← r; rest ← read_all rs; ok (bytes ++ rest)

-- `Open` (no range) and `OpenRange`.
unfoldable pub open_object :
    {B : Type 0}
    → BlockStore B
    → Option Error
    → Text
    → Text
    → Text
    → Option ByteRange
    → Server B
    → Result (ObjectManifest × List Source)
open_object blocks canceled tenant bucket key range s = do
  m ← (get_object canceled tenant bucket key s.store).0
  readers ← open_chunks blocks tenant s.backend range m.chunks
  ok (m, readers)

pub record SelectedChunk : Type 0 where
  pub hash : Text
  pub size : ℕ
  pub bytes : List ℕ

-- `manifestChunks`: the first chunk of the manifest with each hash.
unfoldable pub first_chunk : Text → List ChunkRef → Option ChunkRef
first_chunk h [] = none
first_chunk h (c ∷ cs) = if c.hash == h then some c else first_chunk h cs

module _ {B : Type 0} (blocks : BlockStore B) (sha256_hex : List ℕ → Text) (tenant : Text)
    (b : B) where
  -- The checks on the bytes of a selected chunk.
  unfoldable pub verify : ChunkRef → Text → BlockReader → Result SelectedChunk
  unfolding closed
  verify c h reader = do
    bytes ← elim reader.content [
      | ok bytes ↦ ok bytes
      | err e ↦ err (wrapped (codes "read chunk") e)
    ]
    bytes ← closed reader.close_error bytes
    if not (nat_eq (length bytes) c.size)
        then err (errorf (codes "size mismatch"))
        else if not (sha256_hex bytes == h)
        then err (errorf (codes "hash mismatch"))
        else ok (record { hash = h; size = c.size; bytes = bytes })

  unfoldable pub select_found : Text → Option ChunkRef → Result SelectedChunk
  select_found h none = err chunk_not_in_manifest
  select_found h (some c) = do reader ← blocks.get_block tenant h b; verify c h reader

  unfoldable pub select : List ChunkRef → Map Text Bool → List Text → Result (List SelectedChunk)
  unfolding select_found
  select cs seen [] = ok []
  select cs seen (h ∷ hs) =
      let skip = select cs seen hs in
      let rest = select cs (insert h true seen) hs in
      if is_some (lookup h seen)
      then skip
      else do x ← select_found h (first_chunk h cs); xs ← rest; ok (x ∷ xs)

-- `ReadChunks`
unfoldable pub read_chunks :
    {B : Type 0}
    → BlockStore B
    → (List ℕ → Text)
    → Option Error
    → Text
    → Text
    → Text
    → List Text
    → Server B
    → Result (ObjectManifest × List SelectedChunk)
read_chunks blocks sha256_hex canceled tenant bucket key hashes s = do
  m ← (get_object canceled tenant bucket key s.store).0
  xs ← select blocks sha256_hex tenant s.backend m.chunks [] hashes
  ok (m, xs)
