-- ===== src/Object/Tests.antt =====
-- The theorems on reading objects, for an object of two chunks.
use chunk_gate.Prelude.{◌≡◌, refl, ap, All, Option, none, some, List, [], ◌∷◌, Text_eq, arith}
use chunk_gate.Prelude.Tests.{text_eq}
use chunk_gate.Prelude.Map.{lookup, insert, lookup-insert}
use chunk_gate.Errors.{ok, background}
use chunk_gate.Chunker.Reader.{contents}
use chunk_gate.Chunker.Builtin.{Chunk}
use chunk_gate.Metadata.Runs.{new-Inv}
use chunk_gate.Metadata.Types.{ObjectManifest, object_key}
use chunk_gate.Metadata.Memory.{new_memory_store, get_object, find_live, live}
use chunk_gate.Object.Blocks.{IsReliable}
use chunk_gate.Object.Service.{Server, ByteRange, put}
use chunk_gate.Object.Open.{SelectedChunk, first_chunk, verify, select, select_found, read_chunks}
use chunk_gate.Object.Ranges.{asked, IsRange, fetch, fetch-slice}
use chunk_gate.Object.Upload.{put-fetch}
use chunk_gate.Object.Samples.{
  small, request, empty_server, idle, Held, reader_of, held_blocks, same_bytes, object, server,
  found, laid,
}
use chunk_gate.Object.Stored.{IsCollisionFree}
use chunk_gate.Object.Select.{Genuine, read_chunks-Genuine}

-- The range from the third byte to the fourth, across the chunks.
fetch-slice_example :
    fetch held_blocks none
      (116 ∷ [])
      (98 ∷ [])
      (107 ∷ [])
      (some (record { start = 2; end = 3 }))
      server
    ≡ ok (3 ∷ 4 ∷ [])
fetch-slice_example =
    fetch-slice held_blocks (116 ∷ []) (98 ∷ []) (107 ∷ []) (some (record { start = 2; end = 3 }))
      server object ((1 ∷ 2 ∷ 3 ∷ []) ∷ (4 ∷ 5 ∷ []) ∷ []) (omega arith) found laid

abbrev selected : List SelectedChunk
selected = record { hash = 4 ∷ 5 ∷ []; size = 2; bytes = 4 ∷ 5 ∷ [] } ∷ []

-- A hash that is asked for twice is read once.
read_chunks-Genuine_example :
    ((get_object none (116 ∷ []) (98 ∷ []) (107 ∷ []) server.store).0 ≡ ok object)
    × All (Genuine same_bytes object.chunks) selected
unfolding get_object find_live live lookup text_eq object_key read_chunks select select_found
    first_chunk verify insert
read_chunks-Genuine_example =
    read_chunks-Genuine held_blocks same_bytes none (116 ∷ []) (98 ∷ []) (107 ∷ [])
      ((4 ∷ 5 ∷ []) ∷ (4 ∷ 5 ∷ []) ∷ []) server object selected refl

abbrev held_reliable : IsReliable held_blocks (116 ∷ []) (λ h. Unit {0})
held_reliable = record {
  block = λ b h. lookup h b;
  put = λ h bytes b e missing. (insert h bytes b, refl, λ k ek. lookup-insert h k bytes b);
  has = λ h b e. refl;
  get = λ h b bytes e there. ap reader_of there;
}

same_bytes-IsCollisionFree : IsCollisionFree same_bytes (λ h. Unit {0}) (λ xs. Unit {0})
same_bytes-IsCollisionFree = record { takes = λ xs o. tt; injective = λ xs ys o p e. e }

each_occurs : (cs : List Chunk) → All (λ c. Unit {0}) cs
each_occurs [] = tt
each_occurs (c ∷ cs) = (tt, each_occurs cs)

put-fetch_example :
    (m : ObjectManifest) × (s' : Server Held) × (put held_blocks same_bytes same_bytes idle small
        background request empty_server
      ≡ (ok m, s'))
    × (m.size ≡ 6)
    × ((range : Option ByteRange)
        → IsRange range
        → fetch held_blocks none (116 ∷ []) (98 ∷ []) (107 ∷ []) range s'
          ≡ ok (asked range (1 ∷ 2 ∷ 3 ∷ 4 ∷ 5 ∷ 6 ∷ [])))
unfolding contents lookup new_memory_store
put-fetch_example =
    put-fetch held_blocks same_bytes same_bytes idle small request (λ h. Unit {0}) (λ xs. Unit {0})
      held_reliable same_bytes-IsCollisionFree empty_server refl refl refl new-Inv refl
      (λ h xs o e. absurd (cc)) (each_occurs _)
