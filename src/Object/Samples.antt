-- ===== src/Object/Samples.antt =====
-- An object of two chunks with the blocks that hold them, and a request for the service.
use chunk_gate.Prelude.{ℕ, ◌≡◌, refl, Option, none, some, List, [], ◌∷◌, Text, Text_eq}
use chunk_gate.Prelude.Tests.{text_eq}
use chunk_gate.Prelude.Map.{Map, lookup, insert}
use chunk_gate.Errors.{Result, ok, err, block_not_found}
use chunk_gate.Ops.{new_metrics}
use chunk_gate.Chunker.Options.{Splitter, builtin}
use chunk_gate.Chunker.Reader.{more, eof}
use chunk_gate.Chunker.Stream.{FastCdc, finished}
use chunk_gate.Metadata.Types.{ObjectManifest, ChunkRef, committed, object_key}
use chunk_gate.Metadata.Memory.{new_memory_store, no_object, get_object, find_live, live}
use chunk_gate.Object.Blocks.{BlockStore, BlockReader, is_some}
use chunk_gate.Object.Service.{Server, Request}
use chunk_gate.Object.Ranges.{Laid, done, next}

abbrev pub Held : Type 0
Held = Map Text (List ℕ)

abbrev pub reader_of : Option (List ℕ) → Result BlockReader
reader_of none = err block_not_found
reader_of (some bytes) = ok (record { content = ok bytes; close_error = none })

-- Blocks under their hashes, for one tenant.
abbrev pub held_blocks : BlockStore Held
held_blocks = record {
  put_block = λ t h bytes b. (none, insert h bytes b);
  get_block = λ t h b. reader_of (lookup h b);
  has_block = λ t h b. ok (is_some (lookup h b));
  delete_blocks = λ t hs b. (none, b);
}

-- A stand-in for the hash: the bytes themselves.
abbrev pub same_bytes : List ℕ → Text
same_bytes bytes = bytes

abbrev pub two_blocks : Held
two_blocks = (1 ∷ 2 ∷ 3 ∷ [], 1 ∷ 2 ∷ 3 ∷ []) ∷ (4 ∷ 5 ∷ [], 4 ∷ 5 ∷ []) ∷ []

abbrev pub first : ChunkRef
first = record { hash = 1 ∷ 2 ∷ 3 ∷ []; offset = 0; size = 3; backend_key = [] }

abbrev pub second : ChunkRef
second = record { hash = 4 ∷ 5 ∷ []; offset = 3; size = 2; backend_key = [] }

abbrev pub object : ObjectManifest
object = record no_object {
  id = 9 ∷ [];
  tenant = 116 ∷ [];
  bucket = 98 ∷ [];
  key = 107 ∷ [];
  state = committed;
  size = 5;
  chunks = first ∷ second ∷ [];
}

abbrev pub server : Server Held
server = record {
  backend = two_blocks;
  store = record {
    objects = (9 ∷ [], object) ∷ [];
    index = (116 ∷ 0 ∷ 98 ∷ 0 ∷ 107 ∷ [], 9 ∷ []) ∷ [];
    blocks = [];
    multipart = [];
  };
  metrics = new_metrics;
}

pub found : (get_object none (116 ∷ []) (98 ∷ []) (107 ∷ []) server.store).0 ≡ ok object
unfolding get_object find_live live lookup text_eq object_key
found = refl

pub laid :
    Laid held_blocks
      (116 ∷ [])
      two_blocks
      0
      (first ∷ second ∷ [])
      ((1 ∷ 2 ∷ 3 ∷ []) ∷ (4 ∷ 5 ∷ []) ∷ [])
unfolding lookup text_eq
laid = next refl (refl, refl) (next refl (refl, refl) done)

-- A splitter, and a request for it.
abbrev pub small : Splitter
small = record {
  min_size = 2;
  avg_size = 3;
  max_size = 4;
  small_file_threshold = 3;
  engine = builtin;
  mask = 3;
}

abbrev pub request : Request
request = record {
  tenant = 116 ∷ [];
  bucket = 98 ∷ [];
  key = 107 ∷ [];
  headers = none;
  body =
      record { bytes = 1 ∷ 2 ∷ 3 ∷ []; end = more }
      ∷ record { bytes = 4 ∷ 5 ∷ 6 ∷ []; end = eof }
      ∷ [];
  acquired = none;
  random = 1 ∷ [];
  create_clock = λ n. n;
  commit_clock = λ n. n;
}

abbrev pub empty_server : Server Held
empty_server = record { backend = []; store = new_memory_store; metrics = new_metrics }

abbrev pub idle : FastCdc
idle lo avg hi reader = ok ([], finished)
