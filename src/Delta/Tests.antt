-- ===== src/Delta/Tests.antt =====
-- A download of one chunk, whose bytes are in the cache.
use chunk_gate.Prelude.{
  ℕ, ◌≡◌, ◌⊎◌, refl, none, some, List, [], ◌∷◌, ◌++◌, length, concat, take, Text, Text_eq, codes,
}
use chunk_gate.Prelude.Tests.{text_eq}
use chunk_gate.Prelude.Int.{pos}
use chunk_gate.Prelude.Map.{lookup, insert, delete}
use chunk_gate.Prelude.Chars.{
  every, is_lower_hex, is_digit, in_range, trim_space, trim_left, trim_right,
}
use chunk_gate.Delta.Rebuild.{
  Files, Manifest, Calls, cache_path, verified, read_cached, one_chunk, write_chunks,
  manifest_object_md5, rename_output, check_object, close_output, reconstruct,
}
use chunk_gate.Delta.Chunks.{Pieces}
use chunk_gate.Delta.Rebuilt.{reconstruct-Pieces}

abbrev hash : Text
hash = codes "00112233445566778899aabbccddeeff00112233445566778899aabbccddeeff"

-- A stand-in for the hashes.
abbrev same_hash : List ℕ → Text
same_hash bytes = hash

abbrev manifest : Manifest
manifest = record {
  size = pos 2;
  etag = [];
  object_md5 = [];
  chunks = record { hash = hash; offset = pos 0; size = pos 2 } ∷ [];
}

abbrev works : Calls
works = record { os = λ n. none; canceled = λ n. none; writes = λ n. none }

abbrev cached : Files
cached = (codes "/c/blocks/" ++ (take 2 hash ++ (b'/' ∷ hash)), 7 ∷ 8 ∷ []) ∷ []

reconstruct-Pieces_example :
    (xss : List (List ℕ)) × Pieces same_hash same_hash (codes "/c") manifest.chunks xss
    × (lookup
          (codes "/out")
          (reconstruct same_hash same_hash
            (codes "/c")
            works
            (codes "/tmp")
            (codes "/out")
            manifest
            cached).1
        ≡ some (concat xss))
    × (pos (length (concat xss)) ≡ pos 2)
    × ((manifest_object_md5 same_hash same_hash (codes "/c") manifest ≡ [])
        ⊎ (same_hash (concat xss) ≡ manifest_object_md5 same_hash same_hash (codes "/c") manifest))
unfolding reconstruct close_output check_object rename_output write_chunks one_chunk read_cached
    verified cache_path manifest_object_md5 lookup insert delete text_eq every is_lower_hex is_digit
    in_range trim_space trim_left trim_right
reconstruct-Pieces_example =
    reconstruct-Pieces same_hash same_hash (codes "/c") works (codes "/tmp") (codes "/out") manifest
      cached refl
