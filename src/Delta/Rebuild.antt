-- ===== src/Delta/Rebuild.antt =====
-- `Cache.Read` and `reconstruct` of internal/deltaclient/client.go. The file system is a map from
-- absolute paths to contents; SHA-256 and MD5 in hex are arguments, and what the calls answer.
use chunk_gate.Prelude.{
  ℕ, ◌+◌, not, ◌&&◌, Option, none, some, List, [], ◌∷◌, ◌++◌, map, length, take, nat_eq,
  if◌then◌else◌, Text, Text_eq, ◌==◌, codes,
}
use chunk_gate.Prelude.Int.{ℤ, pos, leb_ℤ}
use chunk_gate.Prelude.Map.{Map, lookup, insert, delete}
use chunk_gate.Prelude.Chars.{every, is_lower_hex, to_lower, trim_left, trim_right, trim_space}
use chunk_gate.Errors.{Error, Result, ok, err, errorf, ◌>>=◌}

abbrev pub Files : Type 0
Files = Map Text (List ℕ)

pub record ManifestChunk : Type 0 where
  pub hash : Text
  pub offset : ℤ
  pub size : ℤ

pub record Manifest : Type 0 where
  pub size : ℤ
  pub etag : Text
  pub object_md5 : Text
  pub chunks : List ManifestChunk

-- By their numbers: 0 makes the directory, 1 the temporary file, 2 closes it, 3 and 4 rename it, 5
-- removes it, 6 removes the output. A write fails or writes all.
pub record Calls : Type 0 where
  pub os : ℕ → Option Error
  pub canceled : ℕ → Option Error
  pub writes : ℕ → Option Error

-- The path of a chunk below the cache's root, which is absolute and clean.
unfoldable pub cache_path : Text → Text → Result Text
cache_path root hash =
    if nat_eq (length hash) 64 && every is_lower_hex hash
    then ok (root ++ (codes "/blocks/" ++ (take 2 hash ++ (b'/' ∷ hash))))
    else err (errorf (codes "invalid chunk hash"))

module _ (sha256_hex md5_hex : List ℕ → Text) (root : Text) where
  unfoldable pub verified : Text → ℤ → Option (List ℕ) → Result (List ℕ)
  verified hash size none = err (errorf (codes "no such file"))
  verified hash size (some bytes) =
      if leb_ℤ (pos 0) size
        && not (leb_ℤ (pos (length bytes)) size && leb_ℤ size (pos (length bytes)))
      then err (errorf (codes "cached chunk size mismatch"))
      else if not (sha256_hex bytes == hash)
      then err (errorf (codes "cached chunk hash mismatch"))
      else ok bytes

  -- `Cache.Read`
  unfoldable pub read_cached : Files → Text → ℤ → Result (List ℕ)
  unfolding verified
  read_cached fs hash size = do path ← cache_path root hash; verified hash size (lookup path fs)

  module _ (c : Calls) (fs : Files) where
    unfoldable pub one_chunk : ℕ → ManifestChunk → Result (List ℕ)
    one_chunk n chunk = elim (c.canceled n) [
      | some e ↦ err e
      | none ↦ do
        bytes ← read_cached fs chunk.hash chunk.size
        elim (c.writes n) [ some e ↦ err e | none ↦ ok bytes ]
    ]

    abbrev pub before : Result (List ℕ) → Option Error × List ℕ → Option Error × List ℕ
    before (err e) rest = (some e, [])
    before (ok bytes) (e, rest) = (e, bytes ++ rest)

    -- The loop over the chunks: the error that ends it, and what was written.
    unfoldable pub write_chunks : ℕ → List ManifestChunk → Option Error × List ℕ
    unfolding one_chunk
    write_chunks n [] = (none, [])
    write_chunks n (chunk ∷ chunks) =
        let rest = write_chunks (n + 1) chunks in before (one_chunk n chunk) rest

  -- `manifestObjectMD5`, on ASCII
  unfoldable pub manifest_object_md5 : Manifest → Text
  manifest_object_md5 m =
      let value =
        map to_lower
          (trim_right (λ x. nat_eq x 34) (trim_left (λ x. nat_eq x 34) (trim_space m.etag))) in
      if not (m.object_md5 == [])
      then map to_lower m.object_md5
      else if nat_eq (length value) 32 && every is_lower_hex value
      then value
      else []

  abbrev pub Done : Type 0
  Done = Option Error × Files

  module _ (c : Calls) (tmp output : Text) where
    -- The function that is deferred removes the temporary file.
    abbrev pub failing : Error → Files → Done
    failing e fs = (some e, elim (c.os 5) [ none ↦ delete tmp fs | some x ↦ fs ])

    abbrev pub commit : List ℕ → Files → Done
    commit bytes fs = (none, insert output bytes (delete tmp fs))

    abbrev pub without_output : Files → Files
    without_output fs = elim (c.os 6) [ none ↦ delete output fs | some x ↦ fs ]

    unfoldable pub rename_output : List ℕ → Files → Done
    rename_output bytes fs = elim (c.os 3) [
      | none ↦ commit bytes fs
      | some e ↦ elim (c.os 4) [
        | none ↦ commit bytes (without_output fs)
        | some x ↦ failing e (without_output fs)
      ]
    ]

    unfoldable pub check_object : Manifest → List ℕ → Files → Done
    unfolding rename_output
    check_object m bytes fs =
        if not (leb_ℤ (pos (length bytes)) m.size && leb_ℤ m.size (pos (length bytes)))
        then failing (errorf (codes "reconstructed size does not match")) fs
        else if not (manifest_object_md5 m == []) && not (md5_hex bytes == manifest_object_md5 m)
        then failing (errorf (codes "reconstructed object md5 does not match")) fs
        else rename_output bytes fs

    unfoldable pub close_output : Manifest → Option Error × List ℕ → Files → Done
    unfolding check_object
    close_output m (some e, bytes) fs = failing e (insert tmp bytes fs)
    close_output m (none, bytes) fs = elim (c.os 2) [
      | some e ↦ failing e (insert tmp bytes fs)
      | none ↦ check_object m bytes (insert tmp bytes fs)
    ]

    unfoldable pub reconstruct : Manifest → Files → Done
    unfolding close_output
    reconstruct m fs = elim (c.os 0) [
      | some e ↦ (some e, fs)
      | none ↦ elim (c.os 1) [
        | some e ↦ (some e, fs)
        | none ↦ close_output m (write_chunks c fs 0 m.chunks) fs
      ]
    ]
