-- ===== src/Backend/FileStore.antt =====
-- `FileStore` of internal/backend/fs.go. The file system is the map from paths to contents; `FileCalls`
-- has what the calls of one method answer, by their numbers, and the random bytes. The root is
-- absolute and clean, and a cipher is an argument.
use chunk_gate.Prelude.{
  ℕ, ◌+◌, Bool, true, false, not, ◌&&◌, ◌||◌, Option, none, some, List, [], ◌∷◌, ◌++◌, length, take,
  drop, nat_eq, ltb, if◌then◌else◌, Text, Text_eq, ◌==◌, codes,
}
use chunk_gate.Prelude.Chars.{every, is_lower_hex, has_prefix}
use chunk_gate.Prelude.Runes.{safe_part}
use chunk_gate.Prelude.Map.{Map, lookup, insert, delete}
use chunk_gate.Errors.{Error, Result, ok, err, ◌>>=◌, ◌>>◌, check, block_not_found, errorf, wrapped}
use chunk_gate.Object.Blocks.{BlockStore, BlockReader, is_some}

abbrev pub Files : Type 0
Files = Map Text (List ℕ)

-- `cipher.AEAD`, without additional data.
pub record Aead : Type 0 where
  pub nonce_size : ℕ
  pub seal : List ℕ → List ℕ → List ℕ
  pub open_sealed : List ℕ → List ℕ → Option (List ℕ)

pub record FileStore : Type 0 where
  pub root : Text
  pub aead : Option Aead

-- `partial` is what a failing write leaves in the temporary file.
pub record FileCalls : Type 0 where
  pub canceled : ℕ → Option Error
  pub os : ℕ → Option Error
  pub nonce : Result (List ℕ)
  pub suffix : Text
  pub partial : List ℕ

unfoldable pub new_file_store : Text → FileStore
new_file_store root = record { root = root; aead = none }

-- `NewEncryptedFileStore`, given what `cipher.NewGCM` makes of the key.
unfoldable pub new_encrypted_file_store : Text → Result Aead → Result FileStore
new_encrypted_file_store root (err e) =
    err (wrapped (codes "configure filesystem block encryption") e)
new_encrypted_file_store root (ok aead) = ok (record { root = root; aead = some aead })

unfoldable pub valid_block_hash : Text → Bool
valid_block_hash h = nat_eq (length h) 64 && every is_lower_hex h

unfoldable pub sanitize_path_part : Text → Text
sanitize_path_part [] = codes "default"
sanitize_path_part (c ∷ s) = safe_part (c ∷ s)

-- The path below the root.
unfoldable pub relative_path : Text → Text → Text
relative_path tenant h =
    codes "tenants/"
    ++ (sanitize_path_part tenant ++ (codes "/blocks/" ++ (take 2 h ++ (b'/' ∷ h))))

unfoldable pub escapes : Text → Bool
escapes rel =
    rel == codes "."
    || has_prefix (codes "../") rel
    || rel == codes ".."
    || has_prefix (codes "/") rel

-- `blockPath`
unfoldable pub block_path : FileStore → Text → Text → Result Text
unfolding escapes
block_path s tenant h =
    if not (valid_block_hash h)
    then err (errorf (codes "invalid block hash"))
    else if escapes (relative_path tenant h)
    then err (errorf (codes "invalid block path"))
    else ok (s.root ++ (b'/' ∷ relative_path tenant h))

abbrev pub magic : Text
magic = codes "CGFSENC1"

unfoldable pub seal_with : Aead → List ℕ → Result (List ℕ) → Result (List ℕ)
seal_with a bytes (err e) = err (wrapped (codes "create block encryption nonce") e)
seal_with a bytes (ok nonce) = ok (magic ++ (nonce ++ a.seal nonce bytes))

-- `encodeBlock`
unfoldable pub encode_block : FileStore → Result (List ℕ) → List ℕ → Result (List ℕ)
unfolding seal_with
encode_block s nonce bytes = elim s.aead [ none ↦ ok bytes | some a ↦ seal_with a bytes nonce ]

unfoldable pub opened : Option (List ℕ) → Result (List ℕ)
opened none = err (errorf (codes "decrypt block"))
opened (some bytes) = ok bytes

unfoldable pub unseal : Aead → List ℕ → Result (List ℕ)
unfolding opened
unseal a bytes =
    if ltb (length bytes) (8 + a.nonce_size) || not (take 8 bytes == magic)
    then err (errorf (codes "encrypted block is missing ChunkGate encryption header"))
    else opened (a.open_sealed (take a.nonce_size (drop 8 bytes)) (drop (8 + a.nonce_size) bytes))

-- `decodeBlock`
unfoldable pub decode_block : FileStore → List ℕ → Result (List ℕ)
unfolding unseal
decode_block s bytes = elim s.aead [ none ↦ ok bytes | some a ↦ unseal a bytes ]

-- An error of the operating system, with what was done.
abbrev pub os_check : Text → Option Error → Result (Unit {0})
os_check what none = ok tt
os_check what (some e) = err (wrapped what e)

-- A method's result, with the files beside an error too.
abbrev pub Done : Type 0
Done = Option Error × Files

abbrev pub or_fail : {A : Type 0} → Result A → (A → Files → Done) → Files → Done
or_fail (err e) next fs = (some e, fs)
or_fail (ok a) next fs = next a fs

module _ (s : FileStore) (c : FileCalls) where
  -- Number 4 is the rename; a file that appeared meanwhile is kept.
  unfoldable pub commit_tmp : Text → Text → List ℕ → Files → Done
  commit_tmp path tmp payload fs =
      if is_some (lookup path fs) then (none, delete tmp fs) else elim (c.os 4) [
        | some e ↦ (some (wrapped (codes "commit block") e), delete tmp fs)
        | none ↦ (none, insert path payload (delete tmp fs))
      ]

  unfoldable pub write_tmp : Text → List ℕ → Files → Done
  unfolding commit_tmp
  write_tmp path payload fs =
      let tmp = path ++ (b'.' ∷ c.suffix ++ codes ".tmp") in
      elim (c.os 2) [
        | some e ↦ (some (wrapped (codes "write block") e), insert tmp c.partial fs)
        | none ↦ commit_tmp path tmp payload (insert tmp payload fs)
      ]

  unfoldable pub put_new : Text → List ℕ → Files → Done
  unfolding write_tmp
  put_new path bytes =
      or_fail (do os_check (codes "create block directory") (c.os 1); encode_block s c.nonce bytes)
        λ payload. write_tmp path payload

  unfoldable pub put_at : List ℕ → Text → Files → Done
  unfolding put_new
  put_at bytes path fs =
      if is_some (lookup path fs)
      then (none, fs)
      else or_fail (os_check (codes "stat block") (c.os 0)) (λ done. put_new path bytes) fs

  -- `PutBlock`
  unfoldable pub put_block_file : Text → Text → List ℕ → Files → Done
  unfolding put_at
  put_block_file tenant h bytes =
      or_fail (do check (c.canceled 0); block_path s tenant h) (put_at bytes)

  unfoldable pub decoded : List ℕ → Result BlockReader
  decoded bytes = do
    os_check (codes "read encrypted block") (c.os 6)
    os_check (codes "close encrypted block") (c.os 7)
    plain ← decode_block s bytes
    ok (record { content = ok plain; close_error = none })

  -- The plain file is read and closed by the caller.
  unfoldable pub reader_of : List ℕ → Result BlockReader
  unfolding decoded
  reader_of bytes = elim s.aead [
    | none ↦ ok (record {
      content = elim (c.os 6) [ none ↦ ok bytes | some e ↦ err e ];
      close_error = c.os 7;
    })
    | some a ↦ decoded bytes
  ]

  unfoldable pub open_file : Text → Option (List ℕ) → Result BlockReader
  unfolding reader_of
  open_file h none = err (wrapped h block_not_found)
  open_file h (some bytes) = do os_check (codes "open block") (c.os 5); reader_of bytes

  -- `GetBlock`
  unfoldable pub get_block_file : Text → Text → Files → Result BlockReader
  unfolding open_file
  get_block_file tenant h fs = do
    check (c.canceled 0)
    path ← block_path s tenant h
    open_file h (lookup path fs)

  -- `HasBlock`
  unfoldable pub has_block_file : Text → Text → Files → Result Bool
  has_block_file tenant h fs = do
    check (c.canceled 0)
    path ← block_path s tenant h
    if is_some (lookup path fs)
        then ok true
        else do os_check (codes "stat block") (c.os 0); ok false

  -- A file that is not there is no error; a removal that fails leaves the file.
  unfoldable pub remove_at : ℕ → Text → Files → Done
  remove_at n path fs =
      if is_some (lookup path fs)
      then elim (c.os n) [
        | some e ↦ (some (wrapped (codes "delete block") e), fs)
        | none ↦ (none, delete path fs)
      ]
      else (none, fs)

  unfoldable pub and_next : Done → (Files → Done) → Done
  and_next (some e, fs) next = (some e, fs)
  and_next (none, fs) next = next fs

  -- `DeleteBlocks`; the calls of the n-th round have the number n + 8.
  unfoldable pub delete_from : ℕ → Text → List Text → Files → Done
  unfolding remove_at and_next
  delete_from n tenant [] fs = (none, fs)
  delete_from n tenant (h ∷ hs) fs =
      and_next
        (or_fail (do check (c.canceled (n + 8)); block_path s tenant h) (remove_at (n + 8)) fs)
        (delete_from (n + 1) tenant hs)

  unfoldable pub delete_blocks_file : Text → List Text → Files → Done
  unfolding delete_from
  delete_blocks_file tenant hs = delete_from 0 tenant hs

  -- The root directory is made, if it is missing.
  unfoldable pub health_check_file : Result (Unit {0})
  health_check_file = do
    check (c.canceled 0)
    os_check (codes "check filesystem backend root") (c.os 1)

  abbrev pub file_blocks : BlockStore Files
  file_blocks = record {
    put_block = put_block_file;
    get_block = get_block_file;
    has_block = has_block_file;
    delete_blocks = delete_blocks_file;
  }
