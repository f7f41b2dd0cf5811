-- ===== src/Metadata/Types.antt =====
-- The records of internal/metadata/store.go. A `time.Time` is a number, 0 for the zero time, and a
-- map that may be nil is an option.
use chunk_gate.Prelude.{ℕ, ◌++◌, ◌∷◌, Option, List, Text}
use chunk_gate.Prelude.Int.{ℤ}
use chunk_gate.Prelude.Map.{Map}

pub data ObjectState : Type 0 where
  pending committed deleted failed : ObjectState

pub record ChunkRef : Type 0 where
  pub hash : Text
  pub offset : ℕ
  pub size : ℕ
  pub backend_key : Text

pub record ObjectManifest : Type 0 where
  pub id : Text
  pub tenant : Text
  pub bucket : Text
  pub key : Text
  pub state : ObjectState
  pub size : ℕ
  pub etag : Text
  pub headers : Option (Map Text Text)
  pub chunks : List ChunkRef
  pub created_at : ℕ
  pub updated_at : ℕ

pub record BlockRef : Type 0 where
  pub hash : Text
  pub size : ℕ
  pub updated_at : ℕ

pub record MultipartPart : Type 0 where
  pub number : ℕ
  pub size : ℤ
  pub etag : Text
  pub path : Text
  pub created_at : ℕ

pub record MultipartSession : Type 0 where
  pub upload_id : Text
  pub tenant : Text
  pub bucket : Text
  pub key : Text
  pub headers : Option (Map Text Text)
  pub reserved_bytes : ℤ
  pub created_at : ℕ
  pub updated_at : ℕ
  pub parts : Option (Map ℕ MultipartPart)

-- `BlockRefCount` of internal/metadata/memory.go.
pub record BlockRefCount : Type 0 where
  pub size : ℕ
  pub ref_count : ℕ
  pub updated_at : ℕ

-- `MemoryStore` of internal/metadata/memory.go, under its mutex.
pub record MemoryStore : Type 0 where
  pub objects : Map Text ObjectManifest
  pub index : Map Text Text
  pub blocks : Map Text (Map Text BlockRefCount)
  pub multipart : Map Text (Map Text MultipartSession)

-- tenant + "\x00" + bucket + "\x00" + key
unfoldable pub object_key : Text → Text → Text → Text
object_key tenant bucket key = tenant ++ (0 ∷ bucket ++ (0 ∷ key))
