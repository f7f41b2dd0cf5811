-- ===== src/Object/Blocks.antt =====
-- `BlockStore` of internal/backend/backend.go: what the services use of a backend, and what they
-- rely on.
use chunk_gate.Prelude.{
  ℕ, ◌≡◌, Bool, true, false, Option, none, some, List, Text, Text_eq, ◌==◌, if◌then◌else◌,
}
use chunk_gate.Errors.{Error, Result, ok}

-- A block's `io.ReadCloser`: what reading it to the end gives, and what closing it gives.
pub record BlockReader : Type 0 where
  pub content : Result (List ℕ)
  pub close_error : Option Error

-- A backend whose state has the type B, each method on a tenant.
pub record BlockStore (B : Type 0) : Type 0 where
  pub put_block : Text → Text → List ℕ → B → Option Error × B
  pub get_block : Text → Text → B → Result BlockReader
  pub has_block : Text → Text → B → Result Bool
  pub delete_blocks : Text → List Text → B → Option Error × B

abbrev pub is_some : {A : Type 0} → Option A → Bool
is_some none = false
is_some (some a) = true

-- A backend that works for a tenant: it holds blocks by their hashes, of those that it takes, and no
-- call fails. Only a block that is not there is put.
pub record IsReliable {B : Type 0} (store : BlockStore B) (tenant : Text) (Takes : Text → Type 0)
    : Type 0 where
  pub block : B → Text → Option (List ℕ)
  pub put :
      (h : Text) (bytes : List ℕ) (b : B)
      → Takes h
      → block b h ≡ none
      → (b' : B) × (store.put_block tenant h bytes b ≡ (none, b'))
        × ((k : Text) → Takes k → block b' k ≡ (if h == k then some bytes else block b k))
  pub has : (h : Text) (b : B) → Takes h → store.has_block tenant h b ≡ ok (is_some (block b h))
  pub get :
      (h : Text) (b : B) (bytes : List ℕ)
      → Takes h
      → block b h ≡ some bytes
      → store.get_block tenant h b ≡ ok (record { content = ok bytes; close_error = none })
