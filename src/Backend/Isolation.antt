-- ===== src/Backend/Isolation.antt =====
-- Tenants in the file store of internal/backend/fs.go.
use chunk_gate.Prelude.{
  ℕ, ◌+◌, ◌≡◌, ◌≢◌, refl, sym, ap, ◌∙◌, inl, inr, false, none, some, List, [], ◌∷◌, ◌++◌, length,
  take, Text, Text_eq, ◌==◌, codes, arith, Bool-cases, Option-cases, prefix, suffix, differ,
}
use chunk_gate.Prelude.Map.{lookup, lookup-delete}
use chunk_gate.Errors.{◌>>◌, check}
use chunk_gate.Object.Blocks.{is_some}
use chunk_gate.Backend.FileStore.{
  Files, Done, FileStore, FileCalls, valid_block_hash, sanitize_path_part, relative_path,
  block_path, get_block_file, or_fail, delete_blocks_file, remove_at, delete_from, and_next,
}
use chunk_gate.Backend.FileLaws.{Takes, path_of, block_path_lem, length-path_of}

-- Paths of tenants whose sanitized names differ.
paths_apart :
    (s : FileStore) (t t' h k : Text)
    → sanitize_path_part t ≢ sanitize_path_part t'
    → Takes h
    → Takes k
    → (path_of s t' k == path_of s t h) ≡ false
unfolding relative_path
paths_apart s t t' h k apart eh ek = differ (path_of s t' k) (path_of s t h) λ e.
    let same : length (path_of s t' k) ≡ length (path_of s t h) = ap length e in
    let below : codes "/tenants/"
          ++ (sanitize_path_part t' ++ (codes "/blocks/" ++ (take 2 k ++ (b'/' ∷ k))))
        ≡ codes "/tenants/"
          ++ (sanitize_path_part t ++ (codes "/blocks/" ++ (take 2 h ++ (b'/' ∷ h)))) =
      suffix s.root s.root _ _ refl e in
    let alike : sanitize_path_part t' ≡ sanitize_path_part t =
      prefix _ _ _ _ (omega (arith, same, length-path_of s t' k ek, length-path_of s t h eh))
        (suffix (codes "/tenants/") (codes "/tenants/") _ _ refl below) in
    apart (sym alike)

module _ (s : FileStore) (c : FileCalls) (t t' : Text)
    (apart : sanitize_path_part t ≢ sanitize_path_part t') where
  abbrev Keeps : Text → Done → Files → Type 0
  Keeps h d fs = lookup (path_of s t h) d.1 ≡ lookup (path_of s t h) fs

  remove-Keeps :
      (h k : Text) (n : ℕ) (fs : Files)
      → Takes h
      → Takes k
      → Keeps h (remove_at s c n (path_of s t' k) fs) fs
  unfolding remove_at
  remove-Keeps h k n fs eh ek = elim (Bool-cases (is_some (lookup (path_of s t' k) fs))) [
    | inr e ↦ rw e refl
    | inl e ↦ rw e (elim (Option-cases (c.os n)) [
      | inl f ↦
          rw
            (
              f,
              lookup-delete (path_of s t' k) (path_of s t h) fs,
              paths_apart s t t' h k apart eh ek,
            )
            refl
      | inr (x, f) ↦ rw f refl
    ])
  ]

  round-Keeps :
      (h k : Text) (n : ℕ) (fs : Files)
      → Takes h
      → Keeps h (or_fail (do check (c.canceled n); block_path s t' k) (remove_at s c n) fs) fs
  unfolding block_path
  round-Keeps h k n fs eh = elim (Option-cases (c.canceled n)) [
    | inr (x, f) ↦ rw f refl
    | inl f ↦ elim (Bool-cases (valid_block_hash k)) [
      | inl e ↦ rw (f, block_path_lem s t' k e) (remove-Keeps h k n fs eh e)
      | inr e ↦ rw (f, e) refl
    ]
  ]

  and_then-Keeps :
      (h : Text) (d : Done) (next : Files → Done) (fs : Files)
      → ((gs : Files) → Keeps h (next gs) gs)
      → Keeps h d fs
      → Keeps h (and_next s c d next) fs
  unfolding and_next
  and_then-Keeps h (some x, gs) next fs keeps e = e
  and_then-Keeps h (none, gs) next fs keeps e = keeps gs ∙ e

  delete_from-Keeps :
      (h : Text) (hs : List Text) (n : ℕ) (fs : Files)
      → Takes h
      → Keeps h (delete_from s c n t' hs fs) fs
  unfolding delete_from
  delete_from-Keeps h [] n fs eh = refl
  delete_from-Keeps h (k ∷ hs) n fs eh =
      and_then-Keeps h _ (delete_from s c (n + 1) t' hs) fs
        (λ gs. delete_from-Keeps h hs (n + 1) gs eh) (round-Keeps h k (n + 8) fs eh)

  get_alike :
      (d : FileCalls) (h : Text) (gs fs : Files)
      → (Takes h → lookup (path_of s t h) gs ≡ lookup (path_of s t h) fs)
      → get_block_file s d t h gs ≡ get_block_file s d t h fs
  unfolding get_block_file block_path
  get_alike d h gs fs same = elim (Bool-cases (valid_block_hash h)) [
    | inl e ↦ rw (block_path_lem s t h e, same e) refl
    | inr e ↦ rw e refl
  ]

  -- Deleting blocks of one tenant, whatever fails, leaves what `GetBlock` answers for another whose
  -- sanitized name differs: the answers before and after are the same.
  pub get_block-delete_blocks :
      (d : FileCalls) (h : Text) (hs : List Text) (fs : Files)
      → get_block_file s d t h (delete_blocks_file s c t' hs fs).1 ≡ get_block_file s d t h fs
  unfolding delete_blocks_file
  get_block-delete_blocks d h hs fs =
      get_alike d h (delete_blocks_file s c t' hs fs).1 fs λ e. delete_from-Keeps h hs 0 fs e
