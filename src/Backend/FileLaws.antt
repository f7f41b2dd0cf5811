-- ===== src/Backend/FileLaws.antt =====
-- What a plain `FileStore` of internal/backend/fs.go promises, and what encryption keeps.
use chunk_gate.Prelude.{
  ℕ, ◌+◌, ◌≡◌, refl, sym, ap, subst, ◌∙◌, inl, inr, Bool, true, false, Option, none, some, List, [],
  ◌∷◌, ◌++◌, length, take, drop, length-append, length-take, ltb, if◌then◌else◌, Text, Text_eq,
  ◌==◌, text_eq_iff, codes, arith, Bool-cases, suffix, differ,
}
use chunk_gate.Prelude.Tests.{text_eq}
use chunk_gate.Prelude.Chars.{has_prefix}
use chunk_gate.Prelude.Map.{lookup, insert, delete, lookup-insert, lookup-delete, eq_self}
use chunk_gate.Errors.{ok}
use chunk_gate.Object.Blocks.{is_some, IsReliable}
use chunk_gate.Backend.FileStore.{
  Files, Aead, FileStore, FileCalls, valid_block_hash, sanitize_path_part, relative_path, escapes,
  block_path, encode_block, decode_block, commit_tmp, write_tmp, put_new, put_at, put_block_file,
  get_block_file, has_block_file, file_blocks, reader_of, open_file, seal_with, unseal, opened,
  magic,
}

abbrev pub Takes : Text → Type 0
Takes h = valid_block_hash h ≡ true

-- No call fails.
pub record IsQuiet (c : FileCalls) : Type 0 where
  pub live : (n : ℕ) → c.canceled n ≡ none
  pub works : (n : ℕ) → c.os n ≡ none

-- The path of a block.
abbrev pub path_of : FileStore → Text → Text → Text
path_of s t h = s.root ++ (b'/' ∷ relative_path t h)

pub hash_length : (h : Text) → Takes h → length h ≡ 64
unfolding valid_block_hash
hash_length h e = ground arith

pub block_path_lem : (s : FileStore) (t h : Text) → Takes h → block_path s t h ≡ ok (path_of s t h)
unfolding block_path escapes relative_path text_eq has_prefix
block_path_lem s t h e = rw e refl

path_of-injective :
    (s : FileStore) (t h k : Text) → Takes h → Takes k → path_of s t h ≡ path_of s t k → h ≡ k
unfolding relative_path
path_of-injective s t h k eh ek e =
    let below : codes "tenants/"
          ++ (sanitize_path_part t ++ (codes "/blocks/" ++ (take 2 h ++ (b'/' ∷ h))))
        ≡ codes "tenants/"
          ++ (sanitize_path_part t ++ (codes "/blocks/" ++ (take 2 k ++ (b'/' ∷ k)))) =
      tail_of (suffix s.root s.root _ _ refl e) in
    let named : codes "/blocks/" ++ (take 2 h ++ (b'/' ∷ h))
        ≡ codes "/blocks/" ++ (take 2 k ++ (b'/' ∷ k)) =
      suffix (sanitize_path_part t) (sanitize_path_part t) _ _ refl
        (suffix (codes "tenants/") (codes "tenants/") _ _ refl below) in
    tail_of (
      suffix (take 2 h) (take 2 k) _ _
        (omega (arith, length-take 2 h, length-take 2 k, hash_length h eh, hash_length k ek))
        (suffix (codes "/blocks/") (codes "/blocks/") _ _ refl named))
  where
    tail_of : {x : ℕ} {xs ys : List ℕ} → x ∷ xs ≡ x ∷ ys → xs ≡ ys
    tail_of e = cc

pub length-path_of :
    (s : FileStore) (t h : Text)
    → Takes h
    → length (path_of s t h) ≡ length s.root + length (sanitize_path_part t) + 84
unfolding relative_path
length-path_of s t h e = omega (
  arith,
  hash_length h e,
  length-append s.root (b'/' ∷ relative_path t h),
  length-append (sanitize_path_part t) (codes "/blocks/" ++ (take 2 h ++ (b'/' ∷ h))),
  length-append (take 2 h) (b'/' ∷ h),
  length-take 2 h,
)

abbrev tmp_of : FileStore → FileCalls → Text → Text → Text
tmp_of s c t h = path_of s t h ++ (b'.' ∷ c.suffix ++ codes ".tmp")

-- A temporary file is not the file of a block.
tmp_differs :
    (s : FileStore) (c : FileCalls) (t h k : Text)
    → Takes h
    → Takes k
    → (tmp_of s c t h == path_of s t k) ≡ false
tmp_differs s c t h k eh ek = differ (tmp_of s c t h) (path_of s t k) λ e.
    let same : length (tmp_of s c t h) ≡ length (path_of s t k) = ap length e in
    omega (
      arith,
      same,
      length-path_of s t h eh,
      length-path_of s t k ek,
      length-append (path_of s t h) (b'.' ∷ c.suffix ++ codes ".tmp"),
    )

paths_alike :
    (s : FileStore) (t h k : Text) → Takes h → Takes k → (path_of s t h == path_of s t k) ≡ (h == k)
paths_alike s t h k eh ek = elim (Bool-cases (text_eq h k)) [
  | inl e ↦ rw ((text_eq_iff h k).0 e) (eq_self (path_of s t k) ∙ sym (eq_self k))
  | inr e ↦
      differ (path_of s t h) (path_of s t k)
        (λ same. absurd (apart e (path_of-injective s t h k eh ek same)))
      ∙ sym e
]
  where
    apart : text_eq h k ≡ false → h ≡ k → ⊥
    apart e same = ground (arith, text_eq_iff h k)

module _ (root : Text) (c : FileCalls) (quiet : IsQuiet c) (t : Text) where
  abbrev plain : FileStore
  plain = record { root = root; aead = none }

  -- What a put of a missing block leaves.
  abbrev put_files : Text → List ℕ → Files → Files
  put_files h bytes fs =
      insert (path_of plain t h) bytes
        (delete (tmp_of plain c t h) (insert (tmp_of plain c t h) bytes fs))

  put_missing :
      (h : Text) (bytes : List ℕ) (fs : Files)
      → Takes h
      → lookup (path_of plain t h) fs ≡ none
      → put_block_file plain c t h bytes fs ≡ (none, put_files h bytes fs)
  unfolding put_block_file put_at put_new write_tmp commit_tmp encode_block
  put_missing h bytes fs e missing =
      rw
        (
          quiet.live 0,
          block_path_lem plain t h e,
          missing,
          quiet.works 0,
          quiet.works 1,
          write_tmp,
          quiet.works 2,
          commit_tmp,
          lookup-insert (tmp_of plain c t h) (path_of plain t h) bytes fs,
          tmp_differs plain c t h h e e,
          missing,
          quiet.works 4,
        )
        refl

  files_after_put :
      (h k : Text) (bytes : List ℕ) (fs : Files)
      → Takes h
      → Takes k
      → lookup (path_of plain t k) (put_files h bytes fs)
        ≡ (if h == k then some bytes else lookup (path_of plain t k) fs)
  files_after_put h k bytes fs eh ek =
      lookup-insert (path_of plain t h) (path_of plain t k) bytes _
      ∙ rw
          (
            paths_alike plain t h k eh ek,
            lookup-delete (tmp_of plain c t h) (path_of plain t k),
            lookup-insert (tmp_of plain c t h) (path_of plain t k) bytes fs,
            tmp_differs plain c t h k eh ek,
          )
          refl

  has_lem :
      (h : Text) (fs : Files)
      → Takes h
      → has_block_file plain c t h fs ≡ ok (is_some (lookup (path_of plain t h) fs))
  unfolding has_block_file
  has_lem h fs e =
      rw (quiet.live 0, block_path_lem plain t h e, quiet.works 0)
        (shown (is_some (lookup (path_of plain t h) fs)))
    where
      shown : (b : Bool) → (if b then ok true else ok false) ≡ ok b
      shown true = refl
      shown false = refl

  get_lem :
      (h : Text) (fs : Files) (bytes : List ℕ)
      → Takes h
      → lookup (path_of plain t h) fs ≡ some bytes
      → get_block_file plain c t h fs ≡ ok (record { content = ok bytes; close_error = none })
  unfolding get_block_file open_file reader_of
  get_lem h fs bytes e there =
      rw
        (
          quiet.live 0,
          block_path_lem plain t h e,
          there,
          quiet.works 5,
          quiet.works 6,
          quiet.works 7,
        )
        refl

  -- Where no call fails, a plain file store keeps the promises of a backend to each tenant, for hashes
  -- of 64 lower-case hex digits: a missing block that is put is there with its bytes, and no other
  -- block is changed, though temporary files come and go beside them.
  pub file_blocks-IsReliable : IsReliable (file_blocks plain c) t Takes
  file_blocks-IsReliable = record {
    block = λ fs h. lookup (path_of plain t h) fs;
    put = λ h bytes fs e missing. (
      put_files h bytes fs,
      put_missing h bytes fs e missing,
      λ k ek. files_after_put h k bytes fs e ek,
    );
    has = λ h fs e. has_lem h fs e;
    get = λ h fs bytes e there. get_lem h fs bytes e there;
  }

-- What an authenticated cipher documents, for nonces of its size.
pub record IsCipher (a : Aead) : Type 0 where
  pub opens :
      (nonce bytes : List ℕ)
      → length nonce ≡ a.nonce_size
      → a.open_sealed nonce (a.seal nonce bytes) ≡ some bytes

take-append_exact : (xs ys : List ℕ) → take (length xs) (xs ++ ys) ≡ xs
take-append_exact [] ys = refl
take-append_exact (x ∷ xs) ys = ap (λ l. x ∷ l) (take-append_exact xs ys)

drop-append_exact : (xs ys : List ℕ) → drop (length xs) (xs ++ ys) ≡ ys
drop-append_exact [] ys = refl
drop-append_exact (x ∷ xs) ys = drop-append_exact xs ys

unsealed :
    (a : Aead) (nonce bytes stored : List ℕ)
    → IsCipher a
    → length nonce ≡ a.nonce_size
    → ltb (length stored) (8 + a.nonce_size) ≡ false
    → (take 8 stored == magic) ≡ true
    → take a.nonce_size (drop 8 stored) ≡ nonce
    → drop (8 + a.nonce_size) stored ≡ a.seal nonce bytes
    → unseal a stored ≡ ok bytes
unfolding unseal opened
unsealed a nonce bytes stored cipher size long headed front back =
    rw (long, headed, front, back, cipher.opens nonce bytes size) refl

unseal-sealed :
    (a : Aead) (nonce bytes : List ℕ)
    → IsCipher a
    → length nonce ≡ a.nonce_size
    → unseal a (magic ++ (nonce ++ a.seal nonce bytes)) ≡ ok bytes
unfolding text_eq
unseal-sealed a nonce bytes cipher size =
    let body : List ℕ = nonce ++ a.seal nonce bytes in
    let header : length (magic ++ nonce) ≡ 8 + a.nonce_size = omega (arith, size) in
    unsealed a nonce bytes (magic ++ body) cipher size
      (ground (arith, length-append nonce (a.seal nonce bytes))) refl
      (ap (λ n. take n body) (sym size) ∙ take-append_exact nonce (a.seal nonce bytes))
      (subst (λ n. drop n (magic ++ body) ≡ a.seal nonce bytes) header
        (drop-append_exact (magic ++ nonce) (a.seal nonce bytes)))

-- The bytes of a block's file.
unfoldable pub stored_form : Option Aead → List ℕ → List ℕ → List ℕ
stored_form none nonce bytes = bytes
stored_form (some a) nonce bytes = magic ++ (nonce ++ a.seal nonce bytes)

-- Without a cipher a block is stored as it is, whatever the nonce; with one, it is stored as the magic
-- bytes, the nonce and what the cipher seals. In both cases what is stored is read back as it was, if
-- the cipher opens what it sealed and the nonce has its size.
pub decode_block-encode_block :
    (root : Text) (aead : Option Aead) (nonce bytes : List ℕ)
    → ((a : Aead) → aead ≡ some a → IsCipher a × (length nonce ≡ a.nonce_size))
    → let s : FileStore = record { root = root; aead = aead } in
      (encode_block s (ok nonce) bytes ≡ ok (stored_form aead nonce bytes))
      × (decode_block s (stored_form aead nonce bytes) ≡ ok bytes)
unfolding encode_block decode_block seal_with unseal opened stored_form
decode_block-encode_block root none nonce bytes h = (refl, refl)
decode_block-encode_block root (some a) nonce bytes h =
    let (cipher, size) = h a refl in (refl, unseal-sealed a nonce bytes cipher size)
