-- ===== src/Backend/Tests.antt =====
-- The theorems on the file store, at small inputs.
use chunk_gate.Prelude.{ℕ, ◌≡◌, ◌≢◌, refl, subst, Option, none, some, List, [], ◌∷◌, Text, codes}
use chunk_gate.Prelude.Chars.{in_range, is_digit, is_safe}
use chunk_gate.Prelude.Runes.{safe_part, safe_runes, runes_from, expected_after}
use chunk_gate.Errors.{ok}
use chunk_gate.Object.Blocks.{IsReliable}
use chunk_gate.Backend.FileStore.{
  Files, Aead, FileStore, FileCalls, sanitize_path_part, relative_path, encode_block, decode_block,
  get_block_file, delete_blocks_file, file_blocks,
}
use chunk_gate.Backend.FileLaws.{
  Takes, IsQuiet, IsCipher, path_of, stored_form, file_blocks-IsReliable, decode_block-encode_block,
}
use chunk_gate.Backend.Isolation.{get_block-delete_blocks}

abbrev files : FileStore
files = record { root = codes "/data"; aead = none }

abbrev quiet_calls : FileCalls
quiet_calls = record {
  canceled = λ n. none;
  os = λ n. none;
  nonce = ok (1 ∷ 2 ∷ []);
  suffix = codes "00";
  partial = [];
}

quiet_calls-IsQuiet : IsQuiet quiet_calls
quiet_calls-IsQuiet = record { live = λ n. refl; works = λ n. refl }

file_blocks-IsReliable_example : IsReliable (file_blocks files quiet_calls) (codes "alice") Takes
file_blocks-IsReliable_example =
    file_blocks-IsReliable (codes "/data") quiet_calls quiet_calls-IsQuiet (codes "alice")

-- A stand-in for the cipher, which puts two bytes before the bytes.
abbrev two_less : List ℕ → Option (List ℕ)
two_less (a ∷ b ∷ bytes) = some bytes
two_less _ = none

abbrev cipher : Aead
cipher = record {
  nonce_size = 2;
  seal = λ nonce bytes. 1 ∷ 2 ∷ bytes;
  open_sealed = λ nonce sealed. two_less sealed;
}

cipher-IsCipher : IsCipher cipher
cipher-IsCipher = record { opens = λ nonce bytes e. refl }

only : (a : Aead) → some cipher ≡ some a → IsCipher a × (2 ≡ a.nonce_size)
only a e =
    let same : cipher ≡ a = cc in
    subst (λ b. IsCipher b × (2 ≡ b.nonce_size)) same (cipher-IsCipher, refl)

decode_block-encode_block_example :
    let s : FileStore = record { root = codes "/data"; aead = some cipher } in
    (encode_block s (ok (5 ∷ 6 ∷ [])) (7 ∷ 8 ∷ [])
      ≡ ok (stored_form (some cipher) (5 ∷ 6 ∷ []) (7 ∷ 8 ∷ [])))
    × (decode_block s (stored_form (some cipher) (5 ∷ 6 ∷ []) (7 ∷ 8 ∷ [])) ≡ ok (7 ∷ 8 ∷ []))
decode_block-encode_block_example =
    decode_block-encode_block (codes "/data") (some cipher) (5 ∷ 6 ∷ []) (7 ∷ 8 ∷ []) only

alice_bob : sanitize_path_part (codes "alice") ≢ sanitize_path_part (codes "bob")
unfolding sanitize_path_part safe_part safe_runes runes_from expected_after in_range is_digit
    is_safe
alice_bob e = cc

abbrev hash : Text
hash = codes "00112233445566778899aabbccddeeff00112233445566778899aabbccddeeff"

abbrev alice_files : Files
alice_files = (path_of files (codes "alice") hash, 1 ∷ []) ∷ []

get_block-delete_blocks_example :
    get_block_file files quiet_calls
      (codes "alice")
      hash
      (delete_blocks_file files quiet_calls (codes "bob") (hash ∷ []) alice_files).1
    ≡ get_block_file files quiet_calls (codes "alice") hash alice_files
get_block-delete_blocks_example =
    get_block-delete_blocks files quiet_calls (codes "alice") (codes "bob") alice_bob quiet_calls
      hash (hash ∷ []) alice_files

-- Two tenants whose blocks stand in the same files.
shared_path : relative_path (codes "a.b") hash ≡ relative_path (codes "a_b") hash
unfolding relative_path sanitize_path_part safe_part safe_runes runes_from expected_after in_range
    is_digit is_safe
shared_path = refl

-- A rune of two bytes is one `_`, and so is a byte that begins no rune.
one_for_a_rune : sanitize_path_part (98 ∷ 195 ∷ 188 ∷ 255 ∷ 128 ∷ []) ≡ codes "b___"
unfolding sanitize_path_part safe_part safe_runes runes_from expected_after in_range is_digit
    is_safe
one_for_a_rune = refl
