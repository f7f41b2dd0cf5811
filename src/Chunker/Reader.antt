-- ===== src/Chunker/Reader.antt =====
-- Readers, and `readSmallPrefix` of internal/chunker/chunker.go.
use chunk_gate.Prelude.{
  ℕ, zero, suc, ◌≡◌, Bool, true, false, List, [], ◌∷◌, ◌++◌, length, take, drop, ltb, if◌then◌else◌,
  codes,
}
use chunk_gate.Errors.{Error, Context, wrapped}
use chunk_gate.Effects.{Exec, pure, raise, poll, ◌>>◌}

-- What one call of `Read` returns beside its bytes.
pub data ReadEnd : Type 0 where
  more eof : ReadEnd
  failed : Error → ReadEnd

pub record Read : Type 0 where
  pub bytes : List ℕ
  pub end : ReadEnd

-- A reader is the results of its calls of `Read`, in turn; after them it is at the end. The buffer
-- of the source has 32 KiB, which bounds the length of each result.
abbrev pub Reader : Type 0
Reader = List Read

-- `bytes.NewReader(data)` read through a buffer of `size` bytes, by rounds of fuel.
unfoldable pub pieces : ℕ → ℕ → List ℕ → Reader
pieces zero size bytes = []
pieces (suc fuel) size [] = []
pieces (suc fuel) size (b ∷ bytes) =
    record { bytes = take size (b ∷ bytes); end = more } ∷ pieces fuel size (drop size (b ∷ bytes))

abbrev pub buffer_size : ℕ
buffer_size = 32768

-- `io.MultiReader(bytes.NewReader(prefix), reader)`
unfoldable pub with_prefix : List ℕ → Reader → Reader
with_prefix prefix reader = pieces (length prefix) buffer_size prefix ++ reader

abbrev pub upto : ReadEnd → List ℕ → List ℕ → List ℕ
upto more bytes rest = bytes ++ rest
upto eof bytes rest = bytes
upto (failed e) bytes rest = bytes

-- The bytes of a reader up to its end.
unfoldable pub contents : Reader → List ℕ
contents [] = []
contents (r ∷ rs) = let rest = contents rs in upto r.end r.bytes rest

-- No call of the reader fails, and nothing comes after an end of file.
abbrev pub CleanEnd : ReadEnd → Reader → Type 0 → Type 0
CleanEnd more rest later = later
CleanEnd eof rest later = rest ≡ []
CleanEnd (failed e) rest later = ⊥

abbrev pub IsClean : Reader → Type 0
IsClean [] = Unit {0}
IsClean (r ∷ rs) = CleanEnd r.end rs (IsClean rs)

-- Whether the prefix exceeds the threshold, with what has been read and what has not.
pub record Prefix : Type 0 where
  pub prefix : List ℕ
  pub exceeded : Bool
  pub rest : Reader

-- What follows a `Read` that did not take the prefix over the threshold.
module _ {ℓ} {S : Type ℓ} (ctx : Context) where
  unfoldable pub after_read : ReadEnd → List ℕ → Reader → Exec S Prefix → Exec S Prefix
  after_read more prefix rest again = again
  after_read eof prefix rest again =
      pure (record { prefix = prefix; exceeded = false; rest = rest })
  after_read (failed e) prefix rest again = raise (wrapped (codes "read stream") e)

  unfoldable pub read_small_prefix : ℕ → List ℕ → Reader → Exec S Prefix
  read_small_prefix threshold prefix [] = do
    poll ctx
    pure (record { prefix = prefix; exceeded = false; rest = [] })
  read_small_prefix threshold prefix (r ∷ rs) =
      let again = read_small_prefix threshold (prefix ++ r.bytes) rs in
      do
        poll ctx
        if ltb threshold (length (prefix ++ r.bytes))
            then pure (record { prefix = prefix ++ r.bytes; exceeded = true; rest = rs })
            else after_read r.end (prefix ++ r.bytes) rs again
