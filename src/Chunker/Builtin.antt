-- ===== src/Chunker/Builtin.antt =====
-- The built-in engine of internal/chunker/chunker.go: `streamBuiltin` and `streamProcessor`.
use Prim.Native.Nat.{bit_and}
use chunk_gate.Prelude.{
  ℕ, ◌+◌, ◌*◌, ◌%◌, Bool, true, false, ◌||◌, List, [], ◌∷◌, ◌++◌, length, ltb, leb, nat_eq,
  if◌then◌else◌, codes,
}
use chunk_gate.Errors.{Result, Context, wrapped}
use chunk_gate.Effects.{Exec, pure, raise, on_user, poll, ◌>>=◌, ◌>>◌}
use chunk_gate.Chunker.Options.{Splitter, u64, gear}
use chunk_gate.Chunker.Reader.{Reader, ReadEnd, more, eof, failed}

-- The field `Data` of the source.
pub record Chunk : Type 0 where
  pub offset : ℕ
  pub bytes : List ℕ

-- The callback of `Stream`, on a state of the caller's.
abbrev pub Emit {ℓ} : Type ℓ → Type ℓ
Emit S = Chunk → S → Result (Unit {0}) × S

pub record Processor : Type 0 where
  pub offset : ℕ
  pub current : List ℕ
  pub hash : ℕ
  pub emitted : Bool

abbrev pub new_processor : Processor
new_processor = record { offset = 0; current = []; hash = 0; emitted = false }

-- The rolling hash after one more byte, on `uint64`.
unfoldable pub roll : ℕ → ℕ → ℕ
roll hash b = (hash * 2 + gear b) % u64

-- Whether the chunk ends after the byte that took it to `size` bytes.
unfoldable pub at_cut : Splitter → ℕ → ℕ → Bool
at_cut s size hash =
    if ltb size s.min_size then false else leb s.max_size size || nat_eq (bit_and hash s.mask) 0

-- `p.current = append(p.current, b)` and the new hash.
unfoldable pub push : Processor → ℕ → Processor
push p b = record p { current = p.current ++ b ∷ []; hash = roll p.hash b }

abbrev pub chunk_of : Processor → Chunk
chunk_of p = record { offset = p.offset; bytes = p.current }

-- The processor after it has emitted its chunk.
abbrev pub reset : Processor → Processor
reset p = record { offset = p.offset + length p.current; current = []; hash = 0; emitted = true }

module _ {ℓ} {S : Type ℓ} (s : Splitter) (ctx : Context) (emit : Emit S) where
  unfoldable pub emit_current : Processor → Exec S Processor
  emit_current p = do poll ctx; on_user (emit (chunk_of p)); pure (reset p)

  unfoldable pub write : Processor → List ℕ → Exec S Processor
  write p [] = pure p
  write p (b ∷ bytes) = do
    poll ctx
    q ←
        if at_cut s (length (push p b).current) (push p b).hash
        then emit_current (push p b)
        else pure (push p b)
    write q bytes

  unfoldable pub flush_rest : Bool → List ℕ → Processor → Exec S (Unit {0})
  flush_rest true [] p = pure tt
  flush_rest false [] p = on_user (emit (record { offset = 0; bytes = [] }))
  flush_rest emitted (b ∷ bytes) p = do emit_current p; pure tt

  unfoldable pub flush : Processor → Exec S (Unit {0})
  flush p = do poll ctx; flush_rest p.emitted p.current p

  -- What follows the bytes of one `Read`.
  unfoldable pub after_read : ReadEnd → Processor → Exec S (Unit {0}) → Exec S (Unit {0})
  after_read more p again = again
  after_read eof p again = flush p
  after_read (failed e) p again = raise (wrapped (codes "read stream") e)

  unfoldable pub read_loop : Processor → Reader → Exec S (Unit {0})
  unfolding after_read
  read_loop p [] = do poll ctx; flush p
  read_loop p (r ∷ rs) = do poll ctx; q ← write p r.bytes; after_read r.end q (read_loop q rs)

  unfoldable pub stream_builtin : Reader → Exec S (Unit {0})
  unfolding read_loop
  stream_builtin reader = read_loop new_processor reader
