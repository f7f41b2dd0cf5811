-- ===== src/Chunker/Stream.antt =====
-- `Stream`, `Split` and `streamFastCDC` of internal/chunker/chunker.go.
use chunk_gate.Prelude.{
  ℕ, ◌%◌, ◌^◌, Bool, true, false, List, [], ◌∷◌, ◌++◌, ltb, if◌then◌else◌, codes,
}
use chunk_gate.Errors.{Error, Result, ok, err, Context, wrapped}
use chunk_gate.Effects.{Exec, World, pure, raise, on_user, poll, ◌>>=◌, ◌>>◌}
use chunk_gate.Chunker.Options.{Splitter, Engine, fastcdc, builtin}
use chunk_gate.Chunker.Reader.{Reader, Prefix, read_small_prefix, with_prefix}
use chunk_gate.Chunker.Builtin.{Chunk, Emit, stream_builtin}

-- The third-party FastCDC engine: with the three sizes (as `uint32`) and a reader it is refused,
-- or returns the results of its calls of `Next` up to the first that has no chunk.
pub data Ending : Type 0 where
  finished : Ending
  broken : Error → Ending

abbrev pub FastCdc : Type 0
FastCdc = ℕ → ℕ → ℕ → Reader → Result (List Chunk × Ending)

module _ {ℓ} {S : Type ℓ} (engine : FastCdc) (s : Splitter) (ctx : Context) (emit : Emit S) where
  -- The chunks that `Next` still returns, and what comes after them.
  unfoldable pub next_loop : Bool → List Chunk → Ending → Exec S (Unit {0})
  next_loop true [] finished = do poll ctx; pure tt
  next_loop false [] finished = do poll ctx; on_user (emit (record { offset = 0; bytes = [] }))
  next_loop emitted [] (broken e) = do poll ctx; raise (wrapped (codes "read fastcdc chunk") e)
  next_loop emitted (c ∷ cs) ending = do poll ctx; on_user (emit c); next_loop true cs ending

  unfoldable pub started : Result (List Chunk × Ending) → Exec S (Unit {0})
  started (err e) = raise (wrapped (codes "create fastcdc chunker") e)
  started (ok (cs, ending)) = next_loop false cs ending

  unfoldable pub stream_fastcdc : Reader → Exec S (Unit {0})
  stream_fastcdc reader =
      started (engine (s.min_size % 2 ^ 32) (s.avg_size % 2 ^ 32) (s.max_size % 2 ^ 32) reader)

  unfoldable pub read_prefix : Reader → Exec S Prefix
  read_prefix reader =
      if ltb 0 s.small_file_threshold
      then read_small_prefix ctx s.small_file_threshold [] reader
      else pure (record { prefix = []; exceeded = true; rest = reader })

  unfoldable pub by_engine : Engine → Reader → Exec S (Unit {0})
  by_engine builtin reader = stream_builtin s ctx emit reader
  by_engine fastcdc reader = stream_fastcdc reader

  -- The callback is never nil here.
  unfoldable pub stream : Reader → Exec S (Unit {0})
  stream reader = do
    p ← read_prefix reader
    if p.exceeded
        then by_engine s.engine (with_prefix p.prefix p.rest)
        else on_user (emit (record { offset = 0; bytes = p.prefix }))

-- `Split` collects the chunks; an error drops them.
abbrev pub collect : Emit (List Chunk)
collect c cs = (ok tt, cs ++ c ∷ [])

unfoldable pub collected : Result (Unit {0}) × World (List Chunk) → Result (List Chunk)
collected (ok u, w) = ok w.user
collected (err e, w) = err e

unfoldable pub split : FastCdc → Splitter → Context → Reader → Result (List Chunk)
unfolding collected
split engine s ctx reader =
    collected (stream engine s ctx collect reader (record { polls = 0; user = [] }))
