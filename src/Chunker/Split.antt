-- ===== src/Chunker/Split.antt =====
-- `Split` and `Stream` with either engine: the theorems that a caller relies on.
use chunk_gate.Prelude.{
  ℕ, ◌+◌, ◌<◌, ◌≡◌, ◌≢◌, refl, sym, subst, ◌∙◌, inl, inr, true, false, ◌&&◌, List, [], ◌∷◌, length,
  append-nil, arith, ltb, leb, Bool-cases, ◌^◌, ◌%◌,
}
use chunk_gate.Errors.{Result, ok, err, background}
use chunk_gate.Effects.{Exec, World, on_user, ◌>>◌}
use chunk_gate.Chunker.Options.{Splitter, IsValid, fastcdc, builtin}
use chunk_gate.Chunker.Reader.{Reader, contents, IsClean}
use chunk_gate.Chunker.Builtin.{Chunk, Emit}
use chunk_gate.Chunker.Stream.{
  FastCdc, finished, next_loop, started, stream_fastcdc, by_engine, collect, split,
}
use chunk_gate.Chunker.Cuts.{chunks_of, bytes_of, bytes_of-chunks_of, Contiguous, Sized}
use chunk_gate.Chunker.Cuts.Layout.{chunks_of-Contiguous}
use chunk_gate.Chunker.Cuts.Sizes.{chunks_of-Sized}
use chunk_gate.Chunker.Equivalence.{outcome, and_then, and_then_done, emit_all, stream_builtin_lem}
use chunk_gate.Chunker.Whole.{
  small_or, Emits, stream_lem, small_or_large, collect_all, split_of_outcome,
}

-- The chunks hold the bytes, in order and with the offsets at which they lie.
abbrev pub Covers : List ℕ → List Chunk → Type 0
Covers bytes cs = (bytes_of cs ≡ bytes) × Contiguous 0 cs

-- What FastCDC documents: on a reader that does not fail it cuts the bytes, in order, into chunks
-- that depend on the bytes alone.
pub record FastCdcLaws (engine : FastCdc) (s : Splitter) : Type 0 where
  pub chunks : List ℕ → List Chunk
  pub runs :
      (reader : Reader)
      → IsClean reader
      → engine (s.min_size % 2 ^ 32) (s.avg_size % 2 ^ 32) (s.max_size % 2 ^ 32) reader
        ≡ ok (chunks (contents reader), finished)
  pub covers : (bytes : List ℕ) → Covers bytes (chunks bytes)

-- A stream with no chunk is emitted as one empty chunk.
abbrev or_empty : List Chunk → List Chunk
or_empty [] = record { offset = 0; bytes = [] } ∷ []
or_empty (c ∷ cs) = c ∷ cs

or_empty-Covers : (bytes : List ℕ) (cs : List Chunk) → Covers bytes cs → Covers bytes (or_empty cs)
unfolding bytes_of
or_empty-Covers bytes [] h = (h.0, (refl, tt))
or_empty-Covers bytes (c ∷ cs) h = h

-- A callback's result, and what the run goes on with.
emitted_and {ℓ} :
    {S : Type ℓ} (m : Result (Unit {0}) × S) (k : S → Result (Unit {0}) × S) (f : Exec S (Unit {0}))
    (w : World S)
    → ((w' : World S) → outcome (f w') ≡ k w'.user)
    → outcome ((on_user (λ _. m) >> f) w) ≡ and_then m k
emitted_and (ok u, st) k f w h = h (record w { user = st })
emitted_and (err e, st) k f w h = refl

module _ {ℓ} {S : Type ℓ} (engine : FastCdc) (s : Splitter) (emit : Emit S) where
  next_loop_lem :
      (cs : List Chunk) (w : World S)
      → outcome (next_loop engine s background emit true cs finished w) ≡ emit_all emit cs w.user
  unfolding next_loop emit_all
  next_loop_lem [] w = refl
  next_loop_lem (c ∷ cs) w =
      emitted_and (emit c w.user) (emit_all emit cs)
        (next_loop engine s background emit true cs finished)
        (record { polls = w.polls + 1; user = w.user }) (next_loop_lem cs)

  first_lem :
      (cs : List Chunk) (w : World S)
      → outcome (next_loop engine s background emit false cs finished w)
        ≡ emit_all emit (or_empty cs) w.user
  unfolding next_loop emit_all
  first_lem [] w = sym (and_then_done (emit _ w.user))
  first_lem (c ∷ cs) w = next_loop_lem (c ∷ cs) w

  fastcdc-Emits :
      (laws : FastCdcLaws engine s)
      → s.engine ≡ fastcdc
      → Emits engine s emit (λ bytes. or_empty (laws.chunks bytes))
  unfolding by_engine stream_fastcdc started
  fastcdc-Emits laws e reader w c =
      subst
        (λ k.
          outcome (by_engine engine s background emit k reader w)
          ≡ emit_all emit (or_empty (laws.chunks (contents reader))) w.user)
        (sym e) (rw (laws.runs reader c) (first_lem (laws.chunks (contents reader)) w))

  pub builtin-Emits : s.engine ≡ builtin → Emits engine s emit (chunks_of s)
  unfolding by_engine
  builtin-Emits e reader w c =
      subst
        (λ k.
          outcome (by_engine engine s background emit k reader w)
          ≡ emit_all emit (chunks_of s (contents reader)) w.user)
        (sym e) (stream_builtin_lem s emit reader w c)

-- A stream up to the threshold is one chunk, of any size up to it.
pub small_or-Covers :
    (threshold : ℕ) (bytes : List ℕ) (cs : List Chunk)
    → Covers bytes cs
    → Covers bytes (small_or threshold bytes cs)
unfolding small_or bytes_of
small_or-Covers threshold bytes cs h =
    elim (Bool-cases (ltb 0 threshold && leb (length bytes) threshold)) [
      | inl small ↦ rw small (append-nil bytes, (refl, tt))
      | inr large ↦ rw large h
    ]

small_or-nonempty :
    (threshold : ℕ) (bytes : List ℕ) (cs : List Chunk) → small_or threshold bytes (or_empty cs) ≢ []
unfolding small_or
small_or-nonempty threshold bytes [] = ground arith
small_or-nonempty threshold bytes (c ∷ cs) = ground arith

module _ (engine : FastCdc) (s : Splitter) where
  split_lem :
      (reader : Reader) (spec : List ℕ → List Chunk)
      → Emits engine s collect spec
      → IsClean reader
      → split engine s background reader
        ≡ ok (small_or s.small_file_threshold (contents reader) (spec (contents reader)))
  unfolding split
  split_lem reader spec h c =
      split_of_outcome _ _ (stream_lem engine s collect spec reader _ h c ∙ collect_all _ [])

module _ (engine : FastCdc) (s : Splitter) (reader : Reader) where
  -- With the built-in engine, `Split` of a reader that does not fail returns chunks that hold its
  -- bytes in order at their offsets. Where the stream is above the small-file threshold, no chunk
  -- is above the maximum and only the last may be below the minimum. The splitter is one that
  -- `New` returns, and the context is not cancelled.
  pub split-builtin :
      IsValid s
      → s.engine ≡ builtin
      → IsClean reader
      → (cs : List Chunk) × (split engine s background reader ≡ ok cs)
        × Covers (contents reader) cs
        × (s.small_file_threshold < length (contents reader) → Sized s.min_size s.max_size cs)
  split-builtin v e c =
      let bytes : List ℕ = contents reader in
      (
        small_or s.small_file_threshold bytes (chunks_of s bytes),
        split_lem engine s reader (chunks_of s) (builtin-Emits engine s collect e) c,
        small_or-Covers s.small_file_threshold bytes _
            (bytes_of-chunks_of s bytes, chunks_of-Contiguous s bytes),
        λ large.
            rw (small_or_large s.small_file_threshold bytes (chunks_of s bytes) (inr large))
              (chunks_of-Sized s bytes v),
      )

  -- With FastCDC likewise, as far as FastCDC keeps what it documents.
  pub split-fastcdc :
      FastCdcLaws engine s
      → s.engine ≡ fastcdc
      → IsClean reader
      → (cs : List Chunk) × (split engine s background reader ≡ ok cs)
        × Covers (contents reader) cs
        × (cs ≢ [])
  split-fastcdc laws e c =
      let bytes : List ℕ = contents reader in
      let cs : List Chunk = or_empty (laws.chunks bytes) in
      (
        small_or s.small_file_threshold bytes cs,
        split_lem engine s reader (λ b. or_empty (laws.chunks b))
            (fastcdc-Emits engine s collect laws e) c,
        small_or-Covers s.small_file_threshold bytes cs
            (or_empty-Covers bytes _ (laws.covers bytes)),
        small_or-nonempty s.small_file_threshold bytes (laws.chunks bytes),
      )

  -- With the built-in engine, the lengths of the reads do not matter: two readers with the same
  -- bytes that do not fail are split alike.
  pub split-reads :
      (reader' : Reader)
      → s.engine ≡ builtin
      → IsClean reader
      → IsClean reader'
      → contents reader ≡ contents reader'
      → split engine s background reader ≡ split engine s background reader'
  split-reads reader' e c c' same =
      split_lem engine s reader (chunks_of s) (builtin-Emits engine s collect e) c
      ∙ rw same
          (sym (split_lem engine s reader' (chunks_of s) (builtin-Emits engine s collect e) c'))
