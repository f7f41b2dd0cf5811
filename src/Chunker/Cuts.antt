-- ===== src/Chunker/Cuts.antt =====
-- The reference for the built-in engine: where a stream is cut, as a function of its bytes alone.
pub mod Layout
pub mod Sizes
use chunk_gate.Prelude.{
  ℕ, zero, suc, ◌+◌, ◌≤◌, ◌<◌, ◌≡◌, refl, sym, ap, ◌∙◌, ◌⊎◌, inl, inr, Bool, true, false, List, [],
  ◌∷◌, ◌++◌, map, length, concat, All, All-append, length-append, append_assoc, append-nil, arith,
  ltb, leb, if◌then◌else◌, Bool-cases,
}
use chunk_gate.Chunker.Options.{Splitter, IsValid}
use chunk_gate.Chunker.Builtin.{Chunk, Processor, new_processor, at_cut, push, chunk_of, reset}

-- What the end of the stream adds.
unfoldable pub last_chunk : Bool → List ℕ → ℕ → List Chunk
last_chunk true [] offset = []
last_chunk false [] offset = record { offset = 0; bytes = [] } ∷ []
last_chunk emitted (b ∷ bytes) offset = record { offset = offset; bytes = b ∷ bytes } ∷ []

abbrev pub remainder : Processor → List Chunk
remainder p = last_chunk p.emitted p.current p.offset

module _ (s : Splitter) where
  abbrev pub ends : Processor → Bool
  ends q = at_cut s (length q.current) q.hash

  -- The chunks that end inside the bytes, and the processor behind them.
  unfoldable pub cuts : Processor → List ℕ → List Chunk
  cuts p [] = []
  cuts p (b ∷ bytes) =
      let cut = chunk_of (push p b) ∷ cuts (reset (push p b)) bytes in
      let uncut = cuts (push p b) bytes in if ends (push p b) then cut else uncut

  unfoldable pub after : Processor → List ℕ → Processor
  after p [] = p
  after p (b ∷ bytes) =
      let cut = after (reset (push p b)) bytes in
      let uncut = after (push p b) bytes in if ends (push p b) then cut else uncut

  unfoldable pub chunks_from : Processor → List ℕ → List Chunk
  chunks_from p bytes = cuts p bytes ++ remainder (after p bytes)

  unfoldable pub chunks_of : List ℕ → List Chunk
  chunks_of bytes = chunks_from new_processor bytes

  pub cuts-append :
      (p : Processor) (xs ys : List ℕ) → cuts p (xs ++ ys) ≡ cuts p xs ++ cuts (after p xs) ys
  unfolding cuts after
  cuts-append p [] ys = refl
  cuts-append p (b ∷ xs) ys =
      ground (arith, cuts-append (push p b) xs ys, cuts-append (reset (push p b)) xs ys)

  pub after-append : (p : Processor) (xs ys : List ℕ) → after p (xs ++ ys) ≡ after (after p xs) ys
  unfolding after
  after-append p [] ys = refl
  after-append p (b ∷ xs) ys =
      ground (arith, after-append (push p b) xs ys, after-append (reset (push p b)) xs ys)

-- The bytes of a list of chunks.
unfoldable pub bytes_of : List Chunk → List ℕ
bytes_of [] = []
bytes_of (c ∷ cs) = c.bytes ++ bytes_of cs

-- Each chunk begins where the one before it ends.
abbrev pub Contiguous : ℕ → List Chunk → Type 0
Contiguous n [] = Unit {0}
Contiguous n (c ∷ cs) = (c.offset ≡ n) × Contiguous (n + length c.bytes) cs

-- No chunk is longer than the maximum, and none but the last shorter than the minimum.
abbrev pub Sized : ℕ → ℕ → List Chunk → Type 0
Sized lo hi [] = Unit {0}
Sized lo hi (c ∷ []) = length c.bytes ≤ hi
Sized lo hi (c ∷ d ∷ cs) = (lo ≤ length c.bytes) × (length c.bytes ≤ hi) × Sized lo hi (d ∷ cs)

-- The same of chunks that more may follow.
abbrev pub AllSized : ℕ → ℕ → List Chunk → Type 0
AllSized lo hi = All (λ c. (lo ≤ length c.bytes) × (length c.bytes ≤ hi))

pub bytes_of-append : (xs ys : List Chunk) → bytes_of (xs ++ ys) ≡ bytes_of xs ++ bytes_of ys
unfolding bytes_of
bytes_of-append [] ys = refl
bytes_of-append (x ∷ xs) ys = rw (bytes_of-append xs ys, append_assoc)

current-push : (p : Processor) (b : ℕ) → (push p b).current ≡ p.current ++ b ∷ []
unfolding push
current-push p b = refl

offset-push : (p : Processor) (b : ℕ) → (push p b).offset ≡ p.offset
unfolding push
offset-push p b = refl

bytes_of-last_chunk :
    (emitted : Bool) (bytes : List ℕ) (n : ℕ) → bytes_of (last_chunk emitted bytes n) ≡ bytes
unfolding last_chunk bytes_of
bytes_of-last_chunk true [] n = refl
bytes_of-last_chunk false [] n = refl
bytes_of-last_chunk true (b ∷ bytes) n = append-nil (b ∷ bytes)
bytes_of-last_chunk false (b ∷ bytes) n = append-nil (b ∷ bytes)

bytes_of-remainder : (p : Processor) → bytes_of (remainder p) ≡ p.current
bytes_of-remainder p = bytes_of-last_chunk p.emitted p.current p.offset

module _ (s : Splitter) where
  bytes_of-cuts :
      (p : Processor) (bytes : List ℕ)
      → bytes_of (cuts s p bytes) ++ (after s p bytes).current ≡ p.current ++ bytes
  unfolding cuts after bytes_of push
  bytes_of-cuts p [] = rw append-nil
  bytes_of-cuts p (b ∷ bytes) = ground (
    arith,
    bytes_of-cuts (push p b) bytes,
    bytes_of-cuts (reset (push p b)) bytes,
    append_assoc (p.current ++ b ∷ []) (bytes_of (cuts s (reset (push p b)) bytes))
        (after s (reset (push p b)) bytes).current,
    append_assoc p.current (b ∷ []) bytes,
  )

  -- The chunks of a stream, joined, are the stream.
  pub bytes_of-chunks_of : (bytes : List ℕ) → bytes_of (chunks_of s bytes) ≡ bytes
  unfolding chunks_of chunks_from
  bytes_of-chunks_of bytes =
      rw (bytes_of-append, bytes_of-remainder) (bytes_of-cuts new_processor bytes)
