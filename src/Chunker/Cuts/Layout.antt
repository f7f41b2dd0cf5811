-- ===== src/Chunker/Cuts/Layout.antt =====
-- The chunks of a stream lie one behind the other.
use chunk_gate.Prelude.{
  ℕ, ◌+◌, ◌≡◌, refl, sym, subst, inl, inr, Bool, true, false, List, [], ◌∷◌, ◌++◌, length,
  length-append, arith, Bool-cases,
}
use chunk_gate.Chunker.Options.{Splitter}
use chunk_gate.Chunker.Builtin.{Chunk, Processor, new_processor, push, reset}
use chunk_gate.Chunker.Cuts.{
  ends, cuts, after, last_chunk, remainder, chunks_from, chunks_of, bytes_of, Contiguous,
}

pub Contiguous-append :
    (n : ℕ) (xs ys : List Chunk)
    → Contiguous n xs
    → Contiguous (n + length (bytes_of xs)) ys
    → Contiguous n (xs ++ ys)
unfolding bytes_of
Contiguous-append n [] ys cx cy = subst (λ m. Contiguous m ys) (omega arith) cy
Contiguous-append n (x ∷ xs) ys cx cy = (
  cx.0,
  Contiguous-append (n + length x.bytes) xs ys cx.1 (subst (λ m. Contiguous m ys) ends_at cy),
)
  where
    ends_at : n + length (x.bytes ++ bytes_of xs) ≡ n + length x.bytes + length (bytes_of xs)
    ends_at = omega (arith, length-append x.bytes (bytes_of xs))

-- Until it has emitted, the processor is at offset 0.
abbrev FromZero : Processor → Type 0
FromZero p = p.emitted ≡ false → p.offset ≡ 0

Contiguous-last_chunk :
    (emitted : Bool) (bytes : List ℕ) (n : ℕ)
    → (emitted ≡ false → n ≡ 0)
    → Contiguous n (last_chunk emitted bytes n)
unfolding last_chunk
Contiguous-last_chunk true [] n h = tt
Contiguous-last_chunk false [] n h = (sym (h refl), tt)
Contiguous-last_chunk true (b ∷ bytes) n h = (refl, tt)
Contiguous-last_chunk false (b ∷ bytes) n h = (refl, tt)

module _ (s : Splitter) where
  FromZero-after : (p : Processor) (bytes : List ℕ) → FromZero p → FromZero (after s p bytes)
  unfolding after push
  FromZero-after p [] h = h
  FromZero-after p (b ∷ bytes) h = elim (Bool-cases (ends s (push p b))) [
    | inl cut ↦ rw cut (FromZero-after (reset (push p b)) bytes (λ e. cc))
    | inr uncut ↦ rw uncut (FromZero-after (push p b) bytes h)
  ]

  Contiguous-cuts : (p : Processor) (bytes : List ℕ) → Contiguous p.offset (cuts s p bytes)
  unfolding cuts push
  Contiguous-cuts p [] = tt
  Contiguous-cuts p (b ∷ bytes) = elim (Bool-cases (ends s (push p b))) [
    | inl cut ↦ rw cut (refl, Contiguous-cuts (reset (push p b)) bytes)
    | inr uncut ↦ rw uncut (Contiguous-cuts (push p b) bytes)
  ]

  -- Where the processor stands after a run of chunks.
  offset-after :
      (p : Processor) (bytes : List ℕ)
      → (after s p bytes).offset ≡ p.offset + length (bytes_of (cuts s p bytes))
  unfolding cuts after bytes_of push
  offset-after p [] = omega arith
  offset-after p (b ∷ bytes) = ground (
    arith,
    offset-after (push p b) bytes,
    offset-after (reset (push p b)) bytes,
    length-append (p.current ++ b ∷ []) (bytes_of (cuts s (reset (push p b)) bytes)),
  )

  -- The chunks of a stream lie one behind the other from offset 0.
  pub chunks_of-Contiguous : (bytes : List ℕ) → Contiguous 0 (chunks_of s bytes)
  unfolding chunks_of chunks_from
  chunks_of-Contiguous bytes =
      Contiguous-append 0 (cuts s new_processor bytes) _ (Contiguous-cuts new_processor bytes) (
        subst (λ n. Contiguous n (remainder end)) (offset-after new_processor bytes)
          (Contiguous-last_chunk end.emitted end.current end.offset
            (FromZero-after new_processor bytes (λ e. refl))))
    where
      end : Processor
      end = after s new_processor bytes
