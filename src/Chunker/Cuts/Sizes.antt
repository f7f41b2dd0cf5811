-- ===== src/Chunker/Cuts/Sizes.antt =====
-- The chunks of a stream have the sizes that the options ask for.
use chunk_gate.Prelude.{
  ℕ, ◌+◌, ◌≤◌, ◌<◌, ◌≡◌, inl, inr, Bool, true, false, List, [], ◌∷◌, ◌++◌, length, length-append,
  arith, Bool-cases,
}
use chunk_gate.Chunker.Options.{Splitter, IsValid}
use chunk_gate.Chunker.Builtin.{Chunk, Processor, new_processor, at_cut, push, reset}
use chunk_gate.Chunker.Cuts.{ends, cuts, after, last_chunk, chunks_from, chunks_of, Sized, AllSized}

Sized-append :
    (lo hi : ℕ) (xs ys : List Chunk) → AllSized lo hi xs → Sized lo hi ys → Sized lo hi (xs ++ ys)
Sized-append lo hi [] ys hx hy = hy
Sized-append lo hi (x ∷ []) [] hx hy = hx.0.1
Sized-append lo hi (x ∷ []) (y ∷ ys) hx hy = (hx.0.0, hx.0.1, hy)
Sized-append lo hi (x ∷ x' ∷ xs) ys hx hy =
    (hx.0.0, hx.0.1, Sized-append lo hi (x' ∷ xs) ys hx.1 hy)

Sized-last_chunk :
    (lo hi n : ℕ) (emitted : Bool) (bytes : List ℕ)
    → length bytes ≤ hi
    → Sized lo hi (last_chunk emitted bytes n)
unfolding last_chunk
Sized-last_chunk lo hi n true [] h = tt
Sized-last_chunk lo hi n false [] h = h
Sized-last_chunk lo hi n true (b ∷ bytes) h = h
Sized-last_chunk lo hi n false (b ∷ bytes) h = h

module _ (s : Splitter) where
  -- A chunk that ends has at least the minimum; one that goes on is below the maximum.
  at_cut_bounds :
      (size hash : ℕ)
      → (at_cut s size hash ≡ true → s.min_size ≤ size)
        × (IsValid s → at_cut s size hash ≡ false → size < s.max_size)
  unfolding at_cut
  at_cut_bounds size hash = ((λ h. ground arith), (λ v h. ground arith))

  length-push : (p : Processor) (b : ℕ) → length (push p b).current ≡ length p.current + 1
  unfolding push
  length-push p b = omega (arith, length-append p.current (b ∷ []))

  AllSized-cuts :
      (p : Processor) (bytes : List ℕ)
      → IsValid s
      → length p.current < s.max_size
      → AllSized s.min_size s.max_size (cuts s p bytes)
        × (length (after s p bytes).current < s.max_size)
  unfolding cuts after
  AllSized-cuts p [] v h = (tt, h)
  AllSized-cuts p (b ∷ bytes) v h = elim (Bool-cases (ends s (push p b))) [
    | inl cut ↦
        let rest = AllSized-cuts (reset (push p b)) bytes v (omega arith) in
        rw cut ((((at_cut_bounds _ _).0 cut, omega (arith, length-push p b)), rest.0), rest.1)
    | inr uncut ↦ rw uncut (AllSized-cuts (push p b) bytes v ((at_cut_bounds _ _).1 v uncut))
  ]

  -- No chunk of a stream is above the maximum, and only the last may be below the minimum.
  pub chunks_of-Sized :
      (bytes : List ℕ) → IsValid s → Sized s.min_size s.max_size (chunks_of s bytes)
  unfolding chunks_of chunks_from
  chunks_of-Sized bytes v =
      let (all, last) = AllSized-cuts new_processor bytes v (omega arith) in
      Sized-append s.min_size s.max_size _ _ all
        (Sized-last_chunk s.min_size s.max_size _ _ _ (omega arith))
