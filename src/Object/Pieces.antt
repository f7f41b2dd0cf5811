-- ===== src/Object/Pieces.antt =====
-- What `openChunks` of internal/object/service.go reads of one chunk.
use chunk_gate.Prelude.{
  ℕ, ◌+◌, ◌-◌, ◌≤◌, ◌<◌, ◌≡◌, refl, sym, ◌⊎◌, inl, inr, true, ◌&&◌, ◌||◌, none, some, List, [],
  ◌++◌, length, ltb, nat_eq, if◌then◌else◌, Text, arith, Bool-cases,
}
use chunk_gate.Errors.{Result, ok, err, ◌>>=◌}
use chunk_gate.Metadata.Types.{ChunkRef}
use chunk_gate.Object.Blocks.{BlockStore}
use chunk_gate.Object.Service.{ByteRange}
use chunk_gate.Object.Open.{
  Part, skipped, whole, part, clip, part_of, cut_out, Source, open_part, read_all,
}
use chunk_gate.Object.Slices.{slice, window, slice-none, slice-same, slice_all}

-- The store has the bytes of the chunk, which are as many as the manifest says.
abbrev pub IsStored : {B : Type 0} → BlockStore B → Text → B → ChunkRef → List ℕ → Type 0
IsStored blocks tenant b c xs =
    blocks.get_block tenant c.hash b ≡ ok (record { content = ok xs; close_error = none })
    × length xs ≡ c.size

-- What is read of the bytes of a chunk.
unfoldable pub piece : Part → List ℕ → List ℕ
piece skipped xs = []
piece whole xs = xs
piece (part read_start read_end) xs = slice read_start (read_end + 1) xs

unfoldable pub Fits : Part → ℕ → Type 0
Fits skipped n = Unit
Fits whole n = Unit
Fits (part read_start read_end) n = read_start ≤ read_end × read_end < n

-- `n ++` on what a computation gives.
unfoldable pub before : List ℕ → Result (List Source) → Result (List ℕ)
before xs rest = do readers ← rest; ys ← read_all readers; ok (xs ++ ys)

cut_out_lem :
    (from upto : ℕ) (xs : List ℕ)
    → from ≤ upto
    → upto < length xs
    → cut_out from upto xs ≡ ok (slice from (upto + 1) xs)
unfolding cut_out
cut_out_lem from upto xs h k = ground arith

module _ {B : Type 0} (blocks : BlockStore B) (tenant : Text) (b : B) where
  pub open_part-piece :
      (p : Part) (c : ChunkRef) (xs : List ℕ)
      → Fits p (length xs)
      → IsStored blocks tenant b c xs
      → (rest : Result (List Source))
      → (do readers ← open_part blocks tenant b p c rest; read_all readers)
        ≡ before (piece p xs) rest
  unfolding open_part piece before read_all Fits
  open_part-piece skipped c xs fits stored (err e) = refl
  open_part-piece skipped c xs fits stored (ok readers) = same_result (read_all readers)
    where
      same_result : (r : Result (List ℕ)) → r ≡ (do ys ← r; ok ys)
      same_result (ok ys) = refl
      same_result (err e) = refl
  open_part-piece whole c xs fits stored (err e) = rw stored.0 refl
  open_part-piece whole c xs fits stored (ok readers) = rw stored.0 refl
  open_part-piece (part from upto) c xs fits stored (err e) =
      rw stored.0 (rw (cut_out_lem from upto xs fits.0 fits.1) refl)
  open_part-piece (part from upto) c xs fits stored (ok readers) =
      rw stored.0 (rw (cut_out_lem from upto xs fits.0 fits.1) refl)

first_index : (start offset : ℕ) → (if ltb offset start then start - offset else 0) ≡ start - offset
first_index start offset = ground arith

abbrev last_index : ℕ → ℕ → ℕ → ℕ
last_index end offset size = if ltb end (offset + size - 1) then end - offset else size - 1

last_index_lem :
    (end offset size : ℕ)
    → offset ≤ end
    → 1 ≤ size
    → ((last_index end offset size + 1 ≡ end + 1 - offset)
        ⊎ (size ≤ last_index end offset size + 1 × size ≤ end + 1 - offset))
      × last_index end offset size < size
last_index_lem end offset size h k = elim (Bool-cases (ltb end (offset + size - 1))) [
  | inl e ↦ rw e ((inl (ground arith)), (ground arith))
  | inr e ↦ rw e ((inr ((ground arith), (ground arith))), (ground arith))
]

-- What is read of a chunk is the window of the range at its offset.
clip-window :
    (r : ByteRange) (c : ChunkRef) (xs : List ℕ)
    → r.start ≤ r.end
    → length xs ≡ c.size
    → 1 ≤ c.size
    → r.start < c.offset + c.size
    → c.offset ≤ r.end
    → Fits (clip r c) (length xs) × (piece (clip r c) xs ≡ window r c.offset xs)
unfolding clip Fits piece
clip-window r c xs h size pos before_end after_start =
    rw (first_index r.start c.offset)
      (elim (Bool-cases
        (nat_eq (r.start - c.offset) 0 && nat_eq (last_index r.end c.offset c.size) (c.size - 1))) [
          | inl e ↦ rw e (
            tt,
            sym (
                slice_all (r.start - c.offset) (r.end + 1 - c.offset) xs (ground arith)
                  (ground arith)),
          )
          | inr e ↦ rw e (
            (ground arith, rw size (last_index_lem r.end c.offset c.size after_start pos).1),
            slice-same (r.start - c.offset) (last_index r.end c.offset c.size + 1)
                (r.end + 1 - c.offset) xs
                (rw size (last_index_lem r.end c.offset c.size after_start pos).0),
          )
        ])

outside :
    (start end offset size : ℕ)
    → (nat_eq size 0 || ltb (offset + size - 1) start || ltb end offset) ≡ true
    → (size ≤ start - offset) ⊎ (end + 1 - offset ≤ start - offset)
outside start end offset size e = ground arith

pub part_of-window :
    (r : ByteRange) (c : ChunkRef) (xs : List ℕ)
    → r.start ≤ r.end
    → length xs ≡ c.size
    → Fits (part_of (some r) c) (length xs) × (piece (part_of (some r) c) xs ≡ window r c.offset xs)
unfolding part_of Fits piece
part_of-window r c xs h size =
    elim (Bool-cases
      (nat_eq c.size 0 || ltb (c.offset + c.size - 1) r.start || ltb r.end c.offset)) [
        | inl e ↦ rw e (
          tt,
          sym (
              slice-none (r.start - c.offset) (r.end + 1 - c.offset) xs
                (rw size (outside r.start r.end c.offset c.size e))),
        )
        | inr e ↦ rw e (clip-window r c xs h size (ground arith) (ground arith) (ground arith))
      ]
