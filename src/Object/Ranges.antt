-- ===== src/Object/Ranges.antt =====
-- What `Open` and `OpenRange` of internal/object/service.go give when they are read to the end.
use chunk_gate.Prelude.{
  ℕ, ◌+◌, ◌-◌, ◌≤◌, ◌≡◌, refl, sym, ap, ◌∙◌, inl, Option, none, some, List, [], ◌∷◌, ◌++◌, length,
  concat, Text, arith,
}
use chunk_gate.Errors.{Error, Result, ok, err, ◌>>=◌}
use chunk_gate.Metadata.Types.{ChunkRef, ObjectManifest}
use chunk_gate.Metadata.Memory.{get_object}
use chunk_gate.Object.Blocks.{BlockStore}
use chunk_gate.Object.Service.{ByteRange, Server}
use chunk_gate.Object.Open.{whole, part_of, Source, open_chunks, read_all, open_object}
use chunk_gate.Object.Slices.{slice, window, window-append, slice-none}
use chunk_gate.Object.Pieces.{IsStored, piece, Fits, before, open_part-piece, part_of-window}

-- The chunks lie one behind the other from offset n on, and the store has their bytes.
pub data Laid {B : Type 0} (blocks : BlockStore B) (tenant : Text) (b : B)
    : ℕ → List ChunkRef → List (List ℕ) → Type 0 where
  done : {n : ℕ} → Laid blocks tenant b n [] []
  next :
      {n : ℕ} {c : ChunkRef} {xs : List ℕ} {cs : List ChunkRef} {xss : List (List ℕ)}
      → c.offset ≡ n
      → IsStored blocks tenant b c xs
      → Laid blocks tenant b (n + length xs) cs xss
      → Laid blocks tenant b n (c ∷ cs) (xs ∷ xss)

-- What a request without or with a range asks of the bytes.
abbrev pub asked : Option ByteRange → List ℕ → List ℕ
asked none bytes = bytes
asked (some r) bytes = slice r.start (r.end + 1) bytes

abbrev pub IsRange : Option ByteRange → Type 0
IsRange none = Unit
IsRange (some r) = r.start ≤ r.end

module _ {B : Type 0} (blocks : BlockStore B) (tenant : Text) (b : B) where
  -- What `openChunks` and then reading the readers gives.
  given : Option ByteRange → List ChunkRef → Result (List ℕ)
  given range cs = do readers ← open_chunks blocks tenant b range cs; read_all readers

  before-given :
      (range : Option ByteRange) (cs : List ChunkRef) (xs ys : List ℕ)
      → given range cs ≡ ok ys
      → before xs (open_chunks blocks tenant b range cs) ≡ ok (xs ++ ys)
  unfolding given before
  before-given range cs xs ys e =
      through (open_chunks blocks tenant b range cs) ∙ ap (λ r. do zs ← r; ok (xs ++ zs)) e
    where
      through :
          (r : Result (List Source))
          → (do readers ← r; zs ← read_all readers; ok (xs ++ zs))
            ≡ (do zs ← (do readers ← r; read_all readers); ok (xs ++ zs))
      through (ok rs) = refl
      through (err e) = refl

  open_chunks-window :
      (r : ByteRange) (n : ℕ) (cs : List ChunkRef) (xss : List (List ℕ))
      → r.start ≤ r.end
      → Laid blocks tenant b n cs xss
      → given (some r) cs ≡ ok (window r n (concat xss))
  unfolding given open_chunks read_all
  open_chunks-window r n cs xss h done =
      ap (λ l. ok l) (sym (slice-none (r.start - n) (r.end + 1 - n) [] (inl (omega arith))))
  open_chunks-window r n cs xss h (next {c = c} {xs = xs} {cs = cs'} {xss = xss'} at stored laid) =
      open_part-piece blocks tenant b (part_of (some r) c) c xs (part_of-window r c xs h stored.1).0
        stored (open_chunks blocks tenant b (some r) cs')
      ∙ ap (λ zs. before zs (open_chunks blocks tenant b (some r) cs'))
          (part_of-window r c xs h stored.1).1
      ∙ before-given (some r) cs' (window r c.offset xs) (window r (n + length xs) (concat xss'))
          (open_chunks-window r (n + length xs) cs' xss' h laid)
      ∙ ap (λ k. ok (window r k xs ++ window r (n + length xs) (concat xss'))) at
      ∙ ap (λ l. ok l) (sym (window-append r n xs (concat xss') h))

  open_chunks-whole :
      (n : ℕ) (cs : List ChunkRef) (xss : List (List ℕ))
      → Laid blocks tenant b n cs xss
      → given none cs ≡ ok (concat xss)
  unfolding given open_chunks read_all Fits piece part_of
  open_chunks-whole n cs xss done = refl
  open_chunks-whole n cs xss (next {c = c} {xs = xs} {cs = cs'} {xss = xss'} at stored laid) =
      open_part-piece blocks tenant b whole c xs tt stored (open_chunks blocks tenant b none cs')
      ∙ before-given none cs' xs (concat xss') (open_chunks-whole (n + length xs) cs' xss' laid)

module _ {B : Type 0} (blocks : BlockStore B) where
  -- Opening an object and reading it to the end.
  abbrev pub fetch :
      Option Error → Text → Text → Text → Option ByteRange → Server B → Result (List ℕ)
  fetch canceled tenant bucket key range s = do
    opened ← open_object blocks canceled tenant bucket key range s
    read_all opened.1

  -- An object whose chunks lie one behind the other from 0 and are in the store with the sizes that
  -- the manifest says: reading what `Open` gives yields all the bytes, and what `OpenRange` gives for
  -- a start not above the end the bytes from the start to the end. The context is not cancelled.
  pub fetch-slice :
      (tenant bucket key : Text) (range : Option ByteRange) (s : Server B) (m : ObjectManifest)
      (xss : List (List ℕ))
      → IsRange range
      → (get_object none tenant bucket key s.store).0 ≡ ok m
      → Laid blocks tenant s.backend 0 m.chunks xss
      → fetch none tenant bucket key range s ≡ ok (asked range (concat xss))
  unfolding open_object given
  fetch-slice tenant bucket key range s m xss h found laid =
      rw found (through (open_chunks blocks tenant s.backend range m.chunks) ∙ read range h)
    where
      through :
          (r : Result (List Source))
          → ◌>>=◌ {V = ObjectManifest × List Source}
              (do readers ← r; ok (m, readers))
              (λ opened. read_all opened.1)
            ≡ (do readers ← r; read_all readers)
      through (ok rs) = refl
      through (err e) = refl

      minus_zero : (k : ℕ) → k - 0 ≡ k
      minus_zero k = omega arith

      read :
          (range : Option ByteRange)
          → IsRange range
          → given blocks tenant s.backend range m.chunks ≡ ok (asked range (concat xss))
      read none h = open_chunks-whole blocks tenant s.backend 0 m.chunks xss laid
      read (some r) h =
          open_chunks-window blocks tenant s.backend r 0 m.chunks xss h laid
          ∙ ap (λ k. ok (slice k (r.end + 1 - 0) (concat xss))) (minus_zero r.start)
          ∙ ap (λ k. ok (slice r.start k (concat xss))) (minus_zero (r.end + 1))
