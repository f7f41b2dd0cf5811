-- ===== src/Object/Select.antt =====
-- What `ReadChunks` of internal/object/service.go lets through.
use chunk_gate.Prelude.{
  ℕ, ◌≡◌, refl, sym, subst, ◌∙◌, inl, inr, Bool, true, Option, none, some, List, [], ◌∷◌, All,
  length, Text, Text_eq, text_eq_iff, arith, Bool-cases,
}
use chunk_gate.Prelude.Map.{Map, lookup, insert}
use chunk_gate.Errors.{Error, Result, ok, err, ◌>>=◌, bind_ok, unwrap}
use chunk_gate.Metadata.Types.{ChunkRef, ObjectManifest}
use chunk_gate.Metadata.Memory.{get_object}
use chunk_gate.Object.Blocks.{BlockStore, is_some}
use chunk_gate.Object.Service.{Server}
use chunk_gate.Object.Open.{SelectedChunk, first_chunk, verify, select_found, select, read_chunks}

-- The bytes hash to the chunk's hash, are as many as the manifest's first chunk with it says.
abbrev pub Genuine : (List ℕ → Text) → List ChunkRef → SelectedChunk → Type 0
Genuine sha256_hex cs x =
    (sha256_hex x.bytes ≡ x.hash)
    × ((length x.bytes ≡ x.size)
        × ((c : ChunkRef) × ((first_chunk x.hash cs ≡ some c) × (c.size ≡ x.size))))

module _ {B : Type 0} (blocks : BlockStore B) (sha256_hex : List ℕ → Text) (tenant : Text)
    (b : B) where
  verified_read :
      (c : ChunkRef) (h : Text) (content : Result (List ℕ)) (e : Option Error) (x : SelectedChunk)
      → verify blocks sha256_hex tenant b c h (record { content = content; close_error = e }) ≡ ok x
      → (bytes : List ℕ) × ((x ≡ record { hash = h; size = c.size; bytes = bytes })
          × ((length bytes ≡ c.size) × (sha256_hex bytes ≡ h)))
  unfolding verify
  verified_read c h (ok bytes) none x found =
      (bytes, ground (arith, text_eq_iff (sha256_hex bytes) h))
  verified_read c h (ok bytes) (some e) x found = cc
  verified_read c h (err e) o x found = cc

  select_found-Genuine :
      (cs : List ChunkRef) (h : Text) (o : Option ChunkRef) (x : SelectedChunk)
      → first_chunk h cs ≡ o
      → select_found blocks sha256_hex tenant b h o ≡ ok x
      → Genuine sha256_hex cs x
  unfolding select_found
  select_found-Genuine cs h none x e found = cc
  select_found-Genuine cs h (some c) x e found =
      let (reader, (got, checked)) =
        bind_ok (blocks.get_block tenant h b) (λ r. verify blocks sha256_hex tenant b c h r) x
          found in
      let (bytes, (e', (size, hash))) =
        verified_read c h reader.content reader.close_error x checked in
      subst (λ y. Genuine sha256_hex cs y) (sym e') (hash, (size, (c, (e, refl))))

  pub select-Genuine :
      (cs : List ChunkRef) (seen : Map Text Bool) (hs : List Text) (xs : List SelectedChunk)
      → select blocks sha256_hex tenant b cs seen hs ≡ ok xs
      → All (Genuine sha256_hex cs) xs
  unfolding select
  select-Genuine cs seen [] [] e = tt
  select-Genuine cs seen [] (x ∷ xs) e = cc
  select-Genuine cs seen (h ∷ hs) xs e = elim (Bool-cases (is_some (lookup h seen))) [
    | inl q ↦ select-Genuine cs seen hs xs (sym (rw q refl) ∙ e)
    | inr q ↦
        let (x, (found, others)) =
          bind_ok (select_found blocks sha256_hex tenant b h (first_chunk h cs))
            (λ x. do ys ← select blocks sha256_hex tenant b cs (insert h true seen) hs; ok (x ∷ ys))
            xs (sym (rw q refl) ∙ e) in
        let (ys, (selected, all)) =
          bind_ok (select blocks sha256_hex tenant b cs (insert h true seen) hs) (λ ys. ok (x ∷ ys))
            xs others in
        subst (λ l. All (Genuine sha256_hex cs) l) (unwrap all)
          (
            select_found-Genuine cs h (first_chunk h cs) x refl found,
            select-Genuine cs (insert h true seen) hs ys selected,
          )
  ]

module _ {B : Type 0} (blocks : BlockStore B) (sha256_hex : List ℕ → Text) where
  -- Where `ReadChunks` succeeds, the manifest is the visible object's, and each chunk has bytes that
  -- hash to its hash and are as many as the manifest's first chunk with that hash says.
  pub read_chunks-Genuine :
      (canceled : Option Error) (tenant bucket key : Text) (hashes : List Text) (s : Server B)
      (m : ObjectManifest) (xs : List SelectedChunk)
      → read_chunks blocks sha256_hex canceled tenant bucket key hashes s ≡ ok (m, xs)
      → ((get_object canceled tenant bucket key s.store).0 ≡ ok m)
        × All (Genuine sha256_hex m.chunks) xs
  unfolding read_chunks
  read_chunks-Genuine canceled tenant bucket key hashes s m xs e =
      let (m', (found, rest)) =
        bind_ok ((get_object canceled tenant bucket key s.store).0)
          (λ m. do xs ← select blocks sha256_hex tenant s.backend m.chunks [] hashes; ok (m, xs))
          (m, xs) e in
      let (ys, (selected, pair)) =
        bind_ok (select blocks sha256_hex tenant s.backend m'.chunks [] hashes) (λ ys. ok (m', ys))
          (m, xs) rest in
      subst
        (λ p.
          ((get_object canceled tenant bucket key s.store).0 ≡ ok p.0)
          × All (Genuine sha256_hex p.0.chunks) p.1)
        (unwrap pair)
        (found, select-Genuine blocks sha256_hex tenant s.backend m'.chunks [] hashes ys selected)
