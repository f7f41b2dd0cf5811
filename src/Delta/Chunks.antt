-- ===== src/Delta/Chunks.antt =====
-- What the loop of `reconstruct` of internal/deltaclient/client.go writes.
use chunk_gate.Prelude.{
  ℕ, ◌+◌, ◌≡◌, refl, sym, ap, ◌∙◌, inl, inr, Bool, true, false, not, ◌&&◌, Option, none, some, List,
  [], ◌∷◌, ◌++◌, length, concat, if◌then◌else◌, Text, Text_eq, text_eq_iff, arith,
}
use chunk_gate.Prelude.Tests.{text_eq}
use chunk_gate.Prelude.Int.{ℤ, pos, leb_ℤ}
use chunk_gate.Prelude.Map.{lookup}
use chunk_gate.Errors.{Error, Result, ok, err, Result-cases, bind_ok, unwrap, ◌>>=◌}
use chunk_gate.Delta.Rebuild.{
  Files, ManifestChunk, Calls, cache_path, verified, read_cached, one_chunk, write_chunks,
}

module _ (sha256_hex : List ℕ → Text) (hash : Text) where
  -- The bytes of a result, where it is no error, have the hash.
  HasHash : Result (List ℕ) → Type 0
  HasHash r = (x : List ℕ) → r ≡ ok x → sha256_hex x ≡ hash

  err-HasHash : (e : Error) → HasHash (err e)
  unfolding HasHash
  err-HasHash e x eq = absurd (cc)

  ok-HasHash : (a : List ℕ) → sha256_hex a ≡ hash → HasHash (ok a)
  unfolding HasHash
  ok-HasHash a p x e = ap sha256_hex (sym (unwrap e)) ∙ p

  if_HasHash :
      (b : Bool) (x y : Result (List ℕ))
      → HasHash x
      → (b ≡ false → HasHash y)
      → HasHash (if b then x else y)
  if_HasHash true x y h k = h
  if_HasHash false x y h k = k refl

module _ (sha256_hex md5_hex : List ℕ → Text) (root : Text) where
  -- Bytes for each chunk, with its hash.
  abbrev pub Pieces : List ManifestChunk → List (List ℕ) → Type 0
  Pieces [] [] = Unit {0}
  Pieces (c ∷ cs) (x ∷ xs) = (sha256_hex x ≡ c.hash) × Pieces cs xs
  Pieces _ _ = ⊥

  verified-HasHash :
      (hash : Text) (size : ℤ) (found : Option (List ℕ))
      → HasHash sha256_hex hash (verified sha256_hex md5_hex root hash size found)
  unfolding verified
  verified-HasHash hash size none = err-HasHash sha256_hex hash _
  verified-HasHash hash size (some bytes) =
      if_HasHash sha256_hex hash
        (leb_ℤ (pos 0) size
          && not (leb_ℤ (pos (length bytes)) size && leb_ℤ size (pos (length bytes))))
        _ _ (err-HasHash sha256_hex hash _)
        λ _.
          if_HasHash sha256_hex hash (not (text_eq (sha256_hex bytes) hash)) _ _
            (err-HasHash sha256_hex hash _)
            λ e.
              ok-HasHash sha256_hex hash bytes
                ((text_eq_iff (sha256_hex bytes) hash).0 (ground arith))

  read_cached-HasHash :
      (fs : Files) (hash : Text) (size : ℤ)
      → HasHash sha256_hex hash (read_cached sha256_hex md5_hex root fs hash size)
  unfolding read_cached HasHash
  read_cached-HasHash fs hash size x e =
      let (path, (found, read)) =
        bind_ok (cache_path root hash)
          (λ p. verified sha256_hex md5_hex root hash size (lookup p fs)) x e in
      verified-HasHash hash size (lookup path fs) x read

  module _ (c : Calls) (fs : Files) where
    one_chunk-hash :
        (n : ℕ) (chunk : ManifestChunk) (x : List ℕ)
        → one_chunk sha256_hex md5_hex root c fs n chunk ≡ ok x
        → sha256_hex x ≡ chunk.hash
    unfolding one_chunk HasHash
    one_chunk-hash n chunk x e = after_poll (c.canceled n) e
      where
        after_write :
            (bytes : List ℕ) (o : Option Error)
            → ◌≡◌ {A = Result (List ℕ)} (elim o [ some e ↦ err e | none ↦ ok bytes ]) (ok x)
            → bytes ≡ x
        after_write bytes (some e) f = absurd (cc)
        after_write bytes none f = unwrap f

        after_poll :
            (o : Option Error)
            → ◌≡◌ {A = Result (List ℕ)}
                (elim o [
                  | some e ↦ err e
                  | none ↦ do
                    bytes ← read_cached sha256_hex md5_hex root fs chunk.hash chunk.size
                    elim (c.writes n) [ some e ↦ err e | none ↦ ok bytes ]
                ])
                (ok x)
            → sha256_hex x ≡ chunk.hash
        after_poll (some e) f = absurd (cc)
        after_poll none f =
            let (bytes, (reads, writes)) =
              bind_ok (read_cached sha256_hex md5_hex root fs chunk.hash chunk.size)
                (λ b. elim (c.writes n) [ some e ↦ err e | none ↦ ok b ]) x f in
            ap sha256_hex (sym (after_write bytes (c.writes n) writes))
            ∙ read_cached-HasHash fs chunk.hash chunk.size bytes reads

    pub written :
        (n : ℕ) (chunks : List ManifestChunk)
        → (write_chunks sha256_hex md5_hex root c fs n chunks).0 ≡ none
        → (xss : List (List ℕ)) × Pieces chunks xss
          × ((write_chunks sha256_hex md5_hex root c fs n chunks).1 ≡ concat xss)
    unfolding write_chunks
    written n [] e = ([], tt, refl)
    written n (chunk ∷ chunks) e =
        elim (Result-cases (one_chunk sha256_hex md5_hex root c fs n chunk)) [
          | inr (x, f) ↦
              let fails : (write_chunks sha256_hex md5_hex root c fs n (chunk ∷ chunks)).0
                  ≡ some x =
                rw f refl in
              absurd (cc)
          | inl (bytes, f) ↦
              let goes_on : write_chunks sha256_hex md5_hex root c fs n (chunk ∷ chunks) ≡ (
                (write_chunks sha256_hex md5_hex root c fs (n + 1) chunks).0,
                bytes ++ (write_chunks sha256_hex md5_hex root c fs (n + 1) chunks).1,
              ) =
                rw f refl in
              let (xss, pieces, same) = written (n + 1) chunks (sym (ap (λ r. r.0) goes_on) ∙ e) in
              (
                bytes ∷ xss,
                (one_chunk-hash n chunk bytes f, pieces),
                ap (λ r. r.1) goes_on ∙ ap (λ l. bytes ++ l) same,
              )
        ]
