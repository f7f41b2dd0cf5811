-- ===== src/Delta/Rebuilt.antt =====
-- What `reconstruct` of internal/deltaclient/client.go leaves where it succeeds.
use chunk_gate.Prelude.{
  ℕ, ◌≡◌, refl, sym, ap, subst, ◌∙◌, ◌⊎◌, inl, inr, Bool, true, false, not, ◌&&◌, Option, none,
  some, List, [], length, concat, if◌then◌else◌, Text, Text_eq, text_eq_iff, arith, Bool-cases,
  Option-cases,
}
use chunk_gate.Prelude.Tests.{text_eq}
use chunk_gate.Prelude.Int.{ℤ, pos, negsuc, leb_ℤ}
use chunk_gate.Prelude.Map.{lookup, insert, delete, lookup-insert, eq_self}
use chunk_gate.Errors.{Error}
use chunk_gate.Delta.Chunks.{Pieces, written}
use chunk_gate.Delta.Rebuild.{
  Files, Manifest, Calls, Done, write_chunks, manifest_object_md5, failing, commit, without_output,
  rename_output, check_object, close_output, reconstruct,
}

module _ (sha256_hex md5_hex : List ℕ → Text) (root : Text) where
  module _ (c : Calls) (tmp output : Text) (m : Manifest) where
    -- The output has the bytes, as many as the manifest says and with its MD5 if it has one.
    Rebuilt : List ℕ → Done sha256_hex md5_hex root → Type 0
    Rebuilt bytes d =
        d.0 ≡ none
        → (lookup output d.1 ≡ some bytes)
          × (pos (length bytes) ≡ m.size)
          × ((manifest_object_md5 sha256_hex md5_hex root m ≡ [])
              ⊎ (md5_hex bytes ≡ manifest_object_md5 sha256_hex md5_hex root m))

    failing-Rebuilt :
        (bytes : List ℕ) (e : Error) (fs : Files)
        → Rebuilt bytes (failing sha256_hex md5_hex root c tmp output e fs)
    unfolding Rebuilt
    failing-Rebuilt bytes e fs h = absurd (cc)

    if_Rebuilt :
        (bytes : List ℕ) (b : Bool) (x y : Done sha256_hex md5_hex root)
        → Rebuilt bytes x
        → (b ≡ false → Rebuilt bytes y)
        → Rebuilt bytes (if b then x else y)
    if_Rebuilt bytes true x y h k = h
    if_Rebuilt bytes false x y h k = k refl

    commit-lookup :
        (bytes : List ℕ) (fs : Files)
        → lookup output (commit sha256_hex md5_hex root c tmp output bytes fs).1 ≡ some bytes
    commit-lookup bytes fs =
        lookup-insert output output bytes (delete tmp fs) ∙ rw (eq_self output) refl

    commit-Rebuilt :
        (bytes : List ℕ) (fs : Files)
        → pos (length bytes) ≡ m.size
        → (manifest_object_md5 sha256_hex md5_hex root m ≡ [])
          ⊎ (md5_hex bytes ≡ manifest_object_md5 sha256_hex md5_hex root m)
        → Rebuilt bytes (commit sha256_hex md5_hex root c tmp output bytes fs)
    unfolding Rebuilt
    commit-Rebuilt bytes fs sized hashed h = (commit-lookup bytes fs, sized, hashed)

    rename_output-Rebuilt :
        (bytes : List ℕ) (fs : Files)
        → pos (length bytes) ≡ m.size
        → (manifest_object_md5 sha256_hex md5_hex root m ≡ [])
          ⊎ (md5_hex bytes ≡ manifest_object_md5 sha256_hex md5_hex root m)
        → Rebuilt bytes (rename_output sha256_hex md5_hex root c tmp output bytes fs)
    unfolding rename_output
    rename_output-Rebuilt bytes fs sized hashed = elim (Option-cases (c.os 3)) [
      | inl e ↦
          let same : rename_output sha256_hex md5_hex root c tmp output bytes fs
              ≡ commit sha256_hex md5_hex root c tmp output bytes fs =
            rw (rename_output, e) refl in
          subst (Rebuilt bytes) (sym same) (commit-Rebuilt bytes fs sized hashed)
      | inr (x, e) ↦
          let gone : Files = without_output sha256_hex md5_hex root c tmp output fs in
          elim (Option-cases (c.os 4)) [
            | inl f ↦
                let same : rename_output sha256_hex md5_hex root c tmp output bytes fs
                    ≡ commit sha256_hex md5_hex root c tmp output bytes gone =
                  rw (rename_output, e, f) refl in
                subst (Rebuilt bytes) (sym same) (commit-Rebuilt bytes gone sized hashed)
            | inr (y, f) ↦
                let same : rename_output sha256_hex md5_hex root c tmp output bytes fs
                    ≡ failing sha256_hex md5_hex root c tmp output x gone =
                  rw (rename_output, e, f) refl in
                subst (Rebuilt bytes) (sym same) (failing-Rebuilt bytes x gone)
          ]
    ]

    same_size : (n : ℕ) (z : ℤ) → not (leb_ℤ (pos n) z && leb_ℤ z (pos n)) ≡ false → pos n ≡ z
    same_size n (pos k) e = ap pos (ground arith)
    same_size n (negsuc k) e = absurd (ground arith)

    same_md5 :
        (given want : Text)
        → (not (text_eq want []) && not (text_eq given want)) ≡ false
        → (want ≡ []) ⊎ (given ≡ want)
    same_md5 given want e = elim (Bool-cases (text_eq want [])) [
      | inl f ↦ inl ((text_eq_iff want []).0 f)
      | inr f ↦ inr ((text_eq_iff given want).0 (ground arith))
    ]

    check_object-Rebuilt :
        (bytes : List ℕ) (fs : Files)
        → Rebuilt bytes (check_object sha256_hex md5_hex root c tmp output m bytes fs)
    unfolding check_object
    check_object-Rebuilt bytes fs =
        if_Rebuilt bytes
          (not (leb_ℤ (pos (length bytes)) m.size && leb_ℤ m.size (pos (length bytes)))) _ _
          (failing-Rebuilt bytes _ fs)
          λ sized.
            if_Rebuilt bytes
              (not (text_eq (manifest_object_md5 sha256_hex md5_hex root m) [])
                && not (text_eq (md5_hex bytes) (manifest_object_md5 sha256_hex md5_hex root m)))
              _ _ (failing-Rebuilt bytes _ fs)
              λ hashed.
                rename_output-Rebuilt bytes fs (same_size (length bytes) m.size sized)
                  (same_md5 (md5_hex bytes) (manifest_object_md5 sha256_hex md5_hex root m) hashed)

    close_output-Rebuilt :
        (r : Option Error × List ℕ) (fs : Files)
        → Rebuilt r.1 (close_output sha256_hex md5_hex root c tmp output m r fs)
    unfolding close_output
    close_output-Rebuilt (some e, bytes) fs = failing-Rebuilt bytes e (insert tmp bytes fs)
    close_output-Rebuilt (none, bytes) fs = elim (Option-cases (c.os 2)) [
      | inr (x, e) ↦
          let same : close_output sha256_hex md5_hex root c tmp output m (none, bytes) fs
              ≡ failing sha256_hex md5_hex root c tmp output x (insert tmp bytes fs) =
            rw (close_output, e) refl in
          subst (Rebuilt bytes) (sym same) (failing-Rebuilt bytes x (insert tmp bytes fs))
      | inl e ↦
          let same : close_output sha256_hex md5_hex root c tmp output m (none, bytes) fs
              ≡ check_object sha256_hex md5_hex root c tmp output m bytes (insert tmp bytes fs) =
            rw (close_output, e) refl in
          subst (Rebuilt bytes) (sym same) (check_object-Rebuilt bytes (insert tmp bytes fs))
    ]

    close_output-none :
        (r : Option Error × List ℕ) (fs : Files)
        → (close_output sha256_hex md5_hex root c tmp output m r fs).0 ≡ none
        → r.0 ≡ none
    unfolding close_output
    close_output-none (some e, bytes) fs h = absurd (cc)
    close_output-none (none, bytes) fs h = refl

    -- A run that succeeds gets as far as the closing of the file.
    reconstruct-close_output :
        (fs : Files)
        → (reconstruct sha256_hex md5_hex root c tmp output m fs).0 ≡ none
        → reconstruct sha256_hex md5_hex root c tmp output m fs
          ≡ close_output sha256_hex md5_hex root c tmp output m
              (write_chunks sha256_hex md5_hex root c fs 0 m.chunks)
              fs
    unfolding reconstruct
    reconstruct-close_output fs h = elim (Option-cases (c.os 0)) [
      | inr (x, e) ↦
          let fails : reconstruct sha256_hex md5_hex root c tmp output m fs ≡ (some x, fs) =
            rw (reconstruct, e) refl in
          let none_some : none ≡ some x = sym h ∙ ap (λ d. d.0) fails in absurd (cc)
      | inl e ↦ elim (Option-cases (c.os 1)) [
        | inr (x, f) ↦
            let fails : reconstruct sha256_hex md5_hex root c tmp output m fs ≡ (some x, fs) =
              rw (reconstruct, e, f) refl in
            let none_some : none ≡ some x = sym h ∙ ap (λ d. d.0) fails in absurd (cc)
        | inl f ↦ rw (reconstruct, e, f) refl
      ]
    ]

    -- Where `reconstruct` succeeds, the output file has for each chunk of the manifest, in their order, bytes
    -- with its hash, and no others; they are as many as the manifest says, and have its MD5 if it has one.
    pub reconstruct-Pieces :
        (fs : Files)
        → (reconstruct sha256_hex md5_hex root c tmp output m fs).0 ≡ none
        → (xss : List (List ℕ)) × Pieces sha256_hex md5_hex root m.chunks xss
          × (lookup output (reconstruct sha256_hex md5_hex root c tmp output m fs).1
              ≡ some (concat xss))
          × (pos (length (concat xss)) ≡ m.size)
          × ((manifest_object_md5 sha256_hex md5_hex root m ≡ [])
              ⊎ (md5_hex (concat xss) ≡ manifest_object_md5 sha256_hex md5_hex root m))
    unfolding Rebuilt
    reconstruct-Pieces fs h =
        let same : reconstruct sha256_hex md5_hex root c tmp output m fs
            ≡ close_output sha256_hex md5_hex root c tmp output m
                (write_chunks sha256_hex md5_hex root c fs 0 m.chunks) fs =
          reconstruct-close_output fs h in
        let through : (close_output sha256_hex md5_hex root c tmp output m
              (write_chunks sha256_hex md5_hex root c fs 0 m.chunks) fs).0
            ≡ none =
          sym (ap (λ d. d.0) same) ∙ h in
        let (xss, pieces, whole) =
          written sha256_hex md5_hex root c fs 0 m.chunks (close_output-none _ fs through) in
        let (there, sized, hashed) =
          subst (λ b. Rebuilt b (reconstruct sha256_hex md5_hex root c tmp output m fs)) whole
            (subst (Rebuilt _) (sym same)
              (close_output-Rebuilt (write_chunks sha256_hex md5_hex root c fs 0 m.chunks) fs))
            h in
        (xss, pieces, there, sized, hashed)
