-- ===== src/Chunker/Prefix.antt =====
-- The prefix that decides whether a stream is small, and what is read again after it.
use chunk_gate.Prelude.{
  ℕ, zero, suc, ◌≤◌, ◌<◌, ◌≡◌, refl, sym, ap, subst, ◌∙◌, ◌⊎◌, inl, inr, true, false, List, [], ◌∷◌,
  ◌++◌, length, take, drop, take-append-drop, length-drop, length-append, append_assoc, append-nil,
  arith, ltb, Bool-cases,
}
use chunk_gate.Errors.{ok, background}
use chunk_gate.Effects.{Exec, World}
use chunk_gate.Chunker.Reader.{
  Reader, ReadEnd, more, eof, failed, contents, upto, IsClean, CleanEnd, Prefix, buffer_size,
  pieces, with_prefix, after_read, read_small_prefix,
}
use chunk_gate.Chunker.Equivalence.{outcome}

pieces_lem :
    (fuel size : ℕ) (bytes : List ℕ) (rest : Reader)
    → 0 < size
    → length bytes ≤ fuel
    → IsClean rest
    → IsClean (pieces fuel size bytes ++ rest)
      × (contents (pieces fuel size bytes ++ rest) ≡ bytes ++ contents rest)
unfolding pieces contents
pieces_lem zero size [] rest p h c = (c, refl)
pieces_lem zero size (b ∷ bytes) rest p h c = absurd (omega arith)
pieces_lem (suc fuel) size [] rest p h c = (c, refl)
pieces_lem (suc fuel) size (b ∷ bytes) rest p h c =
    let (clean, e) =
      pieces_lem fuel size (drop size (b ∷ bytes)) rest p
        (omega (arith, length-drop size (b ∷ bytes))) c in
    (
      clean,
      rw e (
          sym (append_assoc (take size (b ∷ bytes)) (drop size (b ∷ bytes)) (contents rest))
          ∙ ap (λ l. l ++ contents rest) (take-append-drop size (b ∷ bytes))),
    )

-- Reading the prefix again and then the rest gives the bytes in order.
pub with_prefix_lem :
    (prefix : List ℕ) (rest : Reader)
    → IsClean rest
    → IsClean (with_prefix prefix rest)
      × (contents (with_prefix prefix rest) ≡ prefix ++ contents rest)
unfolding with_prefix
with_prefix_lem prefix rest c =
    pieces_lem (length prefix) buffer_size prefix rest (omega arith) (omega arith) c

-- The prefix read of a stream with the bytes `all`.
abbrev pub PrefixOf : ℕ → List ℕ → Prefix → Type 0
PrefixOf threshold all p =
    ((p.exceeded ≡ false) × (p.prefix ≡ all) × (length all ≤ threshold))
    ⊎ ((p.exceeded ≡ true)
        × (p.prefix ++ contents p.rest ≡ all)
        × IsClean p.rest
        × (threshold < length all))

CleanEnd-rest : (end : ReadEnd) (rs : Reader) → CleanEnd end rs (IsClean rs) → IsClean rs
CleanEnd-rest more rs c = c
CleanEnd-rest eof rs c = subst IsClean (sym c) tt
CleanEnd-rest (failed e) rs c = absurd c

upto-contents :
    (end : ReadEnd) (bytes : List ℕ) (rs : Reader)
    → CleanEnd end rs (IsClean rs)
    → bytes ++ contents rs ≡ upto end bytes (contents rs)
unfolding contents
upto-contents more bytes rs c = refl
upto-contents eof bytes rs c = rw (c, contents) (append-nil bytes)
upto-contents (failed e) bytes rs c = absurd c

exceeded_lem :
    (threshold : ℕ) (prefix : List ℕ) (rs : Reader)
    → IsClean rs
    → threshold < length prefix
    → PrefixOf threshold
        (prefix ++ contents rs)
        (record { prefix = prefix; exceeded = true; rest = rs })
exceeded_lem threshold prefix rs c h =
    inr (refl, refl, c, omega (arith, length-append prefix (contents rs)))

-- A run that returns the prefix of a stream with the bytes `all`, and leaves the user's state.
abbrev pub Prefixes {ℓ} : {S : Type ℓ} → ℕ → List ℕ → Exec S Prefix → Type ℓ
Prefixes {S} threshold all m =
    (w : World S) → (p : Prefix) × (outcome (m w) ≡ (ok p, w.user)) × PrefixOf threshold all p

module _ {ℓ} {S : Type ℓ} (threshold : ℕ) where
  after_read_lem :
      (end : ReadEnd) (prefix : List ℕ) (rs : Reader) (again : Exec S Prefix)
      → CleanEnd end rs (IsClean rs)
      → length prefix ≤ threshold
      → (IsClean rs → Prefixes threshold (prefix ++ contents rs) again)
      → Prefixes threshold (prefix ++ contents rs) (after_read background end prefix rs again)
  unfolding after_read contents
  after_read_lem more prefix rs again c h ih w = ih c w
  after_read_lem eof prefix rs again c h ih w = (
    record { prefix = prefix; exceeded = false; rest = rs },
    refl,
    rw (c, contents, append-nil) (inl (refl, refl, h)),
  )
  after_read_lem (failed e) prefix rs again c h ih w = absurd c

  pub read_small_prefix_lem :
      (prefix : List ℕ) (rs : Reader)
      → IsClean rs
      → length prefix ≤ threshold
      → Prefixes {S = S} threshold
          (prefix ++ contents rs)
          (read_small_prefix background threshold prefix rs)
  unfolding read_small_prefix contents
  read_small_prefix_lem prefix [] c h w = (
    record { prefix = prefix; exceeded = false; rest = [] },
    refl,
    inl (refl, sym (append-nil prefix), rw append-nil h),
  )
  read_small_prefix_lem prefix (r ∷ rs) c h w =
      subst
        (λ all.
          Prefixes {S = S} threshold all (read_small_prefix background threshold prefix (r ∷ rs)))
        joined (step (λ h' c'. read_small_prefix_lem (prefix ++ r.bytes) rs c' h')) w
    where
      joined : (prefix ++ r.bytes) ++ contents rs ≡ prefix ++ upto r.end r.bytes (contents rs)
      joined =
          append_assoc prefix r.bytes (contents rs)
          ∙ ap (λ l. prefix ++ l) (upto-contents r.end r.bytes rs c)

      step :
          (length (prefix ++ r.bytes) ≤ threshold
            → IsClean rs
            → Prefixes {S = S} threshold
                ((prefix ++ r.bytes) ++ contents rs)
                (read_small_prefix background threshold (prefix ++ r.bytes) rs))
          → Prefixes {S = S} threshold
              ((prefix ++ r.bytes) ++ contents rs)
              (read_small_prefix background threshold prefix (r ∷ rs))
      step ih w = elim (Bool-cases (ltb threshold (length (prefix ++ r.bytes)))) [
        | inl over ↦ (
          record { prefix = prefix ++ r.bytes; exceeded = true; rest = rs },
          rw over refl,
          exceeded_lem threshold (prefix ++ r.bytes) rs (CleanEnd-rest r.end rs c) (ground arith),
        )
        | inr under ↦
            rw under
              (after_read_lem r.end (prefix ++ r.bytes) rs _ c (ground arith) (ih (ground arith)) _)
      ]
