-- ===== src/Chunker/Whole.antt =====
-- What `Stream` emits and `Split` returns, as functions of the bytes of the stream alone.
use chunk_gate.Prelude.{
  ℕ, ◌≤◌, ◌<◌, ◌≡◌, refl, sym, subst, ◌∙◌, ◌⊎◌, inl, inr, ◌&&◌, List, [], ◌∷◌, ◌++◌, length,
  append_assoc, append-nil, arith, ltb, leb, if◌then◌else◌, Bool-cases,
}
use chunk_gate.Errors.{Result, ok, err, background}
use chunk_gate.Effects.{Exec, World, on_user, continue}
use chunk_gate.Chunker.Options.{Splitter}
use chunk_gate.Chunker.Reader.{Reader, contents, IsClean, Prefix, with_prefix}
use chunk_gate.Chunker.Builtin.{Chunk, Emit}
use chunk_gate.Chunker.Stream.{FastCdc, read_prefix, by_engine, stream, collect, collected}
use chunk_gate.Chunker.Equivalence.{outcome, and_then_done, emit_all}
use chunk_gate.Chunker.Prefix.{PrefixOf, with_prefix_lem, read_small_prefix_lem}

-- A stream up to the threshold is one chunk.
unfoldable pub small_or : ℕ → List ℕ → List Chunk → List Chunk
small_or threshold bytes cs =
    if ltb 0 threshold && leb (length bytes) threshold
    then record { offset = 0; bytes = bytes } ∷ []
    else cs

small_or_small :
    (threshold : ℕ) (bytes : List ℕ) (cs : List Chunk)
    → 0 < threshold
    → length bytes ≤ threshold
    → small_or threshold bytes cs ≡ record { offset = 0; bytes = bytes } ∷ []
unfolding small_or
small_or_small threshold bytes cs t h = ground arith

pub small_or_large :
    (threshold : ℕ) (bytes : List ℕ) (cs : List Chunk)
    → (threshold ≡ 0) ⊎ (threshold < length bytes)
    → small_or threshold bytes cs ≡ cs
unfolding small_or
small_or_large threshold bytes cs h = ground arith

-- A run that returns a value in a state goes on from there.
bind_ok {ℓ} :
    {S : Type ℓ} {A : Type 0} (m : Result A × World S) (a : A) (st : S) (f : A → Exec S (Unit {0}))
    (x : Result (Unit {0}) × S)
    → outcome m ≡ (ok a, st)
    → ((w : World S) → w.user ≡ st → outcome (f a w) ≡ x)
    → outcome (let (r, w) = m in continue r f w) ≡ x
bind_ok (ok b, w) a st f x e h =
    let same : b ≡ a = (cc) in subst (λ z. outcome (f z w) ≡ x) (sym same) (h w (cc))
bind_ok (err d, w) a st f x e h = cc

emit_one {ℓ} :
    {S : Type ℓ} (emit : Emit S) (c : Chunk) (st : S) → emit_all emit (c ∷ []) st ≡ emit c st
unfolding emit_all
emit_one emit c st = and_then_done (emit c st)

-- What is emitted of a prefix and of the rest, given what the engine emits of the whole.
module _ {ℓ} {S : Type ℓ} (emit : Emit S) (cs : List Chunk) where
  emit_prefix :
      (threshold : ℕ) (all : List ℕ) (p : Prefix) (whole : Exec S (Unit {0})) (w : World S) (st : S)
      → 0 < threshold
      → PrefixOf threshold all p
      → (p.prefix ++ contents p.rest ≡ all
          → IsClean p.rest
          → outcome (whole w) ≡ emit_all emit cs st)
      → w.user ≡ st
      → outcome (
          (if p.exceeded then whole else on_user (emit (record { offset = 0; bytes = p.prefix })))
            w)
        ≡ emit_all emit (small_or threshold all cs) st
  emit_prefix threshold all p whole w st t (inl (e, e', le)) h u =
      rw (e, u, small_or_small threshold all cs t le, e', emit_one) refl
  emit_prefix threshold all p whole w st t (inr (e, e', c, lt)) h u =
      rw (e, small_or_large threshold all cs (inr lt)) (h e' c)

-- The collecting callback never fails.
pub collect_all : (cs acc : List Chunk) → emit_all collect cs acc ≡ (ok tt, acc ++ cs)
unfolding emit_all
collect_all [] acc = rw append-nil
collect_all (c ∷ cs) acc = collect_all cs (acc ++ c ∷ []) ∙ rw append_assoc

pub split_of_outcome :
    (m : Result (Unit {0}) × World (List Chunk)) (cs : List Chunk)
    → outcome m ≡ (ok tt, cs)
    → collected m ≡ ok cs
unfolding collected
split_of_outcome (ok u, w) cs e = cc
split_of_outcome (err d, w) cs e = cc

module _ {ℓ} {S : Type ℓ} (engine : FastCdc) (s : Splitter) (emit : Emit S) where
  -- What the engine emits of a reader that does not fail, as a function of its bytes.
  abbrev pub Emits : (List ℕ → List Chunk) → Type ℓ
  Emits spec =
      (reader : Reader) (w : World S)
      → IsClean reader
      → outcome (by_engine engine s background emit s.engine reader w)
        ≡ emit_all emit (spec (contents reader)) w.user

  pub stream_lem :
      (spec : List ℕ → List Chunk) (reader : Reader) (w : World S)
      → Emits spec
      → IsClean reader
      → outcome (stream engine s background emit reader w)
        ≡ emit_all emit
            (small_or s.small_file_threshold (contents reader) (spec (contents reader)))
            w.user
  unfolding stream read_prefix
  stream_lem spec reader w h c = elim (Bool-cases (ltb 0 s.small_file_threshold)) [
    | inl on ↦ rw on (
        let (p, e, is_prefix) =
          read_small_prefix_lem s.small_file_threshold [] reader c (omega arith) w in
        bind_ok _ p w.user _ _ e λ w' u.
          emit_prefix emit (spec (contents reader)) s.small_file_threshold (contents reader) p _ w'
            w.user (ground arith) is_prefix
            (λ joined c'.
              let (clean, same) = with_prefix_lem p.prefix p.rest c' in
              h (with_prefix p.prefix p.rest) w' clean ∙ rw (same, joined, u) refl)
            u)
    | inr off ↦ rw off (
        let (clean, same) = with_prefix_lem [] reader c in
        h (with_prefix [] reader) w clean
        ∙ rw
            (
              same,
              small_or_large s.small_file_threshold (contents reader) (spec (contents reader))
                  (inl (ground arith)),
            )
            refl)
  ]
