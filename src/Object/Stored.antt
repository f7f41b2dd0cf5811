-- ===== src/Object/Stored.antt =====
-- What the callback of `Put` in internal/object/service.go leaves in the backend and in its variables.
use chunk_gate.Prelude.{
  ℕ, ◌+◌, ◌≡◌, refl, sym, ap, subst, ◌∙◌, inl, inr, true, none, some, List, [], ◌∷◌, ◌++◌, map, All,
  length, concat, length-append, Text, Text_eq, text_eq_iff, ◌==◌, arith, append_assoc, append-nil,
  if◌then◌else◌, Bool-cases, Option-cases,
}
use chunk_gate.Prelude.Map.{lookup, lookup-insert, eq_self}
use chunk_gate.Errors.{ok}
use chunk_gate.Metadata.Types.{ChunkRef}
use chunk_gate.Chunker.Builtin.{Chunk}
use chunk_gate.Chunker.Equivalence.{emit_all}
use chunk_gate.Chunker.Cuts.{bytes_of, Contiguous}
use chunk_gate.Object.Ranges.{Laid, done, next}
use chunk_gate.Object.Blocks.{BlockStore, IsReliable, is_some}
use chunk_gate.Object.Service.{Upload, add_ref, put_chunk, after_has, put_missing}

-- Of the byte strings that occur, no two have the same hash, and the backend takes the hashes.
pub record IsCollisionFree (sha256_hex : List ℕ → Text) (Takes : Text → Type 0)
    (Occurs : List ℕ → Type 0) : Type 0 where
  pub takes : (xs : List ℕ) → Occurs xs → Takes (sha256_hex xs)
  pub injective : (xs ys : List ℕ) → Occurs xs → Occurs ys → sha256_hex xs ≡ sha256_hex ys → xs ≡ ys

-- The reference that is appended for a chunk.
abbrev pub ref_of : (List ℕ → Text) → Chunk → ChunkRef
ref_of sha256_hex c = record {
  hash = sha256_hex c.bytes;
  offset = c.offset;
  size = length c.bytes;
  backend_key = [];
}

module _ {B : Type 0} (blocks : BlockStore B) (sha256_hex : List ℕ → Text) (tenant : Text)
    (Takes : Text → Type 0) (Occurs : List ℕ → Type 0) (reliable : IsReliable blocks tenant Takes)
    (hashes : IsCollisionFree sha256_hex Takes Occurs) where
  -- A stored block occurs, and stands under its hash.
  abbrev pub IsSound : B → Type 0
  IsSound b =
      (h : Text) (xs : List ℕ)
      → Takes h
      → reliable.block b h ≡ some xs
      → Occurs xs × (sha256_hex xs ≡ h)

  abbrev pub Holds : B → Chunk → Type 0
  Holds b c = reliable.block b (sha256_hex c.bytes) ≡ some c.bytes

  abbrev pub Extends : B → B → Type 0
  Extends b b' =
      (h : Text) (xs : List ℕ)
      → Takes h
      → reliable.block b h ≡ some xs
      → reliable.block b' h ≡ some xs

  -- The blocks that were put before are in the backend.
  abbrev pub HasSeen : Upload B → Type 0
  HasSeen u =
      (h : Text)
      → Takes h
      → is_some (lookup h u.seen) ≡ true
      → is_some (reliable.block u.backend h) ≡ true

  pub record IsPut (u u' : Upload B) (cs : List Chunk) : Type 0 where
    pub sound : IsSound u'.backend
    pub seen : HasSeen u'
    pub extends : Extends u.backend u'.backend
    pub holds : All (Holds u'.backend) cs
    pub refs : u'.refs ≡ u.refs ++ map (ref_of sha256_hex) cs
    pub size : u'.size ≡ u.size + length (bytes_of cs)

  -- A block under the hash of bytes that occur has those bytes.
  same_block :
      (b : B) (xs : List ℕ)
      → IsSound b
      → Occurs xs
      → is_some (reliable.block b (sha256_hex xs)) ≡ true
      → reliable.block b (sha256_hex xs) ≡ some xs
  same_block b xs v o there = elim (Option-cases (reliable.block b (sha256_hex xs))) [
    | inl e ↦ cc
    | inr (ys, e) ↦
        let (occurs, same) = v (sha256_hex xs) ys (hashes.takes xs o) e in
        e ∙ ap (λ zs. some zs) (hashes.injective ys xs occurs o same)
  ]

  add_ref-IsPut :
      (c : Chunk) (u : Upload B) (b : B)
      → IsSound b
      → ((h : Text)
          → Takes h
          → is_some (lookup h u.seen) ≡ true
          → is_some (reliable.block b h) ≡ true)
      → Extends u.backend b
      → Holds b c
      → IsPut u (add_ref blocks sha256_hex c (record u { backend = b })) (c ∷ [])
  unfolding add_ref bytes_of
  add_ref-IsPut c u b v s x h = record {
    sound = v;
    seen = λ k t e. elim (Bool-cases (sha256_hex c.bytes == k)) [
      | inl same ↦
          subst (λ k. is_some (reliable.block b k) ≡ true)
            ((text_eq_iff (sha256_hex c.bytes) k).0 same) (ap is_some h)
      | inr differ ↦
          s k t (
            sym (ap is_some (lookup-insert (sha256_hex c.bytes) k true u.seen ∙ rw differ refl))
            ∙ e)
    ];
    extends = x;
    holds = (h, tt);
    refs = refl;
    size = rw (append-nil c.bytes) refl;
  }

  -- A block that was missing is put: the backend is extended by it.
  extended :
      (c : Chunk) (b b' : B)
      → Occurs c.bytes
      → IsSound b
      → reliable.block b (sha256_hex c.bytes) ≡ none
      → ((k : Text)
          → Takes k
          → reliable.block b' k
            ≡ (if sha256_hex c.bytes == k then some c.bytes else reliable.block b k))
      → IsSound b' × (Extends b b' × Holds b' c)
  extended c b b' o v missing puts = (
    λ k xs t e. elim (Bool-cases (sha256_hex c.bytes == k)) [
      | inl same ↦
          let bytes : xs ≡ c.bytes = found (sym e ∙ puts k t ∙ rw same refl) in
          rw bytes (o, (text_eq_iff (sha256_hex c.bytes) k).0 same)
      | inr differ ↦ v k xs t (sym (puts k t ∙ rw differ refl) ∙ e)
    ],
    (
      λ k xs t e. elim (Bool-cases (sha256_hex c.bytes == k)) [
        | inl same ↦ absurd (
            not_there (
              sym missing
              ∙ ap (reliable.block b) ((text_eq_iff (sha256_hex c.bytes) k).0 same)
              ∙ e))
        | inr differ ↦ puts k t ∙ rw differ e
      ],
      puts (sha256_hex c.bytes) (hashes.takes c.bytes o) ∙ rw (eq_self (sha256_hex c.bytes)) refl,
    ),
  )
    where
      found : {xs ys : List ℕ} → some xs ≡ some ys → xs ≡ ys
      found e = cc

      not_there : {xs : List ℕ} → none ≡ some xs → ⊥
      not_there e = cc

  pub put_chunk-IsPut :
      (c : Chunk) (u : Upload B)
      → Occurs c.bytes
      → IsSound u.backend
      → HasSeen u
      → (u' : Upload B) × (put_chunk blocks sha256_hex tenant c u ≡ (ok tt, u'))
        × IsPut u u' (c ∷ [])
  unfolding put_chunk after_has put_missing
  put_chunk-IsPut c u o v s = elim (Bool-cases (is_some (lookup (sha256_hex c.bytes) u.seen))) [
    | inl seen ↦ (
      add_ref blocks sha256_hex c u,
      rw seen refl,
      add_ref-IsPut c u u.backend v s (λ k xs t e. e)
          (same_block u.backend c.bytes v o (s (sha256_hex c.bytes) takes seen)),
    )
    | inr unseen ↦ elim (Option-cases (reliable.block u.backend (sha256_hex c.bytes))) [
      | inr (xs, there) ↦ (
        add_ref blocks sha256_hex c u,
        rw (unseen, reliable.has (sha256_hex c.bytes) u.backend takes, there) refl,
        add_ref-IsPut c u u.backend v s (λ k xs t e. e)
            (same_block u.backend c.bytes v o (rw there refl)),
      )
      | inl missing ↦
          let (b', puts, at) = reliable.put (sha256_hex c.bytes) c.bytes u.backend takes missing in
          let (v', (x, h)) = extended c u.backend b' o v missing at in
          (
            add_ref blocks sha256_hex c (record u { backend = b' }),
            rw (unseen, reliable.has (sha256_hex c.bytes) u.backend takes, missing, puts) refl,
            add_ref-IsPut c u b' v' (λ k t e. still k x t (s k t e)) x h,
          )
    ]
  ]
    where
      takes : Takes (sha256_hex c.bytes)
      takes = hashes.takes c.bytes o

      still :
          {b' : B} (k : Text)
          → Extends u.backend b'
          → Takes k
          → is_some (reliable.block u.backend k) ≡ true
          → is_some (reliable.block b' k) ≡ true
      still k x t e = elim (Option-cases (reliable.block u.backend k)) [
        | inl gone ↦ cc
        | inr (xs, there) ↦ ap is_some (x k xs t there)
      ]

  abbrev pub AllOccur : List Chunk → Type 0
  AllOccur = All (λ c. Occurs c.bytes)

  still_held :
      (b b' : B) (cs : List Chunk)
      → AllOccur cs
      → Extends b b'
      → All (Holds b) cs
      → All (Holds b') cs
  still_held b b' [] o x h = tt
  still_held b b' (c ∷ cs) o x h =
      (x (sha256_hex c.bytes) c.bytes (hashes.takes c.bytes o.0) h.0, still_held b b' cs o.1 x h.1)

  one_size : (c : Chunk) → length (bytes_of (c ∷ [])) ≡ length c.bytes
  unfolding bytes_of
  one_size c = ap length (append-nil c.bytes)

  -- The callback on all chunks succeeds, and leaves them in the backend and in the references.
  pub emit_all-IsPut :
      (cs : List Chunk) (u : Upload B)
      → AllOccur cs
      → IsSound u.backend
      → HasSeen u
      → (u' : Upload B) × (emit_all (put_chunk blocks sha256_hex tenant) cs u ≡ (ok tt, u'))
        × IsPut u u' cs
  unfolding emit_all bytes_of
  emit_all-IsPut [] u o v s = (
    u,
    refl,
    record {
      sound = v;
      seen = s;
      extends = λ k xs t e. e;
      holds = tt;
      refs = sym (append-nil u.refs);
      size = omega arith;
    },
  )
  emit_all-IsPut (c ∷ cs) u o v s =
      let (mid, e, p) = put_chunk-IsPut c u o.0 v s in
      let (u', e', q) = emit_all-IsPut cs mid o.1 p.sound p.seen in
      (
        u',
        rw e e',
        record {
          sound = q.sound;
          seen = q.seen;
          extends = λ k xs t there. q.extends k xs t (p.extends k xs t there);
          holds = (
            q.extends (sha256_hex c.bytes) c.bytes (hashes.takes c.bytes o.0) p.holds.0,
            q.holds,
          );
          refs =
              q.refs
              ∙ ap (λ l. l ++ map (ref_of sha256_hex) cs) p.refs
              ∙ append_assoc u.refs (ref_of sha256_hex c ∷ []) (map (ref_of sha256_hex) cs);
          size = omega (arith, q.size, p.size, one_size c, length-append c.bytes (bytes_of cs));
        },
      )

  abbrev pub bytes_each : List Chunk → List (List ℕ)
  bytes_each = map (λ c. c.bytes)

  -- Chunks that lie one behind the other and are held are laid out as `Open` reads them.
  pub held-Laid :
      (b : B) (n : ℕ) (cs : List Chunk)
      → AllOccur cs
      → Contiguous n cs
      → All (Holds b) cs
      → Laid blocks tenant b n (map (ref_of sha256_hex) cs) (bytes_each cs)
  held-Laid b n [] o k h = done
  held-Laid b n (c ∷ cs) o k h =
      next k.0 (reliable.get (sha256_hex c.bytes) b c.bytes (hashes.takes c.bytes o.0) h.0, refl)
        (held-Laid b (n + length c.bytes) cs o.1 k.1 h.1)

pub concat_each : (cs : List Chunk) → concat (map (λ (c : Chunk). c.bytes) cs) ≡ bytes_of cs
unfolding bytes_of
concat_each [] = refl
concat_each (c ∷ cs) = ap (λ l. c.bytes ++ l) (concat_each cs)
