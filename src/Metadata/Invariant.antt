-- ===== src/Metadata/Invariant.antt =====
-- The reference counts of internal/metadata/memory.go agree with the objects that are visible.
use chunk_gate.Prelude.{
  ℕ, ◌≡◌, ◌≢◌, refl, sym, ap, ◌∙◌, subst, inl, inr, Option, none, some, [], ◌∷◌, ◌++◌, arith, ◌==◌,
  Text, Text_eq, text_eq_iff, Bool-cases,
}
use chunk_gate.Prelude.Map.{Map, lookup, insert, delete, lookup-insert, lookup-delete}
use chunk_gate.Prelude.Map.Total.{
  Unique, total, Unique-insert, Unique-delete, total-insert, total-delete, total-ext,
}
use chunk_gate.Metadata.Types.{committed, deleted, ObjectManifest, BlockRefCount, MemoryStore}
use chunk_gate.Metadata.Memory.{object_at, key_of, retire, install, ensure_tenant}
use chunk_gate.Metadata.Counts.{
  refs, share, refs-increment_locked, refs-decrement_locked, block_at-ensure_tenant,
}

-- No byte is NUL, the separator of the index keys.
abbrev pub NulFree : Text → Type 0
NulFree [] = Unit {0}
NulFree (c ∷ t) = (c ≢ 0) × NulFree t

pub separated :
    (t u r q : Text) → NulFree t → NulFree u → t ++ 0 ∷ r ≡ u ++ 0 ∷ q → (t ≡ u) × (r ≡ q)
separated [] [] r q ft fu e = (refl, cc)
separated [] (d ∷ u) r q ft fu e = absurd (fu.0 (cc))
separated (c ∷ t) [] r q ft fu e = absurd (ft.0 (cc))
separated (c ∷ t) (d ∷ u) r q ft fu e =
    let (same, rest) = separated t u r q ft.1 fu.1 (cc) in (cc, rest)

-- What the object with an id contributes to the count of a block.
unfoldable pub held : Map Text ObjectManifest → Text → Text → Text → ℕ
held objects tenant hash id = let m = object_at objects id in share m.tenant tenant hash m.chunks

-- How often the visible objects of a tenant refer to a block.
abbrev pub uses : MemoryStore → Text → Text → ℕ
uses s tenant hash = total (held s.objects tenant hash) s.index

-- An index entry leads to a committed object with that key.
abbrev pub Indexed : Map Text ObjectManifest → Text → Text → Type 0
Indexed objects key id =
    (m : ObjectManifest) × (lookup id objects ≡ some m)
    × (m.state ≡ committed)
    × (key_of m ≡ key)
    × NulFree m.tenant
    × NulFree m.bucket

pub record Inv (s : MemoryStore) : Type 0 where
  pub unique : Unique s.index
  pub counted : (tenant hash : Text) → refs s.blocks tenant hash ≡ uses s tenant hash
  pub indexed : (key id : Text) → lookup key s.index ≡ some id → Indexed s.objects key id

-- An id is not of a visible object.
abbrev pub Unindexed : MemoryStore → Text → Type 0
Unindexed s id = (key : Text) → lookup key s.index ≢ some id

pub entry_of_delete :
    (key k id : Text) (index : Map Text Text)
    → lookup k (delete key index) ≡ some id
    → (lookup k index ≡ some id) × (k ≢ key)
entry_of_delete key k id index e = (
  ground (arith, lookup-delete key k index),
  λ same. ground (arith, lookup-delete key k index, text_eq_iff key k),
)

-- Two index entries with one id are the same entry.
pub ids_differ :
    (s : MemoryStore) (key k old id : Text)
    → Inv s
    → lookup key s.index ≡ some old
    → lookup k s.index ≡ some id
    → k ≢ key
    → old ≢ id
ids_differ s key k old id v e e' ne same =
    let (m, l, _, q, _, _) = v.indexed key old e in
    let (m', l', _, q', _, _) = v.indexed k id e' in
    let one : m ≡ m' = cc (ap (λ x. lookup x s.objects) same) in ne (cc (ap key_of one))

index-retire :
    (clock : ℕ → ℕ) (now : ℕ) (o : Option Text) (s : MemoryStore)
    → (retire clock now o s).index ≡ s.index
unfolding retire
index-retire clock now none s = refl
index-retire clock now (some old) s = refl

-- A retired object is that of the index entry, and no other entry's.
module _ (clock : ℕ → ℕ) (now : ℕ) (s : MemoryStore) (v : Inv s) (key : Text) where
  abbrev without : Map Text Text
  without = delete key s.index

  retire_keeps :
      (o : Option Text) (k id : Text)
      → lookup key s.index ≡ o
      → lookup k without ≡ some id
      → lookup id (retire clock now o s).objects ≡ lookup id s.objects
  unfolding retire
  retire_keeps none k id e h = refl
  retire_keeps (some old) k id e h =
      let (h', ne) = entry_of_delete key k id s.index h in
      let differ : old ≢ id = ids_differ s key k old id v e h' ne in
      ground (
        arith,
        differ,
        text_eq_iff old id,
        lookup-insert old id
            (record (object_at s.objects old) { state = deleted; updated_at = now }) s.objects,
      )

  retire_counts :
      (o : Option Text) (tenant hash : Text)
      → lookup key s.index ≡ o
      → refs (retire clock now o s).blocks tenant hash ≡ total (held s.objects tenant hash) without
  unfolding retire held
  retire_counts none tenant hash e =
      ground (
        arith,
        v.counted tenant hash,
        total-delete (held s.objects tenant hash) key s.index v.unique,
      )
  retire_counts (some old) tenant hash e =
      let previous : ObjectManifest = object_at s.objects old in
      ground (
        arith,
        v.counted tenant hash,
        total-delete (held s.objects tenant hash) key s.index v.unique,
        refs-decrement_locked (clock 1) previous.tenant tenant hash previous.chunks s.blocks,
      )

module _ (clock : ℕ → ℕ) (m : ObjectManifest) (s : MemoryStore) (v : Inv s)
    (u : Unindexed s m.id) where
  abbrev pub retired : MemoryStore
  retired = retire clock m.updated_at (lookup (key_of m) s.index) s

  abbrev pub stored : Map Text ObjectManifest
  stored = insert m.id m retired.objects

  pub same_index : retired.index ≡ s.index
  same_index = index-retire clock m.updated_at (lookup (key_of m) s.index) s

  -- The index entries under other keys keep their objects.
  pub others_kept :
      (k id : Text)
      → lookup k (delete (key_of m) s.index) ≡ some id
      → lookup id stored ≡ lookup id s.objects
  others_kept k id e =
      let differ : id ≢ m.id =
        λ same. u k (ground (arith, same, entry_of_delete (key_of m) k id s.index e)) in
      ground (
        arith,
        differ,
        text_eq_iff m.id id,
        lookup-insert m.id id m retired.objects,
        retire_keeps clock m.updated_at s v (key_of m) (lookup (key_of m) s.index) k id refl e,
      )

  pub stored_self : lookup m.id stored ≡ some m
  stored_self = ground (arith, lookup-insert m.id m.id m retired.objects, text_eq_iff m.id m.id)

  held_others :
      (tenant hash k id : Text)
      → lookup k (delete (key_of m) s.index) ≡ some id
      → held s.objects tenant hash id ≡ held stored tenant hash id
  unfolding held
  held_others tenant hash k id e = ground (arith, others_kept k id e)

  held_self :
      (tenant hash : Text) → held stored tenant hash m.id ≡ share m.tenant tenant hash m.chunks
  unfolding held
  held_self tenant hash = ground (arith, stored_self)

  install-counted :
      (tenant hash : Text)
      → refs (install clock m s).blocks tenant hash ≡ uses (install clock m s) tenant hash
  unfolding install
  install-counted tenant hash = omega (
    arith,
    refs-increment_locked (clock 2) m.tenant tenant hash m.chunks
        (ensure_tenant retired.blocks m.tenant),
    ap (λ (b : BlockRefCount). b.ref_count)
        (block_at-ensure_tenant retired.blocks m.tenant tenant hash),
    retire_counts clock m.updated_at s v (key_of m) (lookup (key_of m) s.index) tenant hash refl,
    total-insert (held stored tenant hash) (key_of m) m.id s.index v.unique,
    total-ext (held s.objects tenant hash) (held stored tenant hash) (delete (key_of m) s.index)
        (Unique-delete (key_of m) s.index v.unique) (held_others tenant hash),
    held_self tenant hash,
    ap (λ (index : Map Text Text). total (held stored tenant hash) (insert (key_of m) m.id index))
        same_index,
  )

  install-Indexed :
      m.state ≡ committed
      → NulFree m.tenant
      → NulFree m.bucket
      → (k id : Text) → lookup k (insert (key_of m) m.id s.index) ≡ some id
      → Indexed stored k id
  install-Indexed c ft fb k id e = elim (Bool-cases (key_of m == k)) [
    | inl hit ↦ (
      m,
      ground (arith, stored_self, lookup-insert (key_of m) k m.id s.index),
      c,
      (text_eq_iff (key_of m) k).0 hit,
      ft,
      fb,
    )
    | inr miss ↦
        let e' : lookup k s.index ≡ some id =
          ground (arith, lookup-insert (key_of m) k m.id s.index) in
        let d : lookup k (delete (key_of m) s.index) ≡ some id =
          ground (arith, lookup-delete (key_of m) k s.index) in
        let (m', l, st, q, ft', fb') = v.indexed k id e' in
        (m', others_kept k id d ∙ l, st, q, ft', fb')
  ]

  -- Committing a manifest keeps the counts right.
  pub install-Inv :
      m.state ≡ committed → NulFree m.tenant → NulFree m.bucket → Inv (install clock m s)
  unfolding install
  install-Inv c ft fb = record {
    unique =
        subst (λ i. Unique (insert (key_of m) m.id i)) (sym same_index)
          (Unique-insert (key_of m) m.id s.index v.unique);
    counted = install-counted;
    indexed =
        subst
          (λ (i : Map Text Text).
            (k id : Text) → lookup k (insert (key_of m) m.id i) ≡ some id → Indexed stored k id)
          (sym same_index) (install-Indexed c ft fb);
  }
