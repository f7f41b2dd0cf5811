-- ===== src/Metadata/Steps.antt =====
-- Each method of internal/metadata/memory.go keeps the reference counts right.
use chunk_gate.Prelude.{
  ℕ, ◌≡◌, ◌≢◌, refl, sym, ap, ◌∙◌, subst, inl, inr, true, Option, none, some, List, ◌∷◌, ◌++◌,
  arith, Text, Text_eq, text_eq_iff, Bool-cases,
}
use chunk_gate.Prelude.Int.{ℤ}
use chunk_gate.Prelude.Map.{Map, lookup, delete, lookup-insert}
use chunk_gate.Prelude.Map.Total.{Unique, total, Unique-delete, total-delete, total-ext}
use chunk_gate.Errors.{Error}
use chunk_gate.Metadata.Types.{
  pending, committed, deleted, ObjectManifest, BlockRefCount, MemoryStore, object_key,
  MultipartSession, MultipartPart,
}
use chunk_gate.Metadata.Memory.{
  Blocks, committed_manifest, ensure_tenant, create_pending_object, commit_object, commit_found,
  delete_object, delete_found, forget_blocks, find_live, live, with_id, is_pending,
}
use chunk_gate.Metadata.Sessions.{
  create_multipart_session, save_multipart_part, delete_multipart_session,
}
use chunk_gate.Metadata.Counts.{
  refs, share, refs-decrement_locked, block_at-ensure_tenant, refs-forget_each,
}
use chunk_gate.Metadata.Invariant.{
  Inv, Unindexed, NulFree, separated, held, uses, ids_differ, entry_of_delete, install-Inv,
}

-- The calls that change the store, with what they are given.
pub data Call : Type 0 where
  creates : Option Error → Text → (ℕ → ℕ) → ObjectManifest → Call
  commits : Option Error → (ℕ → ℕ) → Text → ObjectManifest → Call
  deletes : Option Error → (ℕ → ℕ) → Text → Text → Text → Call
  forgets : Option Error → Text → List Text → Call
  creates_session : Option Error → (ℕ → ℕ) → MultipartSession → Call
  saves_part : Option Error → (ℕ → ℕ) → Text → Text → MultipartPart → ℤ → Call
  deletes_session : Option Error → Text → Text → Call

unfoldable pub step : MemoryStore → Call → MemoryStore
step s (creates c random clock m) = (create_pending_object c random clock m s).1
step s (commits c clock id m) = (commit_object c clock id m s).1
step s (deletes c clock t b k) = (delete_object c clock t b k s).1
step s (forgets c t hs) = (forget_blocks c t hs s).1
step s (creates_session c clock x) = (create_multipart_session c clock x s).1
step s (saves_part c clock t id p r) = (save_multipart_part c clock t id p r s).1
step s (deletes_session c t id) = (delete_multipart_session c t id s).1

-- A new id is not in use, and tenants and buckets have no NUL.
abbrev pub Admissible : MemoryStore → Call → Type 0
Admissible s (creates c random clock m) = lookup (with_id random m).id s.objects ≡ none
Admissible s (commits c clock id m) = NulFree m.tenant × NulFree m.bucket
Admissible s (deletes c clock t b k) = NulFree t × NulFree b
Admissible s _ = Unit {0}

-- What the counts depend on: the same index and counts, and the same objects at indexed ids.
pub same_counts :
    (s s' : MemoryStore)
    → Inv s
    → s'.index ≡ s.index
    → ((tenant hash : Text) → refs s'.blocks tenant hash ≡ refs s.blocks tenant hash)
    → ((key id : Text) → lookup key s.index ≡ some id → lookup id s'.objects ≡ lookup id s.objects)
    → Inv s'
unfolding held
same_counts s s' v i r o = record {
  unique = subst Unique (sym i) v.unique;
  counted = λ tenant hash.
      r tenant hash
      ∙ v.counted tenant hash
      ∙ total-ext (held s.objects tenant hash) (held s'.objects tenant hash) s.index v.unique
          (λ key id e. ground (arith, o key id e))
      ∙ ap (λ (x : Map Text Text). total (held s'.objects tenant hash) x) (sym i);
  indexed = λ key id e.
      let e' : lookup key s.index ≡ some id =
        subst (λ (x : Map Text Text). lookup key x ≡ some id) i e in
      let (m, l, st, q, ft, fb) = v.indexed key id e' in (m, o key id e' ∙ l, st, q, ft, fb);
}

pub ensure_counts :
    (blocks : Blocks) (t tenant hash : Text)
    → refs (ensure_tenant blocks t) tenant hash ≡ refs blocks tenant hash
ensure_counts blocks t tenant hash =
    ap (λ (b : BlockRefCount). b.ref_count) (block_at-ensure_tenant blocks t tenant hash)

module _ (s : MemoryStore) (v : Inv s) where
  -- A new object is none of the visible ones.
  pub creates-Inv :
      (random : Text) (clock : ℕ → ℕ) (m : ObjectManifest)
      → lookup (with_id random m).id s.objects ≡ none
      → Inv (create_pending_object none random clock m s).1
  unfolding create_pending_object
  creates-Inv random clock m fresh =
      same_counts s _ v refl (ensure_counts s.blocks m.tenant) λ key id e.
        let (old, l, _, _, _, _) = v.indexed key id e in
        ground (
          arith,
          l,
          fresh,
          text_eq_iff (with_id random m).id id,
          lookup-insert (with_id random m).id id
              (record (with_id random m) {
                state = pending;
                created_at = clock 0;
                updated_at = clock 0;
              })
              s.objects,
        )

  -- A pending object is not visible.
  pub pending-Unindexed :
      (id : Text) (from : ObjectManifest)
      → lookup id s.objects ≡ some from
      → is_pending from.state ≡ true
      → Unindexed s id
  pending-Unindexed id from l p key e =
      let (m, l', st, _, _, _) = v.indexed key id e in
      let same : m ≡ from = cc in ground (arith, same)

  commit_found-Inv :
      (clock : ℕ → ℕ) (id : Text) (m : ObjectManifest) (o : Option ObjectManifest)
      → lookup id s.objects ≡ o
      → NulFree m.tenant
      → NulFree m.bucket
      → Inv (commit_found clock id m o s).1
  unfolding commit_found
  commit_found-Inv clock id m none e ft fb = v
  commit_found-Inv clock id m (some from) e ft fb = elim (Bool-cases (is_pending from.state)) [
    | inl p ↦ rw p (
        install-Inv clock (committed_manifest clock id from m) s v (pending-Unindexed id from e p)
          refl ft fb)
    | inr other ↦ rw other v
  ]

  pub commits-Inv :
      (clock : ℕ → ℕ) (id : Text) (m : ObjectManifest)
      → NulFree m.tenant
      → NulFree m.bucket
      → Inv (commit_object none clock id m s).1
  unfolding commit_object
  commits-Inv clock id m ft fb = commit_found-Inv clock id m (lookup id s.objects) refl ft fb

object_key-injective :
    (t t' b b' k k' : Text)
    → NulFree t
    → NulFree t'
    → object_key t b k ≡ object_key t' b' k'
    → (t ≡ t') × (b ++ 0 ∷ k ≡ b' ++ 0 ∷ k')
unfolding object_key
object_key-injective t t' b b' k k' f f' e = separated t t' _ _ f f' e

-- A deleted object gives its blocks back, and no other entry changes.
module _ (s : MemoryStore) (v : Inv s) (clock : ℕ → ℕ) (t key id : Text) (m : ObjectManifest)
    (e : lookup key s.index ≡ some id) (l : lookup id s.objects ≡ some m) (o : m.tenant ≡ t) where
  abbrev after : MemoryStore
  unfolding delete_found
  after = (delete_found clock t key (some (id, m)) s).1

  kept :
      (k i : Text)
      → lookup k (delete key s.index) ≡ some i
      → lookup i after.objects ≡ lookup i s.objects
  unfolding delete_found
  kept k i d =
      let (d', ne) = entry_of_delete key k i s.index d in
      let differ : id ≢ i = ids_differ s key k id i v e d' ne in
      ground (
        arith,
        differ,
        text_eq_iff id i,
        lookup-insert id i (record m { state = deleted; updated_at = clock 1 }) s.objects,
      )

  held_kept :
      (tenant hash k i : Text)
      → lookup k (delete key s.index) ≡ some i
      → held s.objects tenant hash i ≡ held after.objects tenant hash i
  unfolding held
  held_kept tenant hash k i d = ground (arith, kept k i d)

  held_gone : (tenant hash : Text) → held s.objects tenant hash id ≡ share t tenant hash m.chunks
  unfolding held
  held_gone tenant hash = ground (arith, l, o)

  delete_counted : (tenant hash : Text) → refs after.blocks tenant hash ≡ uses after tenant hash
  unfolding delete_found
  delete_counted tenant hash = ground (
    arith,
    e,
    v.counted tenant hash,
    refs-decrement_locked (clock 0) t tenant hash m.chunks s.blocks,
    total-delete (held s.objects tenant hash) key s.index v.unique,
    total-ext (held s.objects tenant hash) (held after.objects tenant hash) (delete key s.index)
        (Unique-delete key s.index v.unique) (held_kept tenant hash),
    held_gone tenant hash,
  )

  delete_found-Inv : Inv after
  unfolding delete_found
  delete_found-Inv = record {
    unique = Unique-delete key s.index v.unique;
    counted = delete_counted;
    indexed = λ k i d.
        let (m', l', st, q, ft, fb) = v.indexed k i (entry_of_delete key k i s.index d).0 in
        (m', kept k i d ∙ l', st, q, ft, fb);
  }

pub live_lem :
    (objects : Map Text ObjectManifest) (id : Text) (m : ObjectManifest)
    → lookup id objects ≡ some m
    → m.state ≡ committed
    → live objects (some id) ≡ some (id, m)
unfolding live
live_lem objects id m l c = ground (arith, l, c)

module _ (s : MemoryStore) (v : Inv s) where
  delete_live-Inv :
      (clock : ℕ → ℕ) (t b k : Text) (o : Option Text)
      → NulFree t
      → NulFree b
      → lookup (object_key t b k) s.index ≡ o
      → Inv (delete_found clock t (object_key t b k) (live s.objects o) s).1
  unfolding delete_found live
  delete_live-Inv clock t b k none ft fb e = v
  delete_live-Inv clock t b k (some id) ft fb e =
      let (m, l, st, q, ft', fb') = v.indexed (object_key t b k) id e in
      let (same, _) = object_key-injective m.tenant t m.bucket b m.key k ft' ft q in
      subst (λ x. Inv (delete_found clock t (object_key t b k) x s).1)
        (sym (live_lem s.objects id m l st))
        (delete_found-Inv s v clock t (object_key t b k) id m e l same)

  pub deletes-Inv :
      (clock : ℕ → ℕ) (t b k : Text)
      → NulFree t
      → NulFree b
      → Inv (delete_object none clock t b k s).1
  unfolding delete_object find_live
  deletes-Inv clock t b k ft fb =
      delete_live-Inv clock t b k (lookup (object_key t b k) s.index) ft fb refl

  pub forgets-Inv : (t : Text) (hs : List Text) → Inv (forget_blocks none t hs s).1
  unfolding forget_blocks
  forgets-Inv t hs =
      same_counts s _ v refl (λ tenant hash. refs-forget_each t tenant hash hs s.blocks)
        (λ key id e. refl)
