-- ===== src/Metadata/View.antt =====
-- The store of internal/metadata/memory.go as a map from keys to manifests.
use chunk_gate.Prelude.{
  ℕ, ◌≡◌, ◌≢◌, refl, ap, ◌∙◌, inl, inr, Option, none, some, arith, ◌==◌, Text, Text_eq, text_eq_iff,
  if◌then◌else◌, Bool-cases,
}
use chunk_gate.Prelude.Map.{Map, lookup, insert, lookup-insert, lookup-delete}
use chunk_gate.Metadata.Types.{committed, deleted, ObjectManifest, MemoryStore}
use chunk_gate.Metadata.Memory.{key_of, install, find_live, live, delete_found}
use chunk_gate.Metadata.Invariant.{
  Inv, Unindexed, retired, stored, stored_self, same_index, others_kept, ids_differ,
}
use chunk_gate.Metadata.Steps.{live_lem}

live_same :
    (objects objects' : Map Text ObjectManifest) (o : Option Text)
    → ((id : Text) → o ≡ some id → lookup id objects' ≡ lookup id objects)
    → live objects' o ≡ live objects o
unfolding live
live_same objects objects' none h = refl
live_same objects objects' (some id) h = ground (arith, h id refl)

-- A committed manifest is what its key now leads to, and every other key leads where it did. The
-- counts are right, and the manifest's id is not that of a visible object.
pub find_live-install :
    (clock : ℕ → ℕ) (m : ObjectManifest) (s : MemoryStore) (k : Text)
    → Inv s
    → Unindexed s m.id
    → m.state ≡ committed
    → find_live (install clock m s) k ≡ (if key_of m == k then some (m.id, m) else find_live s k)
unfolding find_live install
find_live-install clock m s k v u c = elim (Bool-cases (key_of m == k)) [
  | inl hit ↦ rw hit (
      ap (live (stored clock m s v u))
        (entry ∙ ap (λ b. if b then some m.id else lookup k s.index) hit)
      ∙ live_lem _ m.id m (stored_self clock m s v u) c)
  | inr miss ↦ rw miss (
      ap (live (stored clock m s v u))
        (entry ∙ ap (λ b. if b then some m.id else lookup k s.index) miss)
      ∙ live_same s.objects (stored clock m s v u) (lookup k s.index) (λ id e.
        others_kept clock m s v u k id
          (ground (arith, e, miss, lookup-delete (key_of m) k s.index))))
]
  where
    entry :
        lookup k (insert (key_of m) m.id (retired clock m s v u).index)
        ≡ (if key_of m == k then some m.id else lookup k s.index)
    entry =
        ap (λ (i : Map Text Text). lookup k (insert (key_of m) m.id i)) (same_index clock m s v u)
        ∙ lookup-insert (key_of m) k m.id s.index

-- After a delete its key leads nowhere, and every other key leads where it did. The counts are
-- right, and the key leads to the object that is deleted.
pub find_live-delete :
    (clock : ℕ → ℕ) (t key id k : Text) (m : ObjectManifest) (s : MemoryStore)
    → Inv s
    → find_live s key ≡ some (id, m)
    → find_live (delete_found clock t key (some (id, m)) s).1 k
      ≡ (if key == k then none else find_live s k)
unfolding find_live delete_found
find_live-delete clock t key id k m s v f = elim (Bool-cases (key == k)) [
  | inl hit ↦ rw (lookup-delete key k s.index, hit) (unfold live in refl)
  | inr miss ↦
      rw (lookup-delete key k s.index, miss)
        (live_same s.objects _ (lookup k s.index) λ i e.
          let differ : id ≢ i =
            ids_differ s key k id i v (entry_of_live (lookup key s.index) f) e
              (λ same. ground (arith, same, miss, text_eq_iff key k)) in
          ground (
            arith,
            differ,
            text_eq_iff id i,
            lookup-insert id i (record m { state = deleted; updated_at = clock 1 }) s.objects,
          ))
]
  where
    entry_of_live : (o : Option Text) → live s.objects o ≡ some (id, m) → o ≡ some id
    entry_of_live none e = unfold live in cc e
    entry_of_live (some i) e = unfold live in ground (arith, e)
