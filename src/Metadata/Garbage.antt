-- ===== src/Metadata/Garbage.antt =====
-- What the garbage collector is told to delete, by internal/metadata/memory.go, is not in use.
use chunk_gate.Prelude.{
  ℕ, ◌≤◌, ◌≡◌, refl, sym, ◌∙◌, subst, inl, inr, ◌&&◌, Option, none, some, List, [], ◌∷◌, arith,
  ◌==◌, Text, Text_eq, Bool-cases, All, take, zero, suc, nat_eq, leb,
}
use chunk_gate.Prelude.Int.{ℤ}
use chunk_gate.Prelude.Map.{Map, lookup, insert, lookup-insert}
use chunk_gate.Prelude.Map.Total.{Unique, Unique-insert, Unique-delete, lookup-head, lookup-tail}
use chunk_gate.Errors.{ok}
use chunk_gate.Metadata.Types.{
  ChunkRef, ObjectManifest, BlockRef, BlockRefCount, MemoryStore, MultipartSession, MultipartPart,
}
use chunk_gate.Metadata.Memory.{
  Blocks, new_memory_store, tenant_blocks, ensure_tenant, set_block, create_pending_object,
  commit_object, delete_object, forget_blocks, block_at, unreferenced,
  list_unreferenced_blocks_older_than, limit_or, forget_block, forget_each, increment_one,
  decrement_one, each_chunk, increment_locked, decrement_locked,
}
use chunk_gate.Metadata.Memory.{commit_found, install, is_pending, retire, key_of, delete_found}
use chunk_gate.Metadata.Sessions.{
  create_multipart_session, save_multipart_part, save_found, delete_multipart_session,
  discard_found, find_session,
}
use chunk_gate.Metadata.Steps.{
  Call, creates, commits, deletes, forgets, creates_session, saves_part, deletes_session, step,
}
use chunk_gate.Metadata.Runs.{run, AllAdmissible, run-Inv, new-Inv}
use chunk_gate.Metadata.Invariant.{Inv, uses}

abbrev pub UniqueBlocks : Blocks → Type 0
UniqueBlocks blocks = (tenant : Text) → Unique (tenant_blocks blocks tenant)

module _ (blocks : Blocks) (u : UniqueBlocks blocks) (t : Text) where
  insert-UniqueBlocks : (m : Map Text BlockRefCount) → Unique m → UniqueBlocks (insert t m blocks)
  insert-UniqueBlocks m um t' = elim (Bool-cases (t == t')) [
    | inl hit ↦ rw (lookup-insert t t' m blocks, hit) um
    | inr miss ↦ rw (lookup-insert t t' m blocks, miss) (u t')
  ]

  ensure-UniqueBlocks : UniqueBlocks (ensure_tenant blocks t)
  unfolding ensure_tenant
  ensure-UniqueBlocks = insert-UniqueBlocks (tenant_blocks blocks t) (u t)

  set-UniqueBlocks : (h : Text) (b : BlockRefCount) → UniqueBlocks (set_block blocks t h b)
  unfolding set_block
  set-UniqueBlocks h b = insert-UniqueBlocks _ (Unique-insert h b (tenant_blocks blocks t) (u t))

each-UniqueBlocks :
    (f : Blocks → ChunkRef → Blocks) (cs : List ChunkRef) (blocks : Blocks)
    → ((b : Blocks) (c : ChunkRef) → UniqueBlocks b → UniqueBlocks (f b c))
    → UniqueBlocks blocks
    → UniqueBlocks (each_chunk f cs blocks)
unfolding each_chunk
each-UniqueBlocks f [] blocks h u = u
each-UniqueBlocks f (c ∷ cs) blocks h u = each-UniqueBlocks f cs (f blocks c) h (h blocks c u)

increments-UniqueBlocks :
    (now : ℕ) (t : Text) (cs : List ChunkRef) (blocks : Blocks)
    → UniqueBlocks blocks
    → UniqueBlocks (increment_locked now t cs blocks)
unfolding increment_locked increment_one
increments-UniqueBlocks now t cs blocks u =
    each-UniqueBlocks (increment_one now t) cs _ (λ b c ub. set-UniqueBlocks b ub t c.hash _)
      (ensure-UniqueBlocks blocks u t)

decrements-UniqueBlocks :
    (now : ℕ) (t : Text) (cs : List ChunkRef) (blocks : Blocks)
    → UniqueBlocks blocks
    → UniqueBlocks (decrement_locked now t cs blocks)
unfolding decrement_locked decrement_one
decrements-UniqueBlocks now t cs blocks u =
    each-UniqueBlocks (decrement_one now t) cs _ (λ b c ub. set-UniqueBlocks b ub t c.hash _)
      (ensure-UniqueBlocks blocks u t)

-- A listed block is one of the map, with no reference and not younger than the cutoff.
abbrev Listed : ℕ → Map Text BlockRefCount → BlockRef → Type 0
Listed before m r =
    (b : BlockRefCount) × (lookup r.hash m ≡ some b) × (b.ref_count ≡ 0) × (b.updated_at ≤ before)

Listed-tail :
    (before : ℕ) (at : Text) (value : BlockRefCount) (m : Map Text BlockRefCount)
    (rs : List BlockRef)
    → lookup at m ≡ none
    → All (Listed before m) rs
    → All (Listed before ((at, value) ∷ m)) rs
Listed-tail before at value m [] n a = tt
Listed-tail before at value m (r ∷ rs) n a =
    let (b, l, z, old) = a.0 in
    ((b, lookup-tail r.hash at value b m n l, z, old), Listed-tail before at value m rs n a.1)

unreferenced-Listed :
    (before : ℕ) (m : Map Text BlockRefCount)
    → Unique m
    → All (Listed before m) (unreferenced before m)
unfolding unreferenced
unreferenced-Listed before [] u = tt
unreferenced-Listed before ((h, b) ∷ m) u =
    let rest =
      Listed-tail before h b m (unreferenced before m) u.0 (unreferenced-Listed before m u.1) in
    elim (Bool-cases (nat_eq b.ref_count 0 && leb b.updated_at before)) [
      | inl free ↦ rw free ((b, lookup-head h b m, ground arith, ground arith), rest)
      | inr held ↦ rw held rest
    ]

All-take : (P : BlockRef → Type 0) (n : ℕ) (rs : List BlockRef) → All P rs → All P (take n rs)
All-take P zero rs a = tt
All-take P (suc n) [] a = tt
All-take P (suc n) (r ∷ rs) a = (a.0, All-take P n rs a.1)

All-map :
    (P Q : BlockRef → Type 0) (rs : List BlockRef)
    → ((r : BlockRef) → P r → Q r)
    → All P rs
    → All Q rs
All-map P Q [] f a = tt
All-map P Q (r ∷ rs) f a = (f r a.0, All-map P Q rs f a.1)

forget-UniqueBlocks :
    (t : Text) (hs : List Text) (blocks : Blocks)
    → UniqueBlocks blocks
    → UniqueBlocks (forget_each t hs blocks)
unfolding forget_each forget_block
forget-UniqueBlocks t [] blocks u = u
forget-UniqueBlocks t (h ∷ hs) blocks u =
    forget-UniqueBlocks t hs _ (one (lookup h (tenant_blocks blocks t)) refl)
  where
    one :
        (o : Option BlockRefCount)
        → lookup h (tenant_blocks blocks t) ≡ o
        → UniqueBlocks (forget_block t blocks h)
    one none e = rw (e, forget_block) u
    one (some b) e = elim (Bool-cases (nat_eq b.ref_count 0)) [
      | inl free ↦
          rw (e, forget_block, free)
            (insert-UniqueBlocks blocks u t _ (Unique-delete h (tenant_blocks blocks t) (u t)))
      | inr held ↦ rw (e, forget_block, held) u
    ]

commit_found-UniqueBlocks :
    (clock : ℕ → ℕ) (id : Text) (m : ObjectManifest) (o : Option ObjectManifest) (s : MemoryStore)
    → UniqueBlocks s.blocks
    → UniqueBlocks (commit_found clock id m o s).1.blocks
unfolding commit_found install
commit_found-UniqueBlocks clock id m none s u = u
commit_found-UniqueBlocks clock id m (some from) s u = elim (Bool-cases (is_pending from.state)) [
  | inl p ↦ rw p (
      increments-UniqueBlocks (clock 2) m.tenant m.chunks _
        (ensure-UniqueBlocks _ (retired (lookup (key_of m) s.index)) m.tenant))
  | inr other ↦ rw other u
]
  where
    retired : (o : Option Text) → UniqueBlocks (retire clock (clock 0) o s).blocks
    retired none = unfold retire in u
    retired (some old) = unfold retire in decrements-UniqueBlocks (clock 1) _ _ s.blocks u

module _ (s : MemoryStore) (u : UniqueBlocks s.blocks) where
  deleted-UniqueBlocks :
      (clock : ℕ → ℕ) (t key : Text) (o : Option (Text × ObjectManifest))
      → UniqueBlocks (delete_found clock t key o s).1.blocks
  unfolding delete_found
  deleted-UniqueBlocks clock t key none = u
  deleted-UniqueBlocks clock t key (some (id, m)) =
      decrements-UniqueBlocks (clock 0) t m.chunks s.blocks u

  saved-UniqueBlocks :
      (clock : ℕ → ℕ) (t id : Text) (p : MultipartPart) (r : ℤ) (o : Option MultipartSession)
      → UniqueBlocks (save_found clock t id p r o s).1.blocks
  unfolding save_found
  saved-UniqueBlocks clock t id p r none = u
  saved-UniqueBlocks clock t id p r (some x) = u

  discarded-UniqueBlocks :
      (t id : Text) (o : Option MultipartSession) → UniqueBlocks (discard_found t id o s).1.blocks
  unfolding discard_found
  discarded-UniqueBlocks t id none = u
  discarded-UniqueBlocks t id (some x) = u

  step-UniqueBlocks : (c : Call) → UniqueBlocks (step s c).blocks
  unfolding step create_pending_object commit_object delete_object forget_blocks
      create_multipart_session save_multipart_part delete_multipart_session
  step-UniqueBlocks (creates none random clock m) = ensure-UniqueBlocks s.blocks u m.tenant
  step-UniqueBlocks (creates (some e) random clock m) = u
  step-UniqueBlocks (commits none clock id m) =
      commit_found-UniqueBlocks clock id m (lookup id s.objects) s u
  step-UniqueBlocks (commits (some e) clock id m) = u
  step-UniqueBlocks (deletes none clock t b k) = deleted-UniqueBlocks clock t _ _
  step-UniqueBlocks (deletes (some e) clock t b k) = u
  step-UniqueBlocks (forgets none t hs) = forget-UniqueBlocks t hs s.blocks u
  step-UniqueBlocks (forgets (some e) t hs) = u
  step-UniqueBlocks (creates_session none clock x) = ensure-UniqueBlocks s.blocks u x.tenant
  step-UniqueBlocks (creates_session (some e) clock x) = u
  step-UniqueBlocks (saves_part none clock t id p r) =
      saved-UniqueBlocks clock t id p r (find_session s t id)
  step-UniqueBlocks (saves_part (some e) clock t id p r) = u
  step-UniqueBlocks (deletes_session none t id) = discarded-UniqueBlocks t id (find_session s t id)
  step-UniqueBlocks (deletes_session (some e) t id) = u

run-UniqueBlocks :
    (s : MemoryStore) (cs : List Call) → UniqueBlocks s.blocks → UniqueBlocks (run s cs).blocks
unfolding run
run-UniqueBlocks s [] u = u
run-UniqueBlocks s (c ∷ cs) u = run-UniqueBlocks (step s c) cs (step-UniqueBlocks s u c)

-- Every block that the store lists for deletion is named by no visible object of the tenant.
pub listed-unused :
    (s : MemoryStore) (tenant : Text) (before : ℕ) (limit : ℤ) (rs : List BlockRef)
    → Inv s
    → UniqueBlocks s.blocks
    → (list_unreferenced_blocks_older_than none tenant before limit s).0 ≡ ok rs
    → All (λ r. uses s tenant r.hash ≡ 0) rs
unfolding list_unreferenced_blocks_older_than block_at
listed-unused s tenant before limit rs v u e = subst (All (λ r. uses s tenant r.hash ≡ 0)) listed (
    All-map (Listed before (tenant_blocks s.blocks tenant)) _ _
      (λ r (b, l, z, _). sym (v.counted tenant r.hash) ∙ ground (arith, l, z))
      (All-take _ (limit_or limit) _ (unreferenced-Listed before _ (u tenant))))
  where
    listed : take (limit_or limit) (unreferenced before (tenant_blocks s.blocks tenant)) ≡ rs
    listed = cc

-- So after any calls on a new store, the garbage collector is never told to delete a block that a
-- visible object of the tenant names.
pub run-listed-unused :
    (cs : List Call) (tenant : Text) (before : ℕ) (limit : ℤ) (rs : List BlockRef)
    → AllAdmissible new_memory_store cs
    → (list_unreferenced_blocks_older_than none tenant before limit (run new_memory_store cs)).0
      ≡ ok rs
    → All (λ r. uses (run new_memory_store cs) tenant r.hash ≡ 0) rs
unfolding new_memory_store lookup
run-listed-unused cs tenant before limit rs a e =
    listed-unused (run new_memory_store cs) tenant before limit rs
      (run-Inv new_memory_store cs new-Inv a) (run-UniqueBlocks new_memory_store cs (λ t. tt)) e
