-- ===== src/Metadata/Counts.antt =====
-- Reference counts: what the loops of internal/metadata/memory.go do to the count of a block.
use chunk_gate.Prelude.{
  ℕ, ◌+◌, ◌-◌, ◌≡◌, refl, ap, ◌∙◌, ◌&&◌, List, [], ◌∷◌, arith, ◌==◌, Text, Text_eq, text_eq_iff,
  if◌then◌else◌, ltb,
}
use chunk_gate.Prelude.Map.{insert, delete, lookup-insert, lookup-delete}
use chunk_gate.Metadata.Types.{ChunkRef, BlockRefCount}
use chunk_gate.Metadata.Memory.{
  Blocks, tenant_blocks, ensure_tenant, block_at, set_block, increment_one, decrement_one,
  each_chunk, increment_locked, decrement_locked, forget_block, forget_each,
}

abbrev pub refs : Blocks → Text → Text → ℕ
refs blocks tenant hash = (block_at blocks tenant hash).ref_count

-- How often a manifest's chunks name a block.
unfoldable pub occurrences : Text → List ChunkRef → ℕ
occurrences hash [] = 0
occurrences hash (c ∷ cs) = (if c.hash == hash then 1 else 0) + occurrences hash cs

pub block_at-set_block :
    (blocks : Blocks) (t h t' h' : Text) (b : BlockRefCount)
    → block_at (set_block blocks t h b) t' h'
      ≡ (if (t == t') && (h == h') then b else block_at blocks t' h')
unfolding block_at set_block
block_at-set_block blocks t h t' h' b = ground (
  arith,
  lookup-insert t t' (insert h b (tenant_blocks blocks t)) blocks,
  lookup-insert h h' b (tenant_blocks blocks t),
  text_eq_iff t t',
)

pub block_at-ensure_tenant :
    (blocks : Blocks) (t t' h : Text)
    → block_at (ensure_tenant blocks t) t' h ≡ block_at blocks t' h
unfolding block_at ensure_tenant
block_at-ensure_tenant blocks t t' h =
    ground (arith, lookup-insert t t' (tenant_blocks blocks t) blocks, text_eq_iff t t')

-- The amount that a manifest of one tenant contributes to a block of another.
abbrev pub share : Text → Text → Text → List ChunkRef → ℕ
share t t' h cs = if t == t' then occurrences h cs else 0

refs-increments :
    (now : ℕ) (t t' h : Text) (cs : List ChunkRef) (blocks : Blocks)
    → refs (each_chunk (increment_one now t) cs blocks) t' h ≡ refs blocks t' h + share t t' h cs
unfolding each_chunk increment_one occurrences
refs-increments now t t' h [] blocks = ground arith
refs-increments now t t' h (c ∷ cs) blocks = ground (
  arith,
  refs-increments now t t' h cs (increment_one now t blocks c),
  block_at-set_block blocks t c.hash t' h
      (record { size = c.size; ref_count = refs blocks t c.hash + 1; updated_at = now }),
  text_eq_iff t t',
  text_eq_iff c.hash h,
)

refs-decrement_one :
    (now : ℕ) (t t' h : Text) (c : ChunkRef) (blocks : Blocks)
    → refs (decrement_one now t blocks c) t' h ≡ refs blocks t' h - share t t' h (c ∷ [])
unfolding decrement_one occurrences
refs-decrement_one now t t' h c blocks = ground (
  arith,
  block_at-set_block blocks t c.hash t' h (record {
    size = c.size;
    ref_count =
        if ltb 0 (refs blocks t c.hash) then refs blocks t c.hash - 1 else refs blocks t c.hash;
    updated_at = now;
  }),
  text_eq_iff t t',
  text_eq_iff c.hash h,
)

refs-decrements :
    (now : ℕ) (t t' h : Text) (cs : List ChunkRef) (blocks : Blocks)
    → refs (each_chunk (decrement_one now t) cs blocks) t' h ≡ refs blocks t' h - share t t' h cs
unfolding each_chunk occurrences
refs-decrements now t t' h [] blocks = ground arith
refs-decrements now t t' h (c ∷ cs) blocks = ground (
  arith,
  refs-decrements now t t' h cs (decrement_one now t blocks c),
  refs-decrement_one now t t' h c blocks,
)

pub refs-increment_locked :
    (now : ℕ) (t t' h : Text) (cs : List ChunkRef) (blocks : Blocks)
    → refs (increment_locked now t cs blocks) t' h ≡ refs blocks t' h + share t t' h cs
unfolding increment_locked
refs-increment_locked now t t' h cs blocks = omega (
  arith,
  refs-increments now t t' h cs (ensure_tenant blocks t),
  ap (λ (b : BlockRefCount). b.ref_count) (block_at-ensure_tenant blocks t t' h),
)

pub refs-decrement_locked :
    (now : ℕ) (t t' h : Text) (cs : List ChunkRef) (blocks : Blocks)
    → refs (decrement_locked now t cs blocks) t' h ≡ refs blocks t' h - share t t' h cs
unfolding decrement_locked
refs-decrement_locked now t t' h cs blocks = omega (
  arith,
  refs-decrements now t t' h cs (ensure_tenant blocks t),
  ap (λ (b : BlockRefCount). b.ref_count) (block_at-ensure_tenant blocks t t' h),
)

-- Forgetting removes blocks with no references, so no count changes.
refs-forget_block :
    (t t' h h' : Text) (blocks : Blocks) → refs (forget_block t blocks h) t' h' ≡ refs blocks t' h'
unfolding forget_block block_at
refs-forget_block t t' h h' blocks = ground (
  arith,
  lookup-insert t t' (delete h (tenant_blocks blocks t)) blocks,
  lookup-delete h h' (tenant_blocks blocks t),
  text_eq_iff t t',
  text_eq_iff h h',
)

pub refs-forget_each :
    (t t' h : Text) (hs : List Text) (blocks : Blocks)
    → refs (forget_each t hs blocks) t' h ≡ refs blocks t' h
unfolding forget_each
refs-forget_each t t' h [] blocks = refl
refs-forget_each t t' h (x ∷ hs) blocks =
    refs-forget_each t t' h hs (forget_block t blocks x) ∙ refs-forget_block t t' x h blocks
