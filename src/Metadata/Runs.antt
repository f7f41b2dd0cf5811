-- ===== src/Metadata/Runs.antt =====
-- Any sequence of calls on the store of internal/metadata/memory.go.
use chunk_gate.Prelude.{ℕ, ◌≡◌, refl, Option, none, some, List, [], ◌∷◌, Text, Text_eq}
use chunk_gate.Prelude.Int.{ℤ}
use chunk_gate.Prelude.Map.{lookup}
use chunk_gate.Prelude.Map.Total.{total}
use chunk_gate.Metadata.Types.{MemoryStore, MultipartSession, MultipartPart}
use chunk_gate.Metadata.Memory.{
  new_memory_store, create_pending_object, commit_object, delete_object, forget_blocks, block_at,
}
use chunk_gate.Metadata.Sessions.{
  create_multipart_session, save_multipart_part, save_found, delete_multipart_session,
  discard_found, find_session,
}
use chunk_gate.Metadata.Counts.{refs}
use chunk_gate.Metadata.Invariant.{Inv, uses}
use chunk_gate.Metadata.Steps.{
  Call, creates, commits, deletes, forgets, creates_session, saves_part, deletes_session, step,
  Admissible, same_counts, ensure_counts, creates-Inv, commits-Inv, deletes-Inv, forgets-Inv,
}

module _ (s : MemoryStore) (v : Inv s) where
  saves-Inv :
      (clock : ℕ → ℕ) (t id : Text) (p : MultipartPart) (r : ℤ) (o : Option MultipartSession)
      → Inv (save_found clock t id p r o s).1
  unfolding save_found
  saves-Inv clock t id p r none = v
  saves-Inv clock t id p r (some x) = same_counts s _ v refl (λ a b. refl) (λ a b c. refl)

  discards-Inv : (t id : Text) (o : Option MultipartSession) → Inv (discard_found t id o s).1
  unfolding discard_found
  discards-Inv t id none = v
  discards-Inv t id (some x) = same_counts s _ v refl (λ a b. refl) (λ a b c. refl)

  -- Each call keeps the reference counts right, also one that fails.
  pub step-Inv : (c : Call) → Admissible s c → Inv (step s c)
  unfolding step create_pending_object commit_object delete_object forget_blocks
      create_multipart_session save_multipart_part delete_multipart_session
  step-Inv (creates none random clock m) a = creates-Inv s v random clock m a
  step-Inv (creates (some e) random clock m) a = v
  step-Inv (commits none clock id m) a = commits-Inv s v clock id m a.0 a.1
  step-Inv (commits (some e) clock id m) a = v
  step-Inv (deletes none clock t b k) a = deletes-Inv s v clock t b k a.0 a.1
  step-Inv (deletes (some e) clock t b k) a = v
  step-Inv (forgets none t hs) a = forgets-Inv s v t hs
  step-Inv (forgets (some e) t hs) a = v
  step-Inv (creates_session none clock x) a =
      same_counts s _ v refl (ensure_counts s.blocks x.tenant) (λ a b c. refl)
  step-Inv (creates_session (some e) clock x) a = v
  step-Inv (saves_part none clock t id p r) a = saves-Inv clock t id p r (find_session s t id)
  step-Inv (saves_part (some e) clock t id p r) a = v
  step-Inv (deletes_session none t id) a = discards-Inv t id (find_session s t id)
  step-Inv (deletes_session (some e) t id) a = v

unfoldable pub run : MemoryStore → List Call → MemoryStore
run s [] = s
run s (c ∷ cs) = run (step s c) cs

abbrev pub AllAdmissible : MemoryStore → List Call → Type 0
AllAdmissible s [] = Unit {0}
AllAdmissible s (c ∷ cs) = Admissible s c × AllAdmissible (step s c) cs

pub run-Inv : (s : MemoryStore) (cs : List Call) → Inv s → AllAdmissible s cs → Inv (run s cs)
unfolding run
run-Inv s [] v a = v
run-Inv s (c ∷ cs) v a = run-Inv (step s c) cs (step-Inv s v c a.0) a.1

pub new-Inv : Inv new_memory_store
unfolding new_memory_store block_at lookup total
new-Inv = record { unique = tt; counted = λ t h. refl; indexed = λ k id e. absurd (cc) }

-- After any calls on a new store, each block's reference count is the number of times that the
-- tenant's visible objects name it. New ids are not in use, and tenants and buckets hold no NUL.
pub run-new-Inv :
    (cs : List Call)
    → AllAdmissible new_memory_store cs
    → (tenant hash : Text)
    → refs (run new_memory_store cs).blocks tenant hash ≡ uses (run new_memory_store cs) tenant hash
run-new-Inv cs a = (run-Inv new_memory_store cs new-Inv a).counted
