-- ===== src/Gc/Deletes.antt =====
-- What a success of `deleteWithRetry` of internal/gc/sweeper.go tells of the backend.
use chunk_gate.Prelude.{
  ℕ, zero, suc, ◌+◌, ◌<◌, ◌≡◌, refl, false, Option, none, some, List, arith, nat_eq, Text, ◌⊎◌,
  Option-cases, inl, inr, subst, ◌∙◌,
}
use chunk_gate.Errors.{Error}
use chunk_gate.Object.Blocks.{BlockStore}
use chunk_gate.Gc.Sweeper.{Sweeper, after_attempt, delete_with_retry, delete_attempts, retries_of}

-- Below the largest `int` of retries there is one more attempt than retries.
delete_attempts_lem :
    (w : Sweeper) → retries_of w < 9223372036854775807 → delete_attempts w ≡ suc (retries_of w)
unfolding delete_attempts
delete_attempts_lem w h = ground arith

not_last : (k : ℕ) → nat_eq (suc k) 0 ≡ false
not_last k = ground arith

module _ {B : Type 0} (blocks : BlockStore B) (tenant : Text) (hashes : List Text) where
  -- From the first backend, at most this many calls of `DeleteBlocks` fail, and the next one succeeds
  -- and leaves the second.
  unfoldable pub DeletesAfter : ℕ → B → B → Type 0
  DeletesAfter zero b b' = blocks.delete_blocks tenant hashes b ≡ (none, b')
  DeletesAfter (suc n) b b' =
      (blocks.delete_blocks tenant hashes b ≡ (none, b'))
      ⊎ ((e : Error) × (b1 : B) × (blocks.delete_blocks tenant hashes b ≡ (some e, b1))
          × DeletesAfter n b1 b')

  at_once :
      (n : ℕ) (b b' : B) → blocks.delete_blocks tenant hashes b ≡ (none, b') → DeletesAfter n b b'
  unfolding DeletesAfter
  at_once zero b b' call = call
  at_once (suc n) b b' call = inl call

  module _ (canceled waiting : ℕ → Option Error) where
    -- The call of an attempt and what may follow it, where what follows is known.
    after_attempt-DeletesAfter :
        (left attempt : ℕ) (next : B → Option Error × B) (b b' : B) (r : Option Error × B)
        → ((k : ℕ) (b2 : B) → left ≡ suc k → next b2 ≡ (none, b') → DeletesAfter k b2 b')
        → blocks.delete_blocks tenant hashes b ≡ r
        → after_attempt blocks canceled waiting tenant hashes left attempt next r ≡ (none, b')
        → DeletesAfter left b b'
    unfolding after_attempt DeletesAfter
    after_attempt-DeletesAfter left attempt next b b' (none, b1) later call e =
        at_once left b b' (call ∙ e)
    after_attempt-DeletesAfter zero attempt next b b' (some x, b1) later call e = absurd (cc)
    after_attempt-DeletesAfter (suc k) attempt next b b' (some x, b1) later call e =
        elim (Option-cases (waiting attempt)) [
          | inl done ↦ inr (x, b1, call, later k b1 refl (rw (not_last k, done) at e))
          | inr (y, stops) ↦ absurd (cc (rw (not_last k, stops) at e))
        ]

    attempt_lem :
        (left attempt : ℕ) (b b' : B)
        → delete_with_retry blocks canceled waiting tenant hashes (suc left) attempt b ≡ (none, b')
        → after_attempt blocks canceled waiting tenant hashes left attempt
            (λ b2. delete_with_retry blocks canceled waiting tenant hashes left (attempt + 1) b2)
            (blocks.delete_blocks tenant hashes b)
          ≡ (none, b')
    unfolding delete_with_retry
    attempt_lem left attempt b b' e = elim (Option-cases (canceled attempt)) [
      | inl live ↦ rw (delete_with_retry, live) at e
      | inr (x, stops) ↦ absurd (cc (rw (delete_with_retry, stops) at e))
    ]

    succeeded :
        (left attempt : ℕ) (b b' : B)
        → delete_with_retry blocks canceled waiting tenant hashes (suc left) attempt b ≡ (none, b')
        → DeletesAfter left b b'
    succeeded zero attempt b b' e =
        after_attempt-DeletesAfter zero attempt _ b b' _ (λ k b2 at. absurd (cc)) refl
          (attempt_lem zero attempt b b' e)
    succeeded (suc left) attempt b b' e =
        after_attempt-DeletesAfter (suc left) attempt _ b b' _
          (λ k b2 at h.
            subst (λ n. DeletesAfter n b2 b') (suc-injective at)
              (succeeded left (attempt + 1) b2 b' h))
          refl (attempt_lem (suc left) attempt b b' e)
      where
        suc-injective : {m n : ℕ} → suc m ≡ suc n → m ≡ n
        suc-injective e = omega (arith, e)

    -- With fewer retries than the largest `int`, `deleteWithRetry` succeeds only if a call of the backend's
    -- `DeleteBlocks` with these hashes succeeds behind calls that fail, at most as many as the retries; what
    -- it leaves is what that call leaves.
    pub delete_with_retry-DeletesAfter :
        (w : Sweeper) (b b' : B)
        → retries_of w < 9223372036854775807
        → delete_with_retry blocks canceled waiting tenant hashes (delete_attempts w) 0 b
          ≡ (none, b')
        → DeletesAfter (retries_of w) b b'
    delete_with_retry-DeletesAfter w b b' h e = succeeded (retries_of w) 0 b b' (
        subst (λ n. delete_with_retry blocks canceled waiting tenant hashes n 0 b ≡ (none, b'))
          (delete_attempts_lem w h) e)
