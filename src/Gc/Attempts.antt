-- ===== src/Gc/Attempts.antt =====
-- How often `DoWithRetry` of internal/backend/retry.go calls the operation, and what it returns.
use chunk_gate.Prelude.{
  ℕ, zero, suc, ◌+◌, ◌≤◌, ◌<◌, ◌≡◌, refl, ◌⊎◌, inl, inr, Bool, true, false, Option, none, nat_eq,
  arith, Bool-cases, nat_eq_iff, subst, sym,
}
use chunk_gate.Prelude.Int.{ℤ}
use chunk_gate.Errors.{Error}
use chunk_gate.Gc.Retry.{settled, rounds, attempts_of, do_with_retry}

abbrev pub live : ℕ → Option Error
live n = none

module _ (operation : ℕ → Option Error) (retryable : Option (Error → Bool)) where
  -- Some attempt decides: the result is its, all before it failed and may be retried, and it is the
  -- last that is allowed or settles the matter.
  pub record Settles (from allowed : ℕ) (p : Option Error × ℕ) : Type 0 where
    pub decisive : ℕ
    pub result : p ≡ (operation decisive, decisive + 1)
    pub more : from ≤ decisive
    pub fewer : decisive < allowed
    pub retried : (k : ℕ) → from ≤ k → k < decisive → settled retryable (operation k) ≡ false
    pub enough : (decisive + 1 ≡ allowed) ⊎ (settled retryable (operation decisive) ≡ true)

  one-Settles :
      (attempt allowed : ℕ)
      → attempt < allowed
      → (attempt + 1 ≡ allowed) ⊎ (settled retryable (operation attempt) ≡ true)
      → Settles attempt allowed (operation attempt, attempt + 1)
  one-Settles attempt allowed h e = record {
    decisive = attempt;
    result = refl;
    more = omega arith;
    fewer = h;
    retried = λ k p q. absurd (omega arith);
    enough = e;
  }

  -- One attempt that failed and may be retried, before.
  later-Settles :
      (attempt allowed : ℕ) (p : Option Error × ℕ)
      → settled retryable (operation attempt) ≡ false
      → Settles (attempt + 1) allowed p
      → Settles attempt allowed p
  later-Settles attempt allowed p f s = record {
    decisive = s.decisive;
    result = s.result;
    more = omega (arith, s.more);
    fewer = s.fewer;
    retried = λ k low high. elim (Bool-cases (nat_eq k attempt)) [
      | inl same ↦
          subst (λ k. settled retryable (operation k) ≡ false) (sym ((nat_eq_iff k attempt).0 same))
            f
      | inr differ ↦ s.retried k (ground arith) high
    ];
    enough = s.enough;
  }

  rounds-Settles :
      (left attempt : ℕ) (last : Option Error)
      → Settles attempt
          (attempt + suc left)
          (rounds live live operation retryable (suc left) attempt last)
  unfolding rounds
  rounds-Settles zero attempt last = elim (Bool-cases (settled retryable (operation attempt))) [
    | inl s ↦ rw s (one-Settles attempt (attempt + 1) (omega arith) (inr s))
    | inr f ↦ rw f (one-Settles attempt (attempt + 1) (omega arith) (inl refl))
  ]
  rounds-Settles (suc left) attempt last =
      elim (Bool-cases (settled retryable (operation attempt))) [
        | inl s ↦ rw s (one-Settles attempt (attempt + suc (suc left)) (omega arith) (inr s))
        | inr f ↦
            rw (f, not_last)
              (later-Settles attempt (attempt + suc (suc left)) _ f (
                subst
                  (λ n. Settles (attempt + 1) n (
                    rounds live live operation retryable (suc left) (attempt + 1)
                      (operation attempt)))
                  count (rounds-Settles left (attempt + 1) (operation attempt))))
      ]
    where
      not_last : nat_eq (suc left) 0 ≡ false
      not_last = ground arith

      count : attempt + 1 + suc left ≡ attempt + suc (suc left)
      count = omega arith

  attempts_of-pos : (max_retries : ℤ) → 1 ≤ attempts_of max_retries
  unfolding attempts_of
  attempts_of-pos max_retries = ground arith

  -- Under a live context `DoWithRetry` makes at least one attempt and at most the allowed number:
  -- it returns what the first attempt gives that succeeds or may not be retried, or else the last.
  pub do_with_retry-Settles :
      (max_retries : ℤ)
      → Settles 0
          (attempts_of max_retries)
          (do_with_retry live live operation retryable max_retries)
  unfolding do_with_retry
  do_with_retry-Settles max_retries = go (attempts_of max_retries) (attempts_of-pos max_retries)
    where
      go : (n : ℕ) → 1 ≤ n → Settles 0 n (rounds live live operation retryable n 0 none)
      go zero h = absurd (omega arith)
      go (suc n) h =
          subst (λ k. Settles 0 k (rounds live live operation retryable (suc n) 0 none))
            (omega arith) (rounds-Settles n 0 none)
