-- ===== src/Gc/Retry.antt =====
-- `DoWithRetry` of internal/backend/retry.go. The n-th attempt of the operation ends in
-- `operation n`; the context answers `ctx.Err()` before it in `canceled n`, and the wait after it in
-- `waiting n`. The length of the waits and the timeout of an attempt's own context are not modelled.
use chunk_gate.Prelude.{
  ℕ, zero, suc, ◌+◌, Bool, true, not, ◌||◌, Option, none, some, nat_eq, if◌then◌else◌,
}
use chunk_gate.Prelude.Int.{ℤ, pos, pos_part, ltb_ℤ, wrap64, ◌+ℤ◌}
use chunk_gate.Errors.{Error}

-- last == nil || retryable == nil || !retryable(last)
unfoldable pub settled : Option (Error → Bool) → Option Error → Bool
settled retryable none = true
settled retryable (some e) = elim retryable [ none ↦ true | some f ↦ not (f e) ]

-- At least one attempt.
unfoldable pub attempts_of : ℤ → ℕ
attempts_of max_retries =
    let attempts = wrap64 (max_retries +ℤ pos 1) in
    if ltb_ℤ attempts (pos 1) then 1 else pos_part attempts

waited : Option Error → ℕ → Option Error × ℕ → Option Error × ℕ
waited (some e) calls rest = (some e, calls)
waited none calls rest = rest

module _ (canceled waiting operation : ℕ → Option Error) (retryable : Option (Error → Bool)) where
  -- The rounds that are left, the attempt, and the last error; the calls made come back too.
  unfoldable pub rounds : ℕ → ℕ → Option Error → Option Error × ℕ
  unfolding settled waited
  rounds zero attempt last = (last, attempt)
  rounds (suc left) attempt last =
      let rest = rounds left (attempt + 1) (operation attempt) in
      elim (canceled attempt) [
        | some e ↦ (some e, attempt)
        | none ↦
            if settled retryable (operation attempt) || nat_eq left 0
            then (operation attempt, attempt + 1)
            else waited (waiting attempt) (attempt + 1) rest
      ]

  unfoldable pub do_with_retry : ℤ → Option Error × ℕ
  do_with_retry max_retries = rounds (attempts_of max_retries) 0 none
