-- ===== src/Ops/Tests.antt =====
-- The theorems on shutting down, for two uploads and the thread that shuts down.
use chunk_gate.Prelude.{ℕ, ◌<◌, ◌≤◌, ◌≡◌, refl, true, List, [], ◌∷◌, ◌++◌, All, length, arith}
use chunk_gate.Prelude.Threads.{run_threads, advance, sum_of, moves_of}
use chunk_gate.Ops.Drain.{
  new_drain, wait_over, Thread, calling, starting, act, Moves, weight, in_progress,
}
use chunk_gate.Ops.Shutdown.{Outside, run-pending, wait_over-quiet, run-wait_over}

abbrev threads : List Thread
threads = calling ∷ calling ∷ starting ∷ []

threads-Outside : Outside threads
threads-Outside = omega arith

abbrev move : ℕ → ℕ × Unit {0}
move i = (i, tt)

-- The first upload begins, `Start` is called while the second is between its loads, the first ends.
abbrev moves : Moves
moves = move 0 ∷ move 0 ∷ move 0 ∷ move 1 ∷ move 2 ∷ move 0 ∷ []

run-pending_example :
    (run_threads act moves new_drain threads).0.pending
    ≡ sum_of act weight (run_threads act moves new_drain threads).1
run-pending_example = run-pending threads moves threads-Outside

-- The second upload then counts itself, and takes that back.
abbrev later : Moves
later = move 1 ∷ move 1 ∷ move 1 ∷ []

wait_over-quiet_example :
    All
      (λ t. in_progress t ≡ 0)
      (run_threads act later
        (run_threads act moves new_drain threads).0
        (run_threads act moves new_drain threads).1).1
unfolding run_threads advance act
wait_over-quiet_example = wait_over-quiet threads moves later threads-Outside refl refl

abbrev in_turn : Moves
in_turn = move 0 ∷ move 1 ∷ move 2 ∷ []

abbrev four_turns : Moves
four_turns = in_turn ++ (in_turn ++ (in_turn ++ in_turn))

each_often : (i : ℕ) → i < length threads → 4 ≤ moves_of act i four_turns
each_often ℕ.zero h = omega arith
each_often (ℕ.suc ℕ.zero) h = omega arith
each_often (ℕ.suc (ℕ.suc ℕ.zero)) h = omega arith
each_often (ℕ.suc (ℕ.suc (ℕ.suc i))) h = absurd (omega arith)

run-wait_over_example : wait_over (run_threads act four_turns new_drain threads).0 ≡ true
run-wait_over_example = run-wait_over threads four_turns threads-Outside each_often
