-- ===== src/Ops/Shutdown.antt =====
-- Shutting down by the `Drain` of internal/ops/drain.go.
use chunk_gate.Prelude.{
  ℕ, ◌+◌, ◌-◌, ◌≤◌, ◌<◌, ◌≡◌, refl, sym, ◌∙◌, true, List, [], ◌∷◌, All, length, arith, nat_eq_iff,
}
use chunk_gate.Prelude.Threads.{
  run_threads, run_threads-All, sum_of, run_threads-sum_of, moves_of, run_threads-ends,
}
use chunk_gate.Ops.Drain.{
  Drain, new_drain, wait_over, Thread, calling, passed, counted, undoing, refused, begun, ended,
  starting, started, act, Moves, weight, in_progress, left,
}

act-weight :
    (u : Unit {0}) (d : Drain) (t : Thread)
    → weight t ≤ d.pending
    → (act u d t).0.pending + weight t ≡ d.pending + weight (act u d t).1
unfolding act
act-weight u d calling h = ground arith
act-weight u d passed h = omega arith
act-weight u d counted h = ground arith
act-weight u d undoing h = omega arith
act-weight u d refused h = omega arith
act-weight u d begun h = omega arith
act-weight u d ended h = omega arith
act-weight u d starting h = omega arith
act-weight u d started h = omega arith

act-left : (u : Unit {0}) (d : Drain) (t : Thread) → left (act u d t).1 ≤ left t - 1
unfolding act
act-left u d calling = ground arith
act-left u d passed = omega arith
act-left u d counted = ground arith
act-left u d undoing = omega arith
act-left u d refused = omega arith
act-left u d begun = omega arith
act-left u d ended = omega arith
act-left u d starting = omega arith
act-left u d started = omega arith

act-quiet :
    (u : Unit {0}) (d : Drain) (t : Thread)
    → d.draining ≡ true
    → in_progress t ≡ 0
    → ((act u d t).0.draining ≡ true) × (in_progress (act u d t).1 ≡ 0)
unfolding act
act-quiet u d calling e h = rw e (refl, refl)
act-quiet u d passed e h = (e, refl)
act-quiet u d counted e h = rw e (refl, refl)
act-quiet u d undoing e h = (e, refl)
act-quiet u d refused e h = (e, refl)
act-quiet u d begun e h = absurd (omega arith)
act-quiet u d ended e h = (e, refl)
act-quiet u d starting e h = (refl, refl)
act-quiet u d started e h = (e, refl)

no_weight : (ts : List Thread) → All (λ t. weight t ≡ 0) ts → sum_of act weight ts ≡ 0
no_weight [] h = refl
no_weight (t ∷ ts) h = omega (arith, h.0, no_weight ts h.1)

quiet : (t : Thread) → weight t ≡ 0 → in_progress t ≡ 0
quiet calling e = refl
quiet passed e = refl
quiet counted e = refl
quiet undoing e = refl
quiet refused e = refl
quiet begun e = e
quiet ended e = refl
quiet starting e = refl
quiet started e = refl

weightless : (ts : List Thread) → sum_of act weight ts ≡ 0 → All (λ t. in_progress t ≡ 0) ts
weightless [] h = tt
weightless (t ∷ ts) h = (quiet t (omega (arith, h)), weightless ts (omega (arith, h)))

ended_weight : (t : Thread) → left t ≡ 0 → weight t ≡ 0
ended_weight calling e = refl
ended_weight passed e = refl
ended_weight counted e = absurd (omega arith)
ended_weight undoing e = e
ended_weight refused e = refl
ended_weight begun e = e
ended_weight ended e = refl
ended_weight starting e = refl
ended_weight started e = refl

-- Threads that are no uploads between `Begin` and its end.
abbrev pub Outside : List Thread → Type 0
Outside ts = All (λ t. weight t ≡ 0) ts

-- After any interleaving of calls of `Begin`, of the ends of their uploads and of `Start`, the counter
-- of the group is the number of uploads that it counts. No upload is under way at first.
pub run-pending :
    (ts : List Thread) (moves : Moves)
    → Outside ts
    → (run_threads act moves new_drain ts).0.pending
      ≡ sum_of act weight (run_threads act moves new_drain ts).1
run-pending ts moves h =
    run_threads-sum_of act (λ d. d.pending) weight act-weight moves new_drain ts
      (sym (no_weight ts h))

-- Where at some moment `Start` was called and the counter is 0, so that `Wait` returns, no upload is in
-- progress from then on, however the threads go on. No upload is under way at first.
pub wait_over-quiet :
    (ts : List Thread) (moves later : Moves)
    → Outside ts
    → (run_threads act moves new_drain ts).0.draining ≡ true
    → wait_over (run_threads act moves new_drain ts).0 ≡ true
    → All
        (λ t. in_progress t ≡ 0)
        (run_threads act later
          (run_threads act moves new_drain ts).0
          (run_threads act moves new_drain ts).1).1
wait_over-quiet ts moves later h starts waits =
    let (d, us) = run_threads act moves new_drain ts in
    (run_threads-All act (λ d. d.draining ≡ true) (λ t. in_progress t ≡ 0) act-quiet later
      (run_threads act moves new_drain ts).0 (run_threads act moves new_drain ts).1 starts
      (weightless (run_threads act moves new_drain ts).1 (
        sym (run-pending ts moves h)
        ∙ (nat_eq_iff (run_threads act moves new_drain ts).0.pending 0).0 waits))).1

all_ended : (ts : List Thread) → All (λ t. left t ≡ 0) ts → Outside ts
all_ended [] h = tt
all_ended (t ∷ ts) h = (ended_weight t h.0, all_ended ts h.1)

at_most_four : (ts : List Thread) → All (λ t. left t ≤ 4) ts
at_most_four [] = tt
at_most_four (t ∷ ts) = (most t, at_most_four ts)
  where
    most : (t : Thread) → left t ≤ 4
    most calling = omega arith
    most passed = omega arith
    most counted = omega arith
    most undoing = omega arith
    most refused = omega arith
    most begun = omega arith
    most ended = omega arith
    most starting = omega arith
    most started = omega arith

-- Where each thread makes at least four moves, `Wait` returns at the end. No upload is under way at first.
pub run-wait_over :
    (ts : List Thread) (moves : Moves)
    → Outside ts
    → ((i : ℕ) → i < length ts → 4 ≤ moves_of act i moves)
    → wait_over (run_threads act moves new_drain ts).0 ≡ true
run-wait_over ts moves h often = (nat_eq_iff (run_threads act moves new_drain ts).0.pending 0).1 (
    run-pending ts moves h
    ∙ no_weight (run_threads act moves new_drain ts).1 (
        all_ended (run_threads act moves new_drain ts).1
          (run_threads-ends act left act-left 4 moves new_drain ts (at_most_four ts) often)))
