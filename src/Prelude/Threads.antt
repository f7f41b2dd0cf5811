-- ===== src/Prelude/Threads.antt =====
-- Threads on a shared state: a schedule says which thread moves, and what it meets from outside.
use Prim.Native.Nat.{ℕ, zero, suc, ◌+◌, ◌-◌, ◌≤◌, ◌<◌}
use mathlib.Core.Path.{◌≡◌, refl}
use mathlib.Core.Logic.{inl, inr}
use mathlib.Core.List.{List, [], ◌∷◌}
use native.Mathlib.Omega.{arith}
use chunk_gate.Prelude.Tests.{nat_eq, ltb, Bool-cases, if◌then◌else◌}
use chunk_gate.Prelude.Lists.{All, length}

module _ {S T E : Type 0} (act : E → S → T → S × T) where
  -- One action of the thread at a place; where none is, nothing moves.
  unfoldable pub advance : ℕ → E → S → List T → S × List T
  advance i e s [] = (s, [])
  advance zero e s (t ∷ ts) = let (s', t') = act e s t in (s', t' ∷ ts)
  advance (suc i) e s (t ∷ ts) = let (s', ts') = advance i e s ts in (s', t ∷ ts')

  unfoldable pub run_threads : List (ℕ × E) → S → List T → S × List T
  unfolding advance
  run_threads [] s ts = (s, ts)
  run_threads ((i, e) ∷ moves) s ts = let (s', ts') = advance i e s ts in run_threads moves s' ts'

  -- What each action keeps of the state and of its thread, all runs keep.
  module _ (P : S → Type 0) (Q : T → Type 0)
      (keeps : (e : E) (s : S) (t : T) → P s → Q t → P (act e s t).0 × Q (act e s t).1) where
    advance-All :
        (i : ℕ) (e : E) (s : S) (ts : List T)
        → P s
        → All Q ts
        → P (advance i e s ts).0 × All Q (advance i e s ts).1
    unfolding advance
    advance-All i e s [] p q = (p, q)
    advance-All zero e s (t ∷ ts) p q = let (p', q') = keeps e s t p q.0 in (p', (q', q.1))
    advance-All (suc i) e s (t ∷ ts) p q =
        let (p', q') = advance-All i e s ts p q.1 in (p', (q.0, q'))

    pub run_threads-All :
        (moves : List (ℕ × E)) (s : S) (ts : List T)
        → P s
        → All Q ts
        → P (run_threads moves s ts).0 × All Q (run_threads moves s ts).1
    unfolding run_threads
    run_threads-All [] s ts p q = (p, q)
    run_threads-All ((i, e) ∷ moves) s ts p q =
        let (p', q') = advance-All i e s ts p q in
        run_threads-All moves (advance i e s ts).0 (advance i e s ts).1 p' q'

  abbrev pub sum_of : (T → ℕ) → List T → ℕ
  sum_of weight [] = 0
  sum_of weight (t ∷ ts) = weight t + sum_of weight ts

  -- A counter that each action changes as it changes the weight of its thread is the sum of the weights.
  module _ (counter : S → ℕ) (weight : T → ℕ)
      (moves_with : (e : E) (s : S) (t : T)
        → weight t ≤ counter s
        → counter (act e s t).0 + weight t ≡ counter s + weight (act e s t).1) where
    advance-sum_of :
        (i : ℕ) (e : E) (s : S) (ts : List T)
        → sum_of weight ts ≤ counter s
        → counter (advance i e s ts).0 + sum_of weight ts
          ≡ counter s + sum_of weight (advance i e s ts).1
    unfolding advance
    advance-sum_of i e s [] h = omega arith
    advance-sum_of zero e s (t ∷ ts) h = omega (arith, moves_with e s t (omega (arith, h)))
    advance-sum_of (suc i) e s (t ∷ ts) h =
        omega (arith, advance-sum_of i e s ts (omega (arith, h)))

    pub run_threads-sum_of :
        (moves : List (ℕ × E)) (s : S) (ts : List T)
        → counter s ≡ sum_of weight ts
        → counter (run_threads moves s ts).0 ≡ sum_of weight (run_threads moves s ts).1
    unfolding run_threads
    run_threads-sum_of [] s ts h = h
    run_threads-sum_of ((i, e) ∷ moves) s ts h =
        run_threads-sum_of moves (advance i e s ts).0 (advance i e s ts).1
          (omega (arith, h, advance-sum_of i e s ts (omega (arith, h))))

  -- How often a thread moves.
  abbrev pub moves_of : ℕ → List (ℕ × E) → ℕ
  moves_of i [] = 0
  moves_of i ((j, e) ∷ moves) = (if nat_eq i j then 1 else 0) + moves_of i moves

  -- Threads that have a number of actions left.
  module _ (left : T → ℕ) (ends : (e : E) (s : S) (t : T) → left (act e s t).1 ≤ left t - 1) where
    abbrev left_at : ℕ → List T → ℕ
    left_at i [] = 0
    left_at zero (t ∷ ts) = left t
    left_at (suc i) (t ∷ ts) = left_at i ts

    advance-left_at :
        (i j : ℕ) (e : E) (s : S) (ts : List T)
        → left_at i (advance j e s ts).1 ≤ left_at i ts - (if nat_eq i j then 1 else 0)
    unfolding advance
    advance-left_at i j e s [] = omega arith
    advance-left_at zero zero e s (t ∷ ts) = ends e s t
    advance-left_at (suc i) zero e s (t ∷ ts) = ground arith
    advance-left_at zero (suc j) e s (t ∷ ts) = ground arith
    advance-left_at (suc i) (suc j) e s (t ∷ ts) = ground (arith, advance-left_at i j e s ts)

    run_threads-left_at :
        (i : ℕ) (moves : List (ℕ × E)) (s : S) (ts : List T)
        → left_at i (run_threads moves s ts).1 ≤ left_at i ts - moves_of i moves
    unfolding run_threads
    run_threads-left_at i [] s ts = omega arith
    run_threads-left_at i ((j, e) ∷ moves) s ts = omega (
      arith,
      advance-left_at i j e s ts,
      run_threads-left_at i moves (advance j e s ts).0 (advance j e s ts).1,
    )

    all_at : (ts : List T) → ((i : ℕ) → left_at i ts ≡ 0) → All (λ t. left t ≡ 0) ts
    all_at [] h = tt
    all_at (t ∷ ts) h = (h 0, all_at ts (λ i. h (suc i)))

    below : (n i : ℕ) (ts : List T) → All (λ t. left t ≤ n) ts → left_at i ts ≤ n
    below n i [] h = omega arith
    below n zero (t ∷ ts) h = h.0
    below n (suc i) (t ∷ ts) h = below n i ts h.1

    outside : (i : ℕ) (ts : List T) → length ts ≤ i → left_at i ts ≡ 0
    outside i [] h = refl
    outside zero (t ∷ ts) h = absurd (omega arith)
    outside (suc i) (t ∷ ts) h = outside i ts (omega arith)

    -- Where each thread moves as often as it has actions left, all come to their end.
    pub run_threads-ends :
        (n : ℕ) (moves : List (ℕ × E)) (s : S) (ts : List T)
        → All (λ t. left t ≤ n) ts
        → ((i : ℕ) → i < length ts → n ≤ moves_of i moves)
        → All (λ t. left t ≡ 0) (run_threads moves s ts).1
    run_threads-ends n moves s ts h often = all_at (run_threads moves s ts).1 λ i.
        elim (Bool-cases (ltb i (length ts))) [
          | inl e ↦
              let most : left_at i ts ≤ n = below n i ts h in
              let enough : n ≤ moves_of i moves = often i (ground arith) in
              omega (arith, most, enough, run_threads-left_at i moves s ts)
          | inr e ↦ omega (arith, outside i ts (ground arith), run_threads-left_at i moves s ts)
        ]
