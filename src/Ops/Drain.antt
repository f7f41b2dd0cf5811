-- ===== src/Ops/Drain.antt =====
-- `Drain` of internal/ops/drain.go, as the threads of the program run it: `draining` is an atomic
-- value, `pending` the counter of the `sync.WaitGroup`. A `Drain` that is nil lets all begin.
use chunk_gate.Prelude.{ℕ, ◌+◌, ◌-◌, Bool, true, false, List, nat_eq, if◌then◌else◌}

pub record Drain : Type 0 where
  pub draining : Bool
  pub pending : ℕ

abbrev pub new_drain : Drain
new_drain = record { draining = false; pending = 0 }

-- `Wait` returns without an error.
abbrev pub wait_over : Drain → Bool
wait_over d = nat_eq d.pending 0

-- Where a thread stands. An upload calls `Begin`: it is before the first load, before `Add`, before
-- the second load, before the `Done` of a refusal, refused, begun, or ended by the function that
-- `Begin` returned. The thread that shuts down is before `Start` or behind it.
pub data Thread : Type 0 where
  calling passed counted undoing refused begun ended : Thread
  starting started : Thread

-- One atomic action. What `Begin` returned does nothing when it is called again.
unfoldable pub act : Unit {0} → Drain → Thread → Drain × Thread
act u d calling = if d.draining then (d, refused) else (d, passed)
act u d passed = (record d { pending = d.pending + 1 }, counted)
act u d counted = if d.draining then (d, undoing) else (d, begun)
act u d undoing = (record d { pending = d.pending - 1 }, refused)
act u d refused = (d, refused)
act u d begun = (record d { pending = d.pending - 1 }, ended)
act u d ended = (d, ended)
act u d starting = (record d { draining = true }, started)
act u d started = (d, started)

abbrev pub Moves : Type 0
Moves = List (ℕ × Unit {0})

-- An upload that the counter counts.
abbrev pub weight : Thread → ℕ
weight counted = 1
weight undoing = 1
weight begun = 1
weight _ = 0

-- An upload in progress.
abbrev pub in_progress : Thread → ℕ
in_progress begun = 1
in_progress _ = 0

-- The actions that a thread has left.
abbrev pub left : Thread → ℕ
left calling = 4
left passed = 3
left counted = 2
left undoing = 1
left begun = 1
left starting = 1
left _ = 0
