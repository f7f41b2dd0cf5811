-- ===== src/Chunker/Equivalence.antt =====
-- The built-in engine emits the reference's chunks, however the stream is cut into reads.
use chunk_gate.Prelude.{
  ℕ, ◌+◌, ◌≡◌, refl, sym, ap, ◌∙◌, inl, inr, Bool, true, false, List, [], ◌∷◌, ◌++◌, append_assoc,
  arith, Bool-cases,
}
use chunk_gate.Errors.{Result, ok, err, background}
use chunk_gate.Effects.{Exec, World, pure, on_user, continue, ◌>>=◌, ◌>>◌}
use chunk_gate.Chunker.Options.{Splitter}
use chunk_gate.Chunker.Reader.{
  Reader, ReadEnd, more, eof, failed, contents, upto, IsClean, CleanEnd,
}
use chunk_gate.Chunker.Builtin.{
  Chunk, Emit, Processor, new_processor, push, chunk_of, reset, emit_current, write, flush_rest,
  flush, after_read, read_loop, stream_builtin,
}
use chunk_gate.Chunker.Cuts.{
  ends, cuts, after, last_chunk, remainder, chunks_from, chunks_of, cuts-append, after-append,
}

-- A result without the count of the polls.
abbrev pub outcome {ℓ κ} : {S : Type ℓ} {A : Type κ} → Result A × World S → Result A × S
outcome (r, w) = (r, w.user)

abbrev pub and_then {ℓ} :
    {S : Type ℓ} → Result (Unit {0}) × S → (S → Result (Unit {0}) × S) → Result (Unit {0}) × S
and_then (ok u, s) f = f s
and_then (err e, s) f = (err e, s)

abbrev returning {ℓ κ} : {S : Type ℓ} {A : Type κ} → Result (Unit {0}) × S → A → Result A × S
returning (ok u, s) a = (ok a, s)
returning (err e, s) a = (err e, s)

module _ {ℓ} {S : Type ℓ} (emit : Emit S) where
  -- The callback on each chunk in turn, up to its first error.
  unfoldable pub emit_all : List Chunk → S → Result (Unit {0}) × S
  emit_all [] st = (ok tt, st)
  emit_all (c ∷ cs) st = and_then (emit c st) (emit_all cs)

  append_after :
      (m : Result (Unit {0}) × S) (xs ys : List Chunk)
      → ((st : S) → emit_all (xs ++ ys) st ≡ and_then (emit_all xs st) (emit_all ys))
      → and_then m (emit_all (xs ++ ys)) ≡ and_then (and_then m (emit_all xs)) (emit_all ys)
  append_after (ok u, st) xs ys h = h st
  append_after (err e, st) xs ys h = refl

  pub emit_all-append :
      (xs ys : List Chunk) (st : S)
      → emit_all (xs ++ ys) st ≡ and_then (emit_all xs st) (emit_all ys)
  unfolding emit_all
  emit_all-append [] ys st = refl
  emit_all-append (c ∷ cs) ys st = append_after (emit c st) cs ys (emit_all-append cs ys)

-- A callback's result, and what goes on from it.
emitted_then {ℓ κ μ} :
    {S : Type ℓ} {A : Type κ} {B : Type μ} (m : Result (Unit {0}) × S)
    (k : S → Result (Unit {0}) × S) (q : B) (f : B → Exec S A) (a : A) (w : World S)
    → ((w' : World S) → outcome (f q w') ≡ returning (k w'.user) a)
    → outcome ((on_user (λ _. m) >> pure q >>= f) w) ≡ returning (and_then m k) a
emitted_then (ok u, st) k q f a w h = h (record w { user = st })
emitted_then (err e, st) k q f a w h = refl

pub and_then_done {ℓ} :
    {S : Type ℓ} (m : Result (Unit {0}) × S) → and_then m (λ st. (ok tt, st)) ≡ m
and_then_done (ok tt, st) = refl
and_then_done (err e, st) = refl

returning_unit {ℓ} : {S : Type ℓ} (m : Result (Unit {0}) × S) → returning m tt ≡ m
returning_unit (ok tt, st) = refl
returning_unit (err e, st) = refl

-- The state that a run ends in decides how it goes on.
bind_outcome {ℓ} :
    {S : Type ℓ} {A : Type 0} (m : Result A × World S) (x : Result (Unit {0}) × S) (a : A)
    (f : A → Exec S (Unit {0})) (k : S → Result (Unit {0}) × S)
    → outcome m ≡ returning x a
    → ((w : World S) → outcome (f a w) ≡ k w.user)
    → outcome (let (r, w) = m in continue r f w) ≡ and_then x k
bind_outcome (ok b, w) (ok u, st) a f k e h = ground (arith, h w)
bind_outcome (ok b, w) (err d, st) a f k e h = cc
bind_outcome (err d, w) (ok u, st) a f k e h = cc
bind_outcome (err d, w) (err d', st) a f k e h = cc

module _ {ℓ} {S : Type ℓ} (s : Splitter) (emit : Emit S) where
  last_chunk_lem :
      (p : Processor) (bytes : List ℕ) (w : World S)
      → bytes ≡ p.current
      → outcome ((emit_current s background emit p >> pure tt) w)
        ≡ and_then (emit (record { offset = p.offset; bytes = bytes }) w.user) (λ st. (ok tt, st))
  unfolding emit_current
  last_chunk_lem p bytes w e = rw e (
      emitted_then (emit (chunk_of p) w.user) (λ st. (ok tt, st)) (reset p) (λ _. pure tt) tt
        (record { polls = w.polls + 1; user = w.user }) (λ w'. refl)
      ∙ returning_unit _)

  write_lem :
      (p : Processor) (bytes : List ℕ) (w : World S)
      → outcome (write s background emit p bytes w)
        ≡ returning (emit_all emit (cuts s p bytes) w.user) (after s p bytes)
  unfolding write emit_current cuts after emit_all
  write_lem p [] w = refl
  write_lem p (b ∷ bytes) w = elim (Bool-cases (ends s (push p b))) [
    | inl cut ↦ rw cut (
        emitted_then (emit (chunk_of (push p b)) w.user) (emit_all emit _) (reset (push p b))
          (λ q. write s background emit q bytes) _
          (record { polls = w.polls + 1 + 1; user = w.user }) (write_lem (reset (push p b)) bytes))
    | inr uncut ↦ rw uncut (write_lem (push p b) bytes _)
  ]

  flush_rest_lem :
      (emitted : Bool) (bytes : List ℕ) (p : Processor) (w : World S)
      → bytes ≡ p.current
      → outcome (flush_rest s background emit emitted bytes p w)
        ≡ emit_all emit (last_chunk emitted bytes p.offset) w.user
  unfolding flush_rest last_chunk emit_all emit_current
  flush_rest_lem true [] p w e = refl
  flush_rest_lem false [] p w e = sym (and_then_done (emit _ w.user))
  flush_rest_lem true (b ∷ bytes) p w e = last_chunk_lem p (b ∷ bytes) w e
  flush_rest_lem false (b ∷ bytes) p w e = last_chunk_lem p (b ∷ bytes) w e

  flush_lem :
      (p : Processor) (w : World S)
      → outcome (flush s background emit p w) ≡ emit_all emit (remainder p) w.user
  unfolding flush
  flush_lem p w = flush_rest_lem p.emitted p.current p _ refl

  chunks_from-append :
      (p : Processor) (xs ys : List ℕ)
      → chunks_from s p (xs ++ ys) ≡ cuts s p xs ++ chunks_from s (after s p xs) ys
  unfolding chunks_from
  chunks_from-append p xs ys = rw (cuts-append, after-append, append_assoc)

  -- One `Read` that does not fail, when the loop is right about the rest.
  read_end_lem :
      (end : ReadEnd) (p : Processor) (bytes : List ℕ) (rs : Reader)
      → CleanEnd end rs (IsClean rs)
      → ((q : Processor) (w : World S)
          → IsClean rs
          → outcome (read_loop s background emit q rs w)
            ≡ emit_all emit (chunks_from s q (contents rs)) w.user)
      → (w : World S)
      → outcome (
          (write s background emit p bytes >>= λ q.
          after_read s background emit end q (read_loop s background emit q rs))
            w)
        ≡ emit_all emit (chunks_from s p (upto end bytes (contents rs))) w.user
  unfolding after_read chunks_from
  read_end_lem more p bytes rs c ih w =
      bind_outcome (write s background emit p bytes w) (emit_all emit (cuts s p bytes) w.user)
        (after s p bytes) _ (emit_all emit (chunks_from s (after s p bytes) (contents rs)))
        (write_lem p bytes w) (λ w'. ih (after s p bytes) w' c)
      ∙ sym (
          ap (λ cs. emit_all emit cs w.user) (chunks_from-append p bytes (contents rs))
          ∙ emit_all-append emit (cuts s p bytes) _ w.user)
  read_end_lem eof p bytes rs c ih w =
      bind_outcome (write s background emit p bytes w) (emit_all emit (cuts s p bytes) w.user)
        (after s p bytes) _ (emit_all emit (remainder (after s p bytes))) (write_lem p bytes w)
        (λ w'. flush_lem (after s p bytes) w')
      ∙ sym (emit_all-append emit (cuts s p bytes) (remainder (after s p bytes)) w.user)
  read_end_lem (failed e) p bytes rs c ih w = absurd c

  read_loop_lem :
      (rs : Reader) (p : Processor) (w : World S)
      → IsClean rs
      → outcome (read_loop s background emit p rs w)
        ≡ emit_all emit (chunks_from s p (contents rs)) w.user
  unfolding read_loop contents chunks_from last_chunk cuts after
  read_loop_lem [] p w c = flush_lem p _
  read_loop_lem (r ∷ rs) p w c = read_end_lem r.end p r.bytes rs c (λ q w'. read_loop_lem rs q w') _

  -- A reader that does not fail is streamed as the reference's chunks of its bytes, whatever the
  -- lengths of the reads and whatever the callback does, its errors included.
  pub stream_builtin_lem :
      (reader : Reader) (w : World S)
      → IsClean reader
      → outcome (stream_builtin s background emit reader w)
        ≡ emit_all emit (chunks_of s (contents reader)) w.user
  unfolding stream_builtin chunks_of
  stream_builtin_lem reader w c = read_loop_lem reader new_processor w c
