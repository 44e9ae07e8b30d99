-- ===== src/RingBuf/Promise.antt =====
-- What a `RingBuf` promises to the two threads that use it.
use cynosure.Prelude.{
  ℕ, ◌+◌, ◌^◌, ◌≤◌, ◌<◌, ◌≡◌, ◌≢◌, refl, sym, ap, subst, inl, inr, Bool, true, false, not, ◌&&◌,
  List, [], ◌∷◌, ◌++◌, length, length-append, ltb, ltb→lt, if◌then◌else◌, arith, Bool-cases, Exec,
  done, Returns, Returns-bind, Returns-at,
}
use Prim.Native.Nat.{◌∣◌}
use cynosure.RingBuf
use cynosure.RingBuf.{Shared}
use cynosure.RingBuf.Counters.{power_below_lem}
use cynosure.RingBuf.Pushes.{start_push-Inv, start_push_slice-Inv}
use cynosure.RingBuf.Pops.{start_pop-Inv, start_pop_slice-Inv}
use cynosure.RingBuf.Writes.{advance_push-Inv}
use cynosure.RingBuf.Reads.{advance_pop-Inv}
use cynosure.RingBuf.Operations.{drop_shared}
use cynosure.RingBuf.Bounded.{Holds}
use cynosure.RingBuf.Bounded.Count.{drop_shared_lem}
use cynosure.RingBuf.Calls.{Call, QueueTrace, start, calls, calls-QueueTrace}
use cynosure.RingBuf.System.{
  System, Event, Pushing, Popping, Mode, parked, is_parked, is_running, push_idle, pop_idle, init,
  arm_producer, arm_consumer, step, run,
}
use cynosure.RingBuf.Invariant.{taken, Inv, Waits-running, Waits-armed, init-Inv}

push_idle-idle : {T : Type 0} (t : Pushing T) → push_idle t ≡ true → t ≡ Pushing.idle
push_idle-idle Pushing.idle e = refl
push_idle-idle (Pushing.writing_one v) e = absurd (cc)
push_idle-idle (Pushing.writing items) e = absurd (cc)
push_idle-idle (Pushing.publishing items) e = absurd (cc)
push_idle-idle Pushing.signaling e = absurd (cc)
push_idle-idle Pushing.disarming e = absurd (cc)

pop_idle-idle : {T : Type 0} (t : Popping T) → pop_idle t ≡ true → t ≡ Popping.idle
pop_idle-idle Popping.idle e = refl
pop_idle-idle Popping.reading_one e = absurd (cc)
pop_idle-idle (Popping.reading k) e = absurd (cc)
pop_idle-idle (Popping.publishing items) e = absurd (cc)
pop_idle-idle Popping.signaling e = absurd (cc)
pop_idle-idle Popping.disarming e = absurd (cc)

-- A guarded step keeps the invariant if it does so where the guard lets it run.
guarded :
    {T : Type 0} (n : ℕ) (s : System T) (b c : Bool) (r : Exec (System T))
    → Inv n s
    → (b ≡ true → c ≡ true → Returns r (Inv n))
    → Returns (if b && c then r else done s) (Inv n)
guarded n s true true r i f = f refl refl
guarded n s true false r i f = (s, refl, i)
guarded n s false c r i f = (s, refl, i)

not-true : (b : Bool) → not b ≡ true → b ≡ false
not-true true e = absurd (cc)
not-true false e = refl

module _ {T : Type 0} (n : ℕ) (pos : 0 < n) (wraps : n ∣ 2 ^ 64) (small : n ≤ 2 ^ 63) where
  step-Inv : (s : System T) (e : Event T) → Inv n s → Returns (step s e) (Inv n)
  unfolding step arm_producer arm_consumer
  step-Inv s (Event.push v) i =
      guarded n s _ _ _ i
        (λ q r. start_push-Inv n small s v i (push_idle-idle s.pushing q) (not-true _ r))
  step-Inv s (Event.push_slice items) i =
      guarded n s _ _ _ i
        (λ q r. start_push_slice-Inv n small s items i (push_idle-idle s.pushing q))
  step-Inv s Event.arm_push i =
      guarded n s (push_idle s.pushing) (is_running s.push_mode) (done (arm_producer s)) i (λ q r. (
        _,
        refl,
        record {
          indices = i.indices;
          producer = i.producer;
          consumer = i.consumer;
          contents = i.contents;
          push_waits = Waits-armed false;
          pop_waits = i.pop_waits;
        },
      ))
  step-Inv s Event.poll_push i =
      guarded n s (push_idle s.pushing) (is_parked s.push_mode)
        (done (record s { push_mode = Mode.running })) i
        (λ q r. (
          _,
          refl,
          record {
            indices = i.indices;
            producer = i.producer;
            consumer = i.consumer;
            contents = i.contents;
            push_waits = Waits-running s.push_woken s.shared.producer_armed;
            pop_waits = i.pop_waits;
          },
        ))
  step-Inv s Event.pop i =
      guarded n s _ _ _ i
        (λ q r. start_pop-Inv n small s i (pop_idle-idle s.popping q) (not-true _ r))
  step-Inv s (Event.pop_slice len) i =
      guarded n s _ _ _ i (λ q r. start_pop_slice-Inv n small s len i (pop_idle-idle s.popping q))
  step-Inv s Event.arm_pop i =
      guarded n s (pop_idle s.popping) (is_running s.pop_mode) (done (arm_consumer s)) i (λ q r. (
        _,
        refl,
        record {
          indices = i.indices;
          producer = i.producer;
          consumer = i.consumer;
          contents = i.contents;
          push_waits = i.push_waits;
          pop_waits = Waits-armed false;
        },
      ))
  step-Inv s Event.poll_pop i =
      guarded n s (pop_idle s.popping) (is_parked s.pop_mode)
        (done (record s { pop_mode = Mode.running })) i
        (λ q r. (
          _,
          refl,
          record {
            indices = i.indices;
            producer = i.producer;
            consumer = i.consumer;
            contents = i.contents;
            push_waits = i.push_waits;
            pop_waits = Waits-running s.pop_woken s.shared.consumer_armed;
          },
        ))
  step-Inv s Event.producer_step i = advance_push-Inv n pos wraps s s.pushing i refl
  step-Inv s Event.consumer_step i = advance_pop-Inv n pos wraps s s.popping i refl

  run-Inv : (s : System T) (es : List (Event T)) → Inv n s → Returns (run s es) (Inv n)
  unfolding run
  run-Inv s [] i = (s, refl, i)
  run-Inv s (e ∷ es) i =
      Returns-bind (step s e) (λ s'. run s' es) (step-Inv s e i) (λ s' i'. run-Inv s' es i')

module _ {T : Type 0} (n : ℕ) (shared : Shared T) (made : RingBuf.new n ≡ done shared) where
  -- What is known of a ring that was made without a panic.
  new_lem :
      ((0 < n) × (n ∣ 2 ^ 64) × (n ≤ 2 ^ 63))
      × ((shared.capacity ≡ n) × (shared.write_index ≡ 0) × (shared.read_index ≡ 0))
  unfolding RingBuf.new
  new_lem = elim (Bool-cases (ltb 0 n && RingBuf.power_below 64 n)) [
    | inl e ↦
        let same = rw e at made in
        let (wraps, small) = power_below_lem 64 n (omega arith) (ground (arith, e)) in
        (
          (ltb→lt 0 n (ground (arith, e)), wraps, small),
          Returns-at {P = λ z. (z.capacity ≡ n) × (z.write_index ≡ 0) × (z.read_index ≡ 0)} _ shared
              (_, refl, (refl, refl, refl)) same,
        )
    | inr e ↦ absurd (cc (rw e at made))
  ]

  started : (es : List (Event T)) → Returns (run (init shared) es) (Inv n)
  started es =
      let ((pos, wraps, small), (size, w, r)) = new_lem in
      run-Inv n pos wraps small (init shared) es (init-Inv n shared size w r)

  -- However the phases of the two halves are interleaved, the program goes on without a fault: no access
  -- leaves the buffer, and no slot is read that holds no value. What was popped is, in order, a prefix of
  -- what was pushed, and at most `n` elements are in between.
  pub fifo :
      (es : List (Event T))
      → Returns
          (run (init shared) es)
          (λ s. (rest : List T) × ((s.sent ≡ s.got ++ rest) × (length rest ≤ n)))
  fifo es =
      let (s, ran, i) = started es in
      let (rest, (order, _)) = i.contents in
      let (_, (_, _, le, fits)) = i.producer in
      let out = taken s.popping ++ rest in
      (s, ran, (out, (order, omega (arith, ap length order, length-append s.got out, le, fits))))

  -- No wakeup of the producer is lost: if its future is pending, the ring has room, and the consumer is
  -- not just about to signal, then the waker of the future has been called.
  pub push_wakes :
      (es : List (Event T)) (s : System T)
      → run (init shared) es ≡ done s
      → s.push_mode ≡ parked
      → length s.sent < length s.got + n
      → s.popping ≢ Popping.signaling
      → s.push_woken ≡ true
  push_wakes es s ran waits room quiet =
      let i = Returns-at (run (init shared) es) s (started es) ran in
      elim (i.push_waits.1 waits) [
        | inl woken ↦ woken
        | inr (_, inl full) ↦ absurd (omega (arith, full, room))
        | inr (_, inr sig) ↦ absurd (quiet sig)
      ]

  -- No wakeup of the consumer is lost: if its future is pending, something was pushed that it did not pop
  -- yet, and the producer is not just about to signal, then the waker of the future has been called.
  pub pop_wakes :
      (es : List (Event T)) (s : System T)
      → run (init shared) es ≡ done s
      → s.pop_mode ≡ parked
      → length s.got < length s.sent
      → s.pushing ≢ Pushing.signaling
      → s.pop_woken ≡ true
  pop_wakes es s ran waits ready quiet =
      let i = Returns-at (run (init shared) es) s (started es) ran in
      elim (i.pop_waits.1 waits) [
        | inl woken ↦ woken
        | inr (_, inl none_left) ↦ absurd (omega (arith, none_left, ready))
        | inr (_, inr sig) ↦ absurd (quiet sig)
      ]

  Holds-none : Holds n shared RingBuf.split.0 RingBuf.split.1 []
  unfolding RingBuf.split
  Holds-none =
      let (_, (size, w, r)) = new_lem in
      (
        0,
        (
          (size, w, r),
          (0, (refl, refl, omega arith, omega arith)),
          (0, (refl, refl, omega arith, omega arith)),
          λ j x e. absurd (cc),
        ),
      )

  -- Calls of `try_push`, `try_push_slice`, `try_pop` and `try_pop_slice` on a new ring, one after the
  -- other, all return, and their replies are those of a queue of at most `n` elements.
  pub refines :
      (cs : List (Call T))
      → Returns (calls (start shared) cs) (λ (rs, x). (l : List T) × QueueTrace n [] cs rs l)
  unfolding start
  refines cs =
      let ((pos, wraps, small), _) = new_lem in
      let (x, ran, (l, trace, _)) =
        calls-QueueTrace n pos wraps small (start shared) cs [] Holds-none in
      (x, ran, (l, trace))

  -- The loop of `Drop` ends, within one turn more than there are slots. It drops, in order, just what the
  -- queue of the specification has left after the calls.
  pub drops_rest :
      (cs : List (Call T))
      → Returns (calls (start shared) cs) (λ (rs, x).
        Returns (drop_shared (n + 1) x.shared) (λ (dropped, _). QueueTrace n [] cs rs dropped))
  unfolding start
  drops_rest cs =
      let ((pos, wraps, small), _) = new_lem in
      let ((rs, x), ran, (l, trace, h)) =
        calls-QueueTrace n pos wraps small (start shared) cs [] Holds-none in
      let ((dropped, slots), freed, same) =
        drop_shared_lem n pos wraps small x.shared x.producer x.consumer l (n + 1) h
          (omega arith) in
      ((rs, x), ran, ((dropped, slots), freed, subst (QueueTrace n [] cs rs) (sym same) trace))
