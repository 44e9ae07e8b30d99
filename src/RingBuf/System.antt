-- ===== src/RingBuf/System.antt =====
-- The two halves of a `RingBuf` at work at the same time. A phase of either half is one step, and the
-- steps come in any order; all accesses to the indices and flags are sequentially consistent.
use cynosure.Prelude.{
  ℕ, Bool, true, false, not, ◌&&◌, ◌||◌, List, [], ◌∷◌, ◌++◌, take, length, ◌==◌, if◌then◌else◌,
  Exec, done, ◌>>=◌,
}
use cynosure.RingBuf
use cynosure.RingBuf.{Shared, Producer, Consumer}

-- What the producer is about to do.
pub data Pushing (T : Type 0) : Type 0 where
  idle : Pushing T
  writing_one : T → Pushing T
  writing : List T → Pushing T
  -- the elements are in their slots, the index is not stored yet
  publishing : List T → Pushing T
  signaling : Pushing T
  disarming : Pushing T

-- What the consumer is about to do.
pub data Popping (T : Type 0) : Type 0 where
  idle : Popping T
  reading_one : Popping T
  reading : ℕ → Popping T
  -- the elements were taken, the index is not stored yet
  publishing : List T → Popping T
  signaling : Popping T
  disarming : Popping T

-- The futures of `push` and `pop`: not waiting, armed and before the second attempt, or `Pending`.
pub data Mode : Type 0 where
  running : Mode
  armed : Mode
  parked : Mode

pub record System (T : Type 0) : Type 0 where
  pub shared : Shared T
  pub producer : Producer
  pub consumer : Consumer
  pub pushing : Pushing T
  pub popping : Popping T
  pub push_mode : Mode
  pub pop_mode : Mode
  -- was the waker called since the slot was armed?
  pub push_woken : Bool
  pub pop_woken : Bool
  -- the elements of all the pushes and pops whose index was stored, in order
  pub sent : List T
  pub got : List T

pub data Event (T : Type 0) : Type 0 where
  -- the check of `try_push`, `try_push_slice`, `try_pop`, `try_pop_slice`
  push : T → Event T
  push_slice : List T → Event T
  pop : Event T
  pop_slice : ℕ → Event T
  -- `arm` in the poll of `PushFuture` and `PopFuture`
  arm_push : Event T
  arm_pop : Event T
  -- a pending future is polled again
  poll_push : Event T
  poll_pop : Event T
  -- the next phase of what is under way
  producer_step : Event T
  consumer_step : Event T

-- After an attempt that fails, an armed future is pending.
abbrev pub failed : Mode → Mode
failed running = running
failed armed = parked
failed parked = parked

abbrev pub is_running : Mode → Bool
is_running running = true
is_running armed = false
is_running parked = false

abbrev pub is_parked : Mode → Bool
is_parked running = false
is_parked armed = false
is_parked parked = true

abbrev pub push_idle : {T : Type 0} → Pushing T → Bool
push_idle Pushing.idle = true
push_idle (Pushing.writing_one v) = false
push_idle (Pushing.writing items) = false
push_idle (Pushing.publishing items) = false
push_idle Pushing.signaling = false
push_idle Pushing.disarming = false

abbrev pub pop_idle : {T : Type 0} → Popping T → Bool
pop_idle Popping.idle = true
pop_idle Popping.reading_one = false
pop_idle (Popping.reading k) = false
pop_idle (Popping.publishing items) = false
pop_idle Popping.signaling = false
pop_idle Popping.disarming = false

module _ {T : Type 0} where
  unfoldable pub init : Shared T → System T
  init s = record {
    shared = s;
    producer = RingBuf.split.0;
    consumer = RingBuf.split.1;
    pushing = Pushing.idle;
    popping = Popping.idle;
    push_mode = running;
    pop_mode = running;
    push_woken = false;
    pop_woken = false;
    sent = [];
    got = [];
  }

  unfoldable pub start_push : System T → T → Exec (System T)
  start_push s v =
      let (room, p) = RingBuf.check_room s.shared s.producer in
      done (
        if room
        then record s { producer = p; pushing = Pushing.writing_one v }
        else record s { producer = p; push_mode = failed s.push_mode })

  unfoldable pub start_push_slice : System T → List T → Exec (System T)
  start_push_slice s items =
      let (granted, p) = RingBuf.check_room_slice s.shared s.producer (length items) in
      done (
        if granted == 0
        then record s { producer = p }
        else record s { producer = p; pushing = Pushing.writing (take granted items) })

  unfoldable pub start_pop : System T → Exec (System T)
  start_pop s =
      let (found, c) = RingBuf.check_item s.shared s.consumer in
      done (
        if found
        then record s { consumer = c; popping = Popping.reading_one }
        else record s { consumer = c; pop_mode = failed s.pop_mode })

  unfoldable pub start_pop_slice : System T → ℕ → Exec (System T)
  start_pop_slice s len =
      let (granted, c) = RingBuf.check_items s.shared s.consumer len in
      done (
        if granted == 0
        then record s { consumer = c }
        else record s { consumer = c; popping = Popping.reading granted })

  -- After the signal, a future that was armed disarms its own slot.
  abbrev pub after_push : Mode → Pushing T
  after_push armed = Pushing.disarming
  after_push running = Pushing.idle
  after_push parked = Pushing.idle

  abbrev pub after_pop : Mode → Popping T
  after_pop armed = Popping.disarming
  after_pop running = Popping.idle
  after_pop parked = Popping.idle

  unfoldable pub advance_push : System T → Pushing T → Exec (System T)
  advance_push s Pushing.idle = done s
  advance_push s (Pushing.writing_one v) = do
    shared ← RingBuf.write_value s.shared s.producer v
    done (record s { shared = shared; pushing = Pushing.publishing (v ∷ []) })
  advance_push s (Pushing.writing items) = do
    shared ← RingBuf.write_values s.shared s.producer items
    done (record s { shared = shared; pushing = Pushing.publishing items })
  advance_push s (Pushing.publishing items) =
      let (shared, p) = RingBuf.publish_write s.shared s.producer (length items) in
      done (record s {
        shared = shared;
        producer = p;
        pushing = Pushing.signaling;
        sent = s.sent ++ items;
      })
  advance_push s Pushing.signaling =
      let (woken, shared) = RingBuf.signal_consumer s.shared in
      done (record s {
        shared = shared;
        pushing = after_push s.push_mode;
        pop_woken = s.pop_woken || woken;
      })
  advance_push s Pushing.disarming = done (record s {
    shared = record s.shared { producer_armed = false };
    pushing = Pushing.idle;
    push_mode = running;
  })

  unfoldable pub advance_pop : System T → Popping T → Exec (System T)
  advance_pop s Popping.idle = done s
  advance_pop s Popping.reading_one = do
    (v, shared) ← RingBuf.read_value s.shared s.consumer
    done (record s { shared = shared; popping = Popping.publishing (v ∷ []) })
  advance_pop s (Popping.reading k) = do
    items ← RingBuf.read_values s.shared s.consumer k
    done (record s { popping = Popping.publishing items })
  advance_pop s (Popping.publishing items) =
      let (shared, c) = RingBuf.publish_read s.shared s.consumer (length items) in
      done (record s {
        shared = shared;
        consumer = c;
        popping = Popping.signaling;
        got = s.got ++ items;
      })
  advance_pop s Popping.signaling =
      let (woken, shared) = RingBuf.signal_producer s.shared in
      done (record s {
        shared = shared;
        popping = after_pop s.pop_mode;
        push_woken = s.push_woken || woken;
      })
  advance_pop s Popping.disarming = done (record s {
    shared = record s.shared { consumer_armed = false };
    popping = Popping.idle;
    pop_mode = running;
  })

  unfoldable pub arm_producer : System T → System T
  arm_producer s = record s {
    shared = record s.shared { producer_armed = true };
    push_mode = armed;
    push_woken = false;
  }

  unfoldable pub arm_consumer : System T → System T
  arm_consumer s = record s {
    shared = record s.shared { consumer_armed = true };
    pop_mode = armed;
    pop_woken = false;
  }

  -- A half starts something new only when it is idle. A pending future has to be polled first; a slice
  -- is pushed or popped by a task that does not wait for a single element.
  unfoldable pub step : System T → Event T → Exec (System T)
  step s (Event.push v) =
      if push_idle s.pushing && not (is_parked s.push_mode) then start_push s v else done s
  step s (Event.push_slice items) =
      if push_idle s.pushing && is_running s.push_mode then start_push_slice s items else done s
  step s Event.arm_push =
      if push_idle s.pushing && is_running s.push_mode then done (arm_producer s) else done s
  step s Event.poll_push =
      if push_idle s.pushing && is_parked s.push_mode
      then done (record s { push_mode = running })
      else done s
  step s Event.pop =
      if pop_idle s.popping && not (is_parked s.pop_mode) then start_pop s else done s
  step s (Event.pop_slice len) =
      if pop_idle s.popping && is_running s.pop_mode then start_pop_slice s len else done s
  step s Event.arm_pop =
      if pop_idle s.popping && is_running s.pop_mode then done (arm_consumer s) else done s
  step s Event.poll_pop =
      if pop_idle s.popping && is_parked s.pop_mode
      then done (record s { pop_mode = running })
      else done s
  step s Event.producer_step = advance_push s s.pushing
  step s Event.consumer_step = advance_pop s s.popping

  unfoldable pub run : System T → List (Event T) → Exec (System T)
  run s [] = done s
  run s (e ∷ es) = do s' ← step s e; run s' es
