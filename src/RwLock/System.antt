-- ===== src/RwLock/System.antt =====
-- A `LocalRwLock` with all that its users hold: the guards that are out and the futures that are alive.
use cynosure.Prelude.{
  ℕ, ◌+◌, ◌-◌, Bool, Option, none, List, [], ◌∷◌, ◌++◌, ltb, of_bool, if◌then◌else◌, update, Exec,
  done, ◌>>=◌,
}
use cynosure.Waiters.{WaitQueue}
use cynosure.Waiters.Registry.Invariant.{drop_entry, with_wake}
use cynosure.RwLock
use cynosure.RwLock.{RwLock}

pub data Event (W : Type 0) : Type 0 where
  try_read : Event W
  try_write : Event W
  -- future `i` is polled with a waker; an `i` that was not seen before is a new future
  poll_read : ℕ → W → Event W
  poll_write : ℕ → W → Event W
  drop_read_future : ℕ → Event W
  drop_write_future : ℕ → Event W
  drop_read_guard : Event W
  drop_write_guard : Event W

pub record System (W Q T : Type 0) : Type 0 where
  pub lock : RwLock Q T
  pub read_slots : ℕ → Option (ℕ × W)
  pub write_slots : ℕ → Option (ℕ × W)
  pub read_guards : ℕ
  pub write_guards : ℕ
  -- the entries whose wakers were called, until their futures are polled or dropped
  pub read_woken : List (ℕ × W)
  pub write_woken : List (ℕ × W)

module _ {W T : Type 0} (same : W → W → Bool) (d : WaitQueue (ℕ × W)) where
  open d use {Q, to_list}

  unfoldable pub init : T → System W Q T
  init v = record {
    lock = RwLock.new same d v;
    read_slots = λ _. none;
    write_slots = λ _. none;
    read_guards = 0;
    write_guards = 0;
    read_woken = [];
    write_woken = [];
  }

  -- An event that a user cannot cause, since no such guard is out, changes nothing.
  unfoldable pub step : System W Q T → Event W → Exec (System W Q T)
  step s try_read = do
    (got, l) ← RwLock.try_read same d s.lock
    done (record s { lock = l; read_guards = s.read_guards + of_bool got })
  step s try_write =
      let (got, l) = RwLock.try_write same d s.lock in
      done (record s { lock = l; write_guards = s.write_guards + of_bool got })
  step s (poll_read i w) = do
    (ready, l, slot) ← RwLock.poll_read same d s.lock (s.read_slots i) w
    done (record s {
      lock = l;
      read_slots = update s.read_slots i slot;
      read_guards = s.read_guards + of_bool ready;
      read_woken = drop_entry (s.read_slots i) s.read_woken;
    })
  step s (poll_write i w) =
      let (ready, l, slot) = RwLock.poll_write same d s.lock (s.write_slots i) w in
      done (record s {
        lock = l;
        write_slots = update s.write_slots i slot;
        write_guards = s.write_guards + of_bool ready;
        write_woken = drop_entry (s.write_slots i) s.write_woken;
      })
  step s (drop_read_future i) =
      let (wakes, l) = RwLock.drop_read_future same d s.lock (s.read_slots i) in
      done (record s {
        lock = l;
        read_slots = update s.read_slots i none;
        read_woken = drop_entry (s.read_slots i) s.read_woken ++ wakes.of_readers;
        write_woken = with_wake wakes.of_writer s.write_woken;
      })
  step s (drop_write_future i) =
      let (wakes, l) = RwLock.drop_write_future same d s.lock (s.write_slots i) in
      done (record s {
        lock = l;
        write_slots = update s.write_slots i none;
        read_woken = s.read_woken ++ wakes.of_readers;
        write_woken = with_wake wakes.of_writer (drop_entry (s.write_slots i) s.write_woken);
      })
  step s drop_read_guard =
      if ltb 0 s.read_guards
      then (do
        (wakes, l) ← RwLock.release_read same d s.lock
        done (record s {
          lock = l;
          read_guards = s.read_guards - 1;
          read_woken = s.read_woken ++ wakes.of_readers;
          write_woken = with_wake wakes.of_writer s.write_woken;
        }))
      else done s
  step s drop_write_guard =
      if ltb 0 s.write_guards
      then (do
        (wakes, l) ← RwLock.release_write same d s.lock
        done (record s {
          lock = l;
          write_guards = s.write_guards - 1;
          read_woken = s.read_woken ++ wakes.of_readers;
          write_woken = with_wake wakes.of_writer s.write_woken;
        }))
      else done s

  unfoldable pub run : System W Q T → List (Event W) → Exec (System W Q T)
  run s [] = done s
  run s (e ∷ es) = do s' ← step s e; run s' es
