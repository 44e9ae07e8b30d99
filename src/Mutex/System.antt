-- ===== src/Mutex/System.antt =====
-- A `LocalMutex` with all that its users hold: the guards that are out and the lock futures that are
-- alive. An event is one call of a user; a waker that is called runs its task later, as events.
use cynosure.Prelude.{
  ℕ, ◌+◌, ◌-◌, Bool, Option, none, List, [], ◌∷◌, ltb, of_bool, if◌then◌else◌, update,
}
use cynosure.Waiters.{WaitQueue}
use cynosure.Waiters.Registry.Invariant.{drop_entry, with_wake}
use cynosure.Mutex
use cynosure.Mutex.{Mutex}

pub data Event (W T : Type 0) : Type 0 where
  try_lock : Event W T
  -- future `i` is polled with a waker; an `i` that was not seen before is a new future
  poll : ℕ → W → Event W T
  drop_future : ℕ → Event W T
  drop_guard : Event W T
  -- a holder of a guard writes through it
  write : T → Event W T

pub record System (W Q T : Type 0) : Type 0 where
  pub mutex : Mutex Q T
  -- the `registered` fields of the futures
  pub slots : ℕ → Option (ℕ × W)
  pub guards : ℕ
  -- the entries whose wakers were called, until their futures are polled or dropped
  pub woken : List (ℕ × W)

module _ {W T : Type 0} (same : W → W → Bool) (d : WaitQueue (ℕ × W)) where
  open d use {Q, to_list}

  unfoldable pub init : T → System W Q T
  init v = record { mutex = Mutex.new same d v; slots = λ _. none; guards = 0; woken = [] }

  unfoldable pub step : System W Q T → Event W T → System W Q T
  step s try_lock =
      let (got, m) = Mutex.try_lock same d s.mutex in
      record s { mutex = m; guards = s.guards + of_bool got }
  step s (poll i w) =
      let (ready, m, slot) = Mutex.poll same d s.mutex (s.slots i) w in
      record {
        mutex = m;
        slots = update s.slots i slot;
        guards = s.guards + of_bool ready;
        woken = drop_entry (s.slots i) s.woken;
      }
  step s (drop_future i) =
      let (e, m) = Mutex.drop_future same d s.mutex (s.slots i) in
      record {
        mutex = m;
        slots = update s.slots i none;
        guards = s.guards;
        woken = with_wake e (drop_entry (s.slots i) s.woken);
      }
  -- With no guard out there is nothing to drop or to write through.
  step s drop_guard =
      let (e, m) = Mutex.unlock same d s.mutex in
      if ltb 0 s.guards
      then record s { mutex = m; guards = s.guards - 1; woken = with_wake e s.woken }
      else s
  step s (write v) =
      if ltb 0 s.guards then record s { mutex = Mutex.assign same d s.mutex v } else s

  unfoldable pub run : System W Q T → List (Event W T) → System W Q T
  run s [] = s
  run s (e ∷ es) = run (step s e) es
