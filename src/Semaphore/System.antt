-- ===== src/Semaphore/System.antt =====
-- A `LocalSemaphore` with all that its users hold. Future `i` asks for `want i` permits, as its field `n`
-- says from its creation on.
use cynosure.Prelude.{
  ℕ, ◌+◌, ◌-◌, Bool, true, Option, none, some, List, [], ◌∷◌, leb, if◌then◌else◌, update, Exec,
  done, panic, fault, ◌>>=◌, ◌&&◌,
}
use cynosure.Waiters.{WaitQueue}
use cynosure.Waiters.Registry.Invariant.{drop_entry, with_wake}
use cynosure.Semaphore
use cynosure.Semaphore.{Semaphore, Request}

pub data Event (W : Type 0) : Type 0 where
  try_acquire : ℕ → Event W
  -- an `i` that was not seen before is a new future
  poll : ℕ → W → Event W
  drop_future : ℕ → Event W
  -- permits that add up to the number are dropped, or forgotten
  drop_permits : ℕ → Event W
  forget : ℕ → Event W
  add_permits : ℕ → Event W

pub record System (W Q : Type 0) : Type 0 where
  pub sem : Semaphore Q
  pub slots : ℕ → Option (ℕ × Request W)
  -- how many permits the users hold, and how many were forgotten
  pub held : ℕ
  pub forgotten : ℕ
  -- the entries whose wakers were called, until their futures are polled or dropped
  pub woken : List (ℕ × Request W)

-- The permits that an event adds.
abbrev pub added : {W : Type 0} → Event W → ℕ
added (Event.add_permits n) = n
added (Event.try_acquire n) = 0
added (Event.poll i w) = 0
added (Event.drop_future i) = 0
added (Event.drop_permits n) = 0
added (Event.forget n) = 0

abbrev pub added_by : {W : Type 0} → List (Event W) → ℕ
added_by [] = 0
added_by (e ∷ es) = added e + added_by es

module _ {W : Type 0} (same : W → W → Bool) (d : WaitQueue (ℕ × Request W)) (want : ℕ → ℕ) where
  open d use {Q, to_list}

  unfoldable pub init : ℕ → System W Q
  init permits = record {
    sem = Semaphore.new same d permits;
    slots = λ _. none;
    held = 0;
    forgotten = 0;
    woken = [];
  }

  -- Users can drop and forget only what they hold; an event that asks for more changes nothing.
  unfoldable pub step : System W Q → Event W → Exec (System W Q)
  step s (Event.try_acquire n) =
      let (got, sem) = Semaphore.try_acquire_many same d s.sem n in
      done (record s { sem = sem; held = if got then s.held + n else s.held })
  step s (Event.poll i w) =
      let (ready, sem, slot, next) = Semaphore.poll same d s.sem (s.slots i) (want i) w in
      done (record s {
        sem = sem;
        slots = update s.slots i slot;
        held = if ready then s.held + want i else s.held;
        woken = with_wake next (drop_entry (s.slots i) s.woken);
      })
  step s (Event.drop_future i) =
      let (next, sem) = Semaphore.drop_future same d s.sem (s.slots i) in
      done (record s {
        sem = sem;
        slots = update s.slots i none;
        woken = with_wake next (drop_entry (s.slots i) s.woken);
      })
  step s (Event.drop_permits n) =
      if leb n s.held
      then (do
        (next, sem) ← Semaphore.release same d s.sem n
        done (record s { sem = sem; held = s.held - n; woken = with_wake next s.woken }))
      else done s
  step s (Event.forget n) =
      if leb n s.held
      then done (record s { held = s.held - n; forgotten = s.forgotten + n })
      else done s
  step s (Event.add_permits n) = do
    (next, sem) ← Semaphore.add_permits same d s.sem n
    done (record s { sem = sem; woken = with_wake next s.woken })

  unfoldable pub run : System W Q → List (Event W) → Exec (System W Q)
  run s [] = done s
  run s (e ∷ es) = do s' ← step s e; run s' es

  -- Is the waker of the event equivalent to the one that its future is registered with?
  unfoldable pub steady : System W Q → Event W → Bool
  steady s (Event.poll i w) = elim (s.slots i) [ none ↦ true | some (id, r) ↦ same r.waker w ]
  steady s (Event.try_acquire n) = true
  steady s (Event.drop_future i) = true
  steady s (Event.drop_permits n) = true
  steady s (Event.forget n) = true
  steady s (Event.add_permits n) = true

  unfoldable pub steady_run : System W Q → List (Event W) → Bool
  steady_run s [] = true
  steady_run s (e ∷ es) =
      steady s e && elim (step s e) [ done s' ↦ steady_run s' es | panic ↦ true | fault ↦ true ]
