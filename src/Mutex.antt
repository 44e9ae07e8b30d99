-- ===== src/Mutex.antt =====
-- src/site_c/mutex.rs: `LocalMutex<T>`. A method returns the mutex after it, with the entry whose waker
-- it called, if any. `W` is the type of wakers and `same` their `will_wake`.
pub mod System
pub mod Safety
pub mod Promise
mod Tests
use cynosure.Prelude.{ℕ, Bool, true, false, not, Option, none, some, List, if◌then◌else◌}
use cynosure.Waiters.{WaitQueue}
use cynosure.Waiters.Registry.{Registered, register_in, deregister_in}

pub record Mutex (Q T : Type 0) : Type 0 where
  pub locked : Bool
  pub waiters : Q
  pub next_id : ℕ
  pub value : T

module _ {W T : Type 0} (same : W → W → Bool) (d : WaitQueue (ℕ × W)) where
  open d use {Q, pop_front}

  pub new : T → Mutex Q T
  new value = record { locked = false; waiters = d.new; next_id = 0; value = value }

  -- `locked.replace(true)`: was the lock free?
  pub try_lock : Mutex Q T → Bool × Mutex Q T
  try_lock m = (not m.locked, record m { locked = true })

  pub wake_next : Mutex Q T → Option (ℕ × W) × Mutex Q T
  wake_next m =
      if m.locked
      then (none, m)
      else let (next, rest) = pop_front m.waiters in (next, record m { waiters = rest })

  pub unlock : Mutex Q T → Option (ℕ × W) × Mutex Q T
  unlock m = wake_next (record m { locked = false })

  -- The mutex, and the `registered` field of the future.
  pub register : Mutex Q T → Option (ℕ × W) → W → Mutex Q T × Option (ℕ × W)
  register m slot waker =
      let r = register_in same d m.waiters m.next_id slot waker in
      (record m { waiters = r.queue; next_id = r.next_id }, r.slot)

  pub deregister : Mutex Q T → Option (ℕ × W) → Mutex Q T
  deregister m slot = record m { waiters = deregister_in same d m.waiters slot }

  -- `LocalMutexLockFuture::poll`: is a guard handed out, the mutex, and the future's field.
  pub poll : Mutex Q T → Option (ℕ × W) → W → Bool × Mutex Q T × Option (ℕ × W)
  poll m slot waker =
      let (fast, m1) = try_lock m in
      if fast
      then (true, deregister m1 slot, none)
      else let (m2, slot2) = register m1 slot waker in
        let (late, m3) = try_lock m2 in
        if late then (true, deregister m3 slot2, none) else (false, m3, slot2)

  -- `Drop for LocalMutexLockFuture`
  pub drop_future : Mutex Q T → Option (ℕ × W) → Option (ℕ × W) × Mutex Q T
  drop_future m none = (none, m)
  drop_future m (some e) = wake_next (deregister m (some e))

  -- `DerefMut` of a guard, and the assignment through it
  pub assign : Mutex Q T → T → Mutex Q T
  assign m v = record m { value = v }
