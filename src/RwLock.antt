-- ===== src/RwLock.antt =====
-- src/site_c/rwlock.rs: `LocalRwLock<T>`. A method returns the lock after it, with the entries whose
-- wakers it called, in order. `W` is the type of wakers and `same` their `will_wake`.
pub mod System
pub mod Wake
pub mod Steps
pub mod Safety
pub mod Polls
pub mod Leaves
pub mod Promise
pub mod Choice
mod Tests
use cynosure.Prelude.{
  ℕ, zero, suc, ◌+◌, ◌-◌, ◌^◌, Bool, true, false, not, ◌&&◌, ◌||◌, Option, none, some, List, [],
  ◌∷◌, ◌++◌, length, ltb, ◌==◌, if◌then◌else◌, Exec, done, panic, ◌>>=◌,
}
use cynosure.Waiters.{WaitQueue}
use cynosure.Waiters.Registry.{Registered, register_in, deregister_in}

pub record RwLock (Q T : Type 0) : Type 0 where
  pub readers : ℕ
  pub writer : Bool
  pub read_waiters : Q
  pub write_waiters : Q
  pub next_id : ℕ
  pub value : T

-- The entries that `wake_next` woke.
pub record Wakes (W : Type 0) : Type 0 where
  pub of_writer : Option (ℕ × W)
  pub of_readers : List (ℕ × W)

-- `usize`
abbrev pub usize_max : ℕ
usize_max = 2 ^ 64 - 1

module _ {W : Type 0} (d : WaitQueue (ℕ × W)) where
  open d use {Q, pop_front}

  -- The loop that pops and wakes readers until none is left; each round takes one unit of fuel.
  pub wake_readers : ℕ → Q → List (ℕ × W) → List (ℕ × W) × Q
  wake_readers zero q woken = (woken, q)
  wake_readers (suc fuel) q woken =
      let (next, rest) = pop_front q in
      elim next [ none ↦ (woken, rest) | some e ↦ wake_readers fuel rest (woken ++ e ∷ []) ]

module _ {W T : Type 0} (same : W → W → Bool) (d : WaitQueue (ℕ × W)) where
  open d use {Q, to_list, pop_front, is_empty}

  pub new : T → RwLock Q T
  new value = record {
    readers = 0;
    writer = false;
    read_waiters = d.new;
    write_waiters = d.new;
    next_id = 0;
    value = value;
  }

  -- `checked_add(1).expect("reader count overflow")`
  pub add_reader : RwLock Q T → Exec (RwLock Q T)
  add_reader l =
      if ltb l.readers usize_max then done (record l { readers = l.readers + 1 }) else panic

  pub try_read : RwLock Q T → Exec (Bool × RwLock Q T)
  try_read l = if not l.writer then (do l' ← add_reader l; done (true, l')) else done (false, l)

  pub try_read_fair : RwLock Q T → Exec (Bool × RwLock Q T)
  try_read_fair l =
      let no_writer_queued = is_empty l.write_waiters in
      if not l.writer && no_writer_queued
      then (do l' ← add_reader l; done (true, l'))
      else done (false, l)

  pub try_write : RwLock Q T → Bool × RwLock Q T
  try_write l =
      if l.readers == 0 && not l.writer then (true, record l { writer = true }) else (false, l)

  wake_all_readers : RwLock Q T → Wakes W × RwLock Q T
  wake_all_readers l =
      let (woken, q) = wake_readers d (suc (length (to_list l.read_waiters))) l.read_waiters [] in
      (record { of_writer = none; of_readers = woken }, record l { read_waiters = q })

  wake_free : RwLock Q T → Wakes W × RwLock Q T
  unfolding wake_all_readers
  wake_free l =
      let (next, rest) = pop_front l.write_waiters in
      let l' : RwLock Q T = record l { write_waiters = rest } in
      elim next [
        | some e ↦ (record { of_writer = some e; of_readers = [] }, l')
        | none ↦ wake_all_readers l'
      ]

  pub wake_next : RwLock Q T → Wakes W × RwLock Q T
  unfolding wake_free
  wake_next l =
      if l.writer || ltb 0 l.readers
      then (record { of_writer = none; of_readers = [] }, l)
      else wake_free l

  -- The `debug_assert!` panics.
  pub release_read : RwLock Q T → Exec (Wakes W × RwLock Q T)
  release_read l =
      if ltb 0 l.readers then done (wake_next (record l { readers = l.readers - 1 })) else panic

  pub release_write : RwLock Q T → Exec (Wakes W × RwLock Q T)
  release_write l = if l.writer then done (wake_next (record l { writer = false })) else panic

  -- The slow path of the read future, after its first attempt.
  pub register_read : RwLock Q T → Option (ℕ × W) → W → RwLock Q T × Option (ℕ × W)
  register_read l slot waker =
      let r = register_in same d l.read_waiters l.next_id slot waker in
      (record l { read_waiters = r.queue; next_id = r.next_id }, r.slot)

  pub register_write : RwLock Q T → Option (ℕ × W) → W → RwLock Q T × Option (ℕ × W)
  register_write l slot waker =
      let r = register_in same d l.write_waiters l.next_id slot waker in
      (record l { write_waiters = r.queue; next_id = r.next_id }, r.slot)

  pub leave_read : RwLock Q T → Option (ℕ × W) → RwLock Q T
  leave_read l slot = record l { read_waiters = deregister_in same d l.read_waiters slot }

  pub leave_write : RwLock Q T → Option (ℕ × W) → RwLock Q T
  leave_write l slot = record l { write_waiters = deregister_in same d l.write_waiters slot }

  retry_read : RwLock Q T → Option (ℕ × W) → Exec (Bool × RwLock Q T × Option (ℕ × W))
  retry_read l slot = do
    (got, l') ← try_read_fair l
    if got then done (true, leave_read l' slot, none) else done (false, l', slot)

  -- `LocalRwLockReadFuture::poll`: is a guard handed out, the lock, and the future's field.
  pub poll_read : RwLock Q T → Option (ℕ × W) → W → Exec (Bool × RwLock Q T × Option (ℕ × W))
  unfolding retry_read
  poll_read l slot waker = do
    (fast, l1) ← try_read_fair l
    let slow = (let (l2, slot2) = register_read l1 slot waker in retry_read l2 slot2)
    if fast then done (true, leave_read l1 slot, none) else slow

  -- `LocalRwLockWriteFuture::poll`
  pub poll_write : RwLock Q T → Option (ℕ × W) → W → Bool × RwLock Q T × Option (ℕ × W)
  poll_write l slot waker =
      let (fast, l1) = try_write l in
      if fast
      then (true, leave_write l1 slot, none)
      else let (l2, slot2) = register_write l1 slot waker in
        let (late, l3) = try_write l2 in
        if late then (true, leave_write l3 slot2, none) else (false, l3, slot2)

  -- `Drop` of the two futures
  pub drop_read_future : RwLock Q T → Option (ℕ × W) → Wakes W × RwLock Q T
  drop_read_future l none = (record { of_writer = none; of_readers = [] }, l)
  drop_read_future l (some e) = wake_next (leave_read l (some e))

  pub drop_write_future : RwLock Q T → Option (ℕ × W) → Wakes W × RwLock Q T
  drop_write_future l none = (record { of_writer = none; of_readers = [] }, l)
  drop_write_future l (some e) = wake_next (leave_write l (some e))
