-- ===== src/Semaphore.antt =====
-- src/site_c/semaphore.rs: `LocalSemaphore`. A method returns the semaphore after it, with the entry whose
-- waker it called, if any. `W` is the type of wakers and `same` their `will_wake`.
pub mod System
pub mod Steps
pub mod Turns
pub mod Safety
pub mod Futures
pub mod Promise
pub mod Choice
pub mod Permits
mod Tests
use cynosure.Prelude.{
  ℕ, ◌+◌, ◌-◌, ◌^◌, Bool, true, false, not, Option, none, some, List, [], ◌∷◌, ltb, leb, ◌==◌,
  if◌then◌else◌, Exec, done, panic, ◌>>=◌,
}
use cynosure.Waiters.{WaitQueue}
use cynosure.Waiters.Registry.{Registered, register_in, deregister_in}

-- What a future waits for, and with which waker.
pub record Request (W : Type 0) : Type 0 where
  pub n : ℕ
  pub waker : W

pub record Semaphore (Q : Type 0) : Type 0 where
  pub permits : ℕ
  pub waiters : Q
  pub next_id : ℕ

-- `usize::MAX`
abbrev pub max_permits : ℕ
max_permits = 2 ^ 64 - 1

-- `iter().next()`
abbrev pub first {ℓ} : {A : Type ℓ} → List A → Option A
first [] = none
first (x ∷ xs) = some x

-- `Some(*front) == id`
abbrev pub is_front : ℕ → Option ℕ → Bool
is_front front none = false
is_front front (some id) = front == id

-- Is nobody ahead of the future with this token?
abbrev pub is_turn : {P : Type 0} → Option (ℕ × P) → Option ℕ → Bool
is_turn none id = true
is_turn (some e) id = is_front e.0 id

-- `registered.as_ref().map(|(id, _, _)| *id)`
abbrev pub id_of : {P : Type 0} → Option (ℕ × P) → Option ℕ
id_of none = none
id_of (some (id, p)) = some id

-- `will_wake` of the wakers of two requests
abbrev pub same_waker : {W : Type 0} → (W → W → Bool) → Request W → Request W → Bool
same_waker same a b = same a.waker b.waker

module _ {W : Type 0} (same : W → W → Bool) (d : WaitQueue (ℕ × Request W)) where
  open d use {Q, to_list, is_empty}

  pub new : ℕ → Semaphore Q
  new permits = record { permits = permits; waiters = d.new; next_id = 0 }

  -- Is a permit handed out, and the semaphore.
  pub try_acquire_many : Semaphore Q → ℕ → Bool × Semaphore Q
  try_acquire_many s n =
      if leb n s.permits then (true, record s { permits = s.permits - n }) else (false, s)

  pub bump_permits : Semaphore Q → ℕ → Exec (Semaphore Q)
  bump_permits s n =
      if leb (s.permits + n) max_permits then done (record s { permits = s.permits + n }) else panic

  pub can_acquire_fair : Semaphore Q → ℕ → Option ℕ → Bool
  can_acquire_fair s n id =
      if ltb s.permits n then false else is_turn (first (to_list s.waiters)) id

  pub wake_next : Semaphore Q → Option (ℕ × Request W)
  wake_next s = elim (first (to_list s.waiters)) [
    | none ↦ none
    | some (id, r) ↦ if ltb s.permits r.n then none else some (id, r)
  ]

  -- The permits of a `Permit` that is dropped come back.
  pub release : Semaphore Q → ℕ → Exec (Option (ℕ × Request W) × Semaphore Q)
  release s n = do
    s' ← bump_permits s n
    if not (is_empty s'.waiters) then done (wake_next s', s') else done (none, s')

  -- The same code, for permits that are new.
  abbrev pub add_permits : Semaphore Q → ℕ → Exec (Option (ℕ × Request W) × Semaphore Q)
  add_permits s n = release s n

  pub register : Semaphore Q → Option (ℕ × Request W) → ℕ → W → Semaphore Q × Option (ℕ × Request W)
  register s slot n waker =
      let p : Request W = record { n = n; waker = waker } in
      let r = register_in (same_waker same) d s.waiters s.next_id slot p in
      (record s { waiters = r.queue; next_id = r.next_id }, r.slot)

  pub deregister : Semaphore Q → Option (ℕ × Request W) → Semaphore Q
  deregister s slot = record s { waiters = deregister_in (same_waker same) d s.waiters slot }

  -- The permits are taken, the future leaves the queue, and the next waiter may be woken.
  pub grant :
      Semaphore Q
      → Option (ℕ × Request W)
      → ℕ
      → Bool × Semaphore Q × Option (ℕ × Request W) × Option (ℕ × Request W)
  grant s slot n =
      let s' = deregister (record s { permits = s.permits - n }) slot in
      (true, s', none, wake_next s')

  -- `Acquire::poll`: is a permit handed out, the semaphore, the future's field, and the entry woken.
  pub poll :
      Semaphore Q
      → Option (ℕ × Request W)
      → ℕ
      → W
      → Bool × Semaphore Q × Option (ℕ × Request W) × Option (ℕ × Request W)
  poll s slot n waker =
      if can_acquire_fair s n (id_of slot)
      then grant s slot n
      else let (s1, slot1) = register s slot n waker in
        if can_acquire_fair s1 n (id_of slot1) then grant s1 slot1 n else (false, s1, slot1, none)

  -- `Drop for Acquire`
  pub drop_future : Semaphore Q → Option (ℕ × Request W) → Option (ℕ × Request W) × Semaphore Q
  drop_future s none = (none, s)
  drop_future s (some e) = let s' = deregister s (some e) in (wake_next s', s')
