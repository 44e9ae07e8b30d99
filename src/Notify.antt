-- ===== src/Notify.antt =====
-- src/site_d/notify.rs: `AtomicWaker` and `WaiterSlot`. Each definition here is one atomic access, or
-- the access to the waker's cell that a lock bit of `state` guards; Notify/System.antt has the order of
-- them. A waker is a number: two for which `Waker::will_wake` holds are the same number.
pub mod System
pub mod Invariant
pub mod Signals
pub mod Threads
pub mod Takes
pub mod Calls
pub mod Waits
pub mod Promise
pub mod Tests
use cynosure.Prelude.{ℕ, Bool, true, false, not, ◌&&◌, ◌||◌, Option, none, some, Exec, done, panic}

-- `registering` and `waking` are the bits of `state`.
pub record AtomicWaker : Type 0 where
  pub registering : Bool
  pub waking : Bool
  pub waker : Option ℕ

pub record WaiterSlot : Type 0 where
  pub waker : AtomicWaker
  pub armed : Bool

unfoldable pub new : WaiterSlot
new = record { waker = record { registering = false; waking = false; waker = none }; armed = false }

-- `compare_exchange(WAITING, REGISTERING)`: does it succeed, and the state
unfoldable pub begin_register : AtomicWaker → Bool × AtomicWaker
begin_register a =
    let free = not a.registering && not a.waking in
    (free, record a { registering = free || a.registering })

-- The cell of the waker, while it is registered: it is written if another waker is stored.
unfoldable pub store_waker : AtomicWaker → ℕ → AtomicWaker
store_waker a w = record a { waker = some w }

-- `compare_exchange(REGISTERING, WAITING)`
unfoldable pub end_register : AtomicWaker → Bool × AtomicWaker
end_register a =
    let alone = a.registering && not a.waking in
    (alone, record a { registering = not alone && a.registering })

-- `(*self.waker.get()).take().unwrap()`
unfoldable pub take_raced : AtomicWaker → Exec (ℕ × AtomicWaker)
take_raced a = elim a.waker as (λ _. Exec (ℕ × AtomicWaker)) [
  | none ↦ panic
  | some w ↦ done (w, record a { waker = none })
]

-- `swap(WAITING)`
unfoldable pub release : AtomicWaker → AtomicWaker
release a = record a { registering = false; waking = false }

-- `fetch_or(WAKING)`: was it `WAITING`, and the state
unfoldable pub begin_take : AtomicWaker → Bool × AtomicWaker
begin_take a = (not a.registering && not a.waking, record a { waking = true })

-- `(*self.waker.get()).take()`
unfoldable pub take_waker : AtomicWaker → Option ℕ × AtomicWaker
take_waker a = (a.waker, record a { waker = none })

-- `fetch_and(!WAKING)`
unfoldable pub end_take : AtomicWaker → AtomicWaker
end_take a = record a { waking = false }

-- The store of `arm`, the store of `disarm`, and the swap of `signal_slow`
unfoldable pub set_armed : WaiterSlot → WaiterSlot
set_armed s = record s { armed = true }

unfoldable pub disarm : WaiterSlot → WaiterSlot
disarm s = record s { armed = false }

unfoldable pub claim : WaiterSlot → Bool × WaiterSlot
claim s = (s.armed, record s { armed = false })
