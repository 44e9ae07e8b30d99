-- ===== src/Oneshot.antt =====
-- src/site_d/oneshot.rs: the channel of one value. Each definition here is one access to what the two
-- halves share; Oneshot/System.antt has the order of them.
pub mod System
pub mod Invariant
pub mod Sends
pub mod Receives
pub mod Promise
pub mod Tests
use cynosure.Prelude.{
  Bool, true, false, not, ◌&&◌, ◌||◌, Option, none, some, List, [], ◌∷◌, if◌then◌else◌, Exec, done,
  fault, ◌>>=◌,
}

-- The bits of `state`
pub record State : Type 0 where
  pub value_set : Bool
  pub sender_dropped : Bool
  pub receiver_dropped : Bool
  pub taken : Bool

-- `Inner`; of the `WaiterSlot` the flag stands here.
pub record Inner (T : Type 0) : Type 0 where
  pub value : Option T
  pub state : State
  pub armed : Bool

module _ {T : Type 0} where
  unfoldable pub oneshot : Inner T
  oneshot = record {
    value = none;
    state = record {
      value_set = false;
      sender_dropped = false;
      receiver_dropped = false;
      taken = false;
    };
    armed = false;
  }

  -- `(*self.inner.value.get()).write(value)`
  unfoldable pub write_value : Inner T → T → Inner T
  write_value x v = record x { value = some v }

  -- `store(s | VALUE_SET)`, where `s` was loaded before
  unfoldable pub publish : Inner T → State → Inner T
  publish x s = record x { state = record s { value_set = true } }

  -- `fetch_or(SENDER_DROPPED)` and `fetch_or(RECEIVER_DROPPED)`
  unfoldable pub mark_sender_dropped : Inner T → Inner T
  mark_sender_dropped x = record x { state = record x.state { sender_dropped = true } }

  unfoldable pub mark_receiver_dropped : Inner T → Inner T
  mark_receiver_dropped x = record x { state = record x.state { receiver_dropped = true } }

  -- `store(s | TAKEN)`, where `s` was loaded before
  unfoldable pub mark_taken : Inner T → State → Inner T
  mark_taken x s = record x { state = record s { taken = true } }

  -- `assume_init_read()`: the value moves out.
  unfoldable pub read_value : Inner T → Exec (T × Inner T)
  read_value x = elim x.value as (λ _. Exec (T × Inner T)) [
    | none ↦ fault
    | some v ↦ done (v, record x { value = none })
  ]

  -- `Inner::drop`: what it drops
  unfoldable pub drop_inner : Inner T → Exec (List T)
  drop_inner x =
      let drop_value = (do (v, _) ← read_value x; done (v ∷ [])) in
      if x.state.value_set && not x.state.taken then drop_value else done []

  -- `self.inner.recv.signal()`: is the receiver woken, and the state
  unfoldable pub signal : Inner T → Bool × Inner T
  signal x = (x.armed, record x { armed = false })

  pub is_closed : Inner T → Bool
  is_closed x = x.state.receiver_dropped
