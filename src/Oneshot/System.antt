-- ===== src/Oneshot/System.antt =====
-- The sender and the receiver of a channel at work at the same time. A step is one access to what they
-- share, and the steps come in any order; they are sequentially consistent.
use cynosure.Prelude.{
  Bool, true, false, ◌||◌, List, [], ◌∷◌, ◌++◌, if◌then◌else◌, Exec, done, ◌>>=◌,
}
use cynosure.Oneshot
use cynosure.Oneshot.{State, Inner}

-- What the sender is about to do: in `send` it loads the state, writes the value, stores the state it
-- loaded with a bit more, and signals; in its `drop` it loads the state, and may set a bit and signal.
pub data Sender (T : Type 0) : Type 0 where
  ready : Sender T
  loading : T → Sender T
  writing : State → T → Sender T
  storing : State → Sender T
  signaling : Sender T
  dropping : Sender T
  closing : Sender T
  announcing : Sender T
  gone : Sender T

-- `try_recv`, and the two attempts of a poll
pub data Attempt : Type 0 where
  trying : Attempt
  first : Attempt
  second : Attempt

-- What the receiver is about to do: an attempt loads the state, stores it with a bit more, and reads.
pub data Receiver : Type 0 where
  ready : Receiver
  loading : Attempt → Receiver
  marking : Attempt → State → Receiver
  reading : Attempt → Receiver
  arming : Receiver
  disarming : Receiver
  parked : Receiver
  dropping : Receiver
  gone : Receiver

-- `offered` is what `send` was called with, `returned` what it gave back, and `received` what the
-- receiver got. `woken` tells whether the waker was called since the slot was armed.
pub record System (T : Type 0) : Type 0 where
  pub inner : Inner T
  pub sender : Sender T
  pub receiver : Receiver
  pub woken : Bool
  pub offered : List T
  pub returned : List T
  pub received : List T

pub data Event (T : Type 0) : Type 0 where
  send : T → Event T
  drop_sender : Event T
  try_recv : Event T
  poll : Event T
  drop_receiver : Event T
  sender_step : Event T
  receiver_step : Event T

abbrev pub after_value : Attempt → Receiver
after_value trying = Receiver.ready
after_value first = Receiver.ready
after_value second = Receiver.disarming

-- Nothing was found.
abbrev pub after_nothing : Attempt → Receiver
after_nothing trying = Receiver.ready
after_nothing first = Receiver.arming
after_nothing second = Receiver.parked

-- What an attempt does with the state that it loaded.
abbrev pub resolve : Attempt → State → Receiver
resolve a s =
    if s.value_set
    then if s.taken then after_value a else Receiver.marking a s
    else if s.sender_dropped
    then after_value a
    else after_nothing a

module _ {T : Type 0} where
  unfoldable pub init : System T
  init = record {
    inner = Oneshot.oneshot;
    sender = Sender.ready;
    receiver = Receiver.ready;
    woken = false;
    offered = [];
    returned = [];
    received = [];
  }

  unfoldable pub start_send : System T → Sender T → T → System T
  start_send s Sender.ready v = record s {
    sender = Sender.loading v;
    offered = s.offered ++ v ∷ [];
  }
  start_send s (Sender.loading w) v = s
  start_send s (Sender.writing t w) v = s
  start_send s (Sender.storing t) v = s
  start_send s Sender.signaling v = s
  start_send s Sender.dropping v = s
  start_send s Sender.closing v = s
  start_send s Sender.announcing v = s
  start_send s Sender.gone v = s

  unfoldable pub start_drop : System T → Sender T → System T
  start_drop s Sender.ready = record s { sender = Sender.dropping }
  start_drop s (Sender.loading w) = s
  start_drop s (Sender.writing t w) = s
  start_drop s (Sender.storing t) = s
  start_drop s Sender.signaling = s
  start_drop s Sender.dropping = s
  start_drop s Sender.closing = s
  start_drop s Sender.announcing = s
  start_drop s Sender.gone = s

  -- The receiver starts something if it is not in the middle of something else; a pending future can be
  -- polled again, or dropped.
  abbrev pub start : System T → Receiver → Receiver → System T
  start s Receiver.ready next = record s { receiver = next }
  start s Receiver.parked next = record s { receiver = next }
  start s (Receiver.loading a) next = s
  start s (Receiver.marking a t) next = s
  start s (Receiver.reading a) next = s
  start s Receiver.arming next = s
  start s Receiver.disarming next = s
  start s Receiver.dropping next = s
  start s Receiver.gone next = s

  unfoldable pub send_step : System T → Sender T → System T
  send_step s Sender.ready = s
  send_step s (Sender.loading v) =
      if s.inner.state.receiver_dropped
      then record s { sender = Sender.dropping; returned = s.returned ++ v ∷ [] }
      else record s { sender = Sender.writing s.inner.state v }
  send_step s (Sender.writing t v) = record s {
    inner = Oneshot.write_value s.inner v;
    sender = Sender.storing t;
  }
  send_step s (Sender.storing t) = record s {
    inner = Oneshot.publish s.inner t;
    sender = Sender.signaling;
  }
  send_step s Sender.signaling =
      let (woken, x) = Oneshot.signal s.inner in
      record s { inner = x; sender = Sender.dropping; woken = s.woken || woken }
  send_step s Sender.dropping = record s {
    sender = if s.inner.state.value_set then Sender.gone else Sender.closing;
  }
  send_step s Sender.closing = record s {
    inner = Oneshot.mark_sender_dropped s.inner;
    sender = Sender.announcing;
  }
  send_step s Sender.announcing =
      let (woken, x) = Oneshot.signal s.inner in
      record s { inner = x; sender = Sender.gone; woken = s.woken || woken }
  send_step s Sender.gone = s

  unfoldable pub receive_step : System T → Receiver → Exec (System T)
  receive_step s Receiver.ready = done s
  receive_step s (Receiver.loading a) = done (record s { receiver = resolve a s.inner.state })
  receive_step s (Receiver.marking a t) =
      done (record s { inner = Oneshot.mark_taken s.inner t; receiver = Receiver.reading a })
  receive_step s (Receiver.reading a) = do
    (v, x) ← Oneshot.read_value s.inner
    done (record s { inner = x; receiver = after_value a; received = s.received ++ v ∷ [] })
  receive_step s Receiver.arming = done (record s {
    inner = record s.inner { armed = true };
    receiver = Receiver.loading Attempt.second;
    woken = false;
  })
  receive_step s Receiver.disarming =
      done (record s { inner = record s.inner { armed = false }; receiver = Receiver.ready })
  receive_step s Receiver.parked = done s
  receive_step s Receiver.dropping =
      done (record s { inner = Oneshot.mark_receiver_dropped s.inner; receiver = Receiver.gone })
  receive_step s Receiver.gone = done s

  unfoldable pub step : System T → Event T → Exec (System T)
  step s (Event.send v) = done (start_send s s.sender v)
  step s Event.drop_sender = done (start_drop s s.sender)
  step s Event.try_recv = done (start s s.receiver (Receiver.loading Attempt.trying))
  step s Event.poll = done (start s s.receiver (Receiver.loading Attempt.first))
  step s Event.drop_receiver = done (start s s.receiver Receiver.dropping)
  step s Event.sender_step = done (send_step s s.sender)
  step s Event.receiver_step = receive_step s s.receiver

  unfoldable pub run : System T → List (Event T) → Exec (System T)
  run s [] = done s
  run s (e ∷ es) = do s' ← step s e; run s' es
