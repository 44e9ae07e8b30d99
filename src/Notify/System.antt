-- ===== src/Notify/System.antt =====
-- One task that waits on a `WaiterSlot`, and any number of threads that signal it, all at work at the
-- same time. A step is one access to what they share, and the steps come in any order; they are
-- sequentially consistent. `ready` is the state of the caller that a signaling thread publishes.
use cynosure.Prelude.{
  ℕ, Bool, true, false, ◌&&◌, ◌||◌, Option, none, some, List, [], ◌∷◌, ◌==◌, if◌then◌else◌, update,
  Exec, done, panic, ◌>>=◌,
}
use cynosure.Notify
use cynosure.Notify.{AtomicWaker, WaiterSlot}

-- What the waiting task is about to do.
pub data Waiter : Type 0 where
  idle : Waiter
  -- `register`
  registering : Waiter
  storing : Waiter
  unlocking : Waiter
  raced : Waiter
  releasing : ℕ → Waiter
  firing : ℕ → Waiter
  -- the rest of `arm`, the second check, and `disarm`
  arming : Waiter
  checking : Waiter
  disarming : Waiter
  parked : Waiter

-- What a signaling thread is about to do.
pub data Signaler : Type 0 where
  idle : Signaler
  -- `signal` after the publication, and `signal_slow`
  loading : Signaler
  claiming : Signaler
  -- `take`, and the call of the waker
  locking : Signaler
  taking : Signaler
  unlocking : Option ℕ → Signaler
  calling : ℕ → Signaler

-- `current` is the waker of the poll, and `woken` tells whether it was called since. `owner` is the
-- thread that has the `WAKING` lock.
pub record System : Type 0 where
  pub slot : WaiterSlot
  pub ready : Bool
  pub waiter : Waiter
  pub current : ℕ
  pub woken : Bool
  pub signalers : ℕ → Signaler
  pub owner : Option ℕ

pub data Event : Type 0 where
  -- the task is polled, does not find what it waits for, and arms the slot with this waker
  arm : ℕ → Event
  -- it is polled and finds it, and takes it; is there more?
  consume : Bool → Event
  waiter_step : Event
  -- a thread publishes, and goes on to signal
  publish : ℕ → Event
  signaler_step : ℕ → Event

unfoldable pub init : System
init = record {
  slot = Notify.new;
  ready = false;
  waiter = Waiter.idle;
  current = 0;
  woken = false;
  signalers = λ _. Signaler.idle;
  owner = none;
}

-- A call of the waker `w`
abbrev pub wake : System → ℕ → Bool
wake s w = s.woken || (w == s.current)

abbrev pub with_waker : System → AtomicWaker → WaiterSlot
with_waker s a = record s.slot { waker = a }

unfoldable pub start_arm : System → Waiter → ℕ → System
start_arm s Waiter.idle w = record s { waiter = Waiter.registering; current = w; woken = false }
start_arm s Waiter.parked w = record s { waiter = Waiter.registering; current = w; woken = false }
start_arm s Waiter.registering w = s
start_arm s Waiter.storing w = s
start_arm s Waiter.unlocking w = s
start_arm s Waiter.raced w = s
start_arm s (Waiter.releasing v) w = s
start_arm s (Waiter.firing v) w = s
start_arm s Waiter.arming w = s
start_arm s Waiter.checking w = s
start_arm s Waiter.disarming w = s

unfoldable pub start_consume : System → Waiter → Bool → System
start_consume s Waiter.idle more = record s { ready = s.ready && more }
start_consume s Waiter.parked more = record s { ready = s.ready && more; waiter = Waiter.idle }
start_consume s Waiter.registering more = s
start_consume s Waiter.storing more = s
start_consume s Waiter.unlocking more = s
start_consume s Waiter.raced more = s
start_consume s (Waiter.releasing v) more = s
start_consume s (Waiter.firing v) more = s
start_consume s Waiter.arming more = s
start_consume s Waiter.checking more = s
start_consume s Waiter.disarming more = s

unfoldable pub wait_step : System → Waiter → Exec System
wait_step s Waiter.idle = done s
wait_step s Waiter.parked = done s
wait_step s Waiter.registering =
    let (locked, a) = Notify.begin_register s.slot.waker in
    done (
      if locked
      then record s { slot = with_waker s a; waiter = Waiter.storing }
      else record s { slot = with_waker s a; waiter = Waiter.arming; woken = wake s s.current })
wait_step s Waiter.storing = done (record s {
  slot = with_waker s (Notify.store_waker s.slot.waker s.current);
  waiter = Waiter.unlocking;
})
wait_step s Waiter.unlocking =
    let (alone, a) = Notify.end_register s.slot.waker in
    let unlocked = done (record s {
      slot = with_waker s a;
      waiter = if alone then Waiter.arming else Waiter.raced;
    }) in
    if alone || a.registering && a.waking then unlocked else panic
wait_step s Waiter.raced = do
  (w, a) ← Notify.take_raced s.slot.waker
  done (record s { slot = with_waker s a; waiter = Waiter.releasing w })
wait_step s (Waiter.releasing w) =
    done (record s { slot = with_waker s (Notify.release s.slot.waker); waiter = Waiter.firing w })
wait_step s (Waiter.firing w) = done (record s { waiter = Waiter.arming; woken = wake s w })
wait_step s Waiter.arming =
    done (record s { slot = Notify.set_armed s.slot; waiter = Waiter.checking })
wait_step s Waiter.checking =
    done (record s { waiter = if s.ready then Waiter.disarming else Waiter.parked })
wait_step s Waiter.disarming = done (record s { slot = Notify.disarm s.slot; waiter = Waiter.idle })

unfoldable pub start_signal : System → ℕ → Signaler → System
start_signal s i Signaler.idle = record s {
  ready = true;
  signalers = update s.signalers i Signaler.loading;
}
start_signal s i Signaler.loading = s
start_signal s i Signaler.claiming = s
start_signal s i Signaler.locking = s
start_signal s i Signaler.taking = s
start_signal s i (Signaler.unlocking w) = s
start_signal s i (Signaler.calling w) = s

-- `if let Some(waker) = self.take() { waker.wake() }`
abbrev pub call_or_end : Option ℕ → Signaler
call_or_end none = Signaler.idle
call_or_end (some w) = Signaler.calling w

unfoldable pub signal_step : System → ℕ → Signaler → System
signal_step s i Signaler.idle = s
signal_step s i Signaler.loading = record s {
  signalers = update s.signalers i (if s.slot.armed then Signaler.claiming else Signaler.idle);
}
signal_step s i Signaler.claiming =
    let (was_armed, slot) = Notify.claim s.slot in
    record s {
      slot = slot;
      signalers = update s.signalers i (if was_armed then Signaler.locking else Signaler.idle);
    }
signal_step s i Signaler.locking =
    let (locked, a) = Notify.begin_take s.slot.waker in
    record s {
      slot = with_waker s a;
      signalers = update s.signalers i (if locked then Signaler.taking else Signaler.idle);
      owner = if locked then some i else s.owner;
    }
signal_step s i Signaler.taking =
    let (w, a) = Notify.take_waker s.slot.waker in
    record s { slot = with_waker s a; signalers = update s.signalers i (Signaler.unlocking w) }
signal_step s i (Signaler.unlocking w) = record s {
  slot = with_waker s (Notify.end_take s.slot.waker);
  signalers = update s.signalers i (call_or_end w);
  owner = none;
}
signal_step s i (Signaler.calling w) = record s {
  woken = wake s w;
  signalers = update s.signalers i Signaler.idle;
}

unfoldable pub step : System → Event → Exec System
step s (Event.arm w) = done (start_arm s s.waiter w)
step s (Event.consume more) = done (start_consume s s.waiter more)
step s Event.waiter_step = wait_step s s.waiter
step s (Event.publish i) = done (start_signal s i (s.signalers i))
step s (Event.signaler_step i) = done (signal_step s i (s.signalers i))

unfoldable pub run : System → List Event → Exec System
run s [] = done s
run s (e ∷ es) = do s' ← step s e; run s' es
