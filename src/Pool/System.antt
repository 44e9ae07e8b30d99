-- ===== src/Pool/System.antt =====
-- A `LocalBufferPool` with its users: the futures that wait for a buffer, and how many buffers are out.
use cynosure.Prelude.{
  ℕ, ◌+◌, ◌-◌, Bool, Option, none, some, List, [], ◌∷◌, ltb, if◌then◌else◌, update, Exec, done,
  ◌>>=◌,
}
use cynosure.Waiters.{WaitQueue}
use cynosure.Semaphore
use cynosure.Semaphore.{Semaphore, Request}
use cynosure.Pool
use cynosure.Pool.{Pool, Buffer, Element}

pub data Event (W T : Type 0) : Type 0 where
  try_acquire : Event W T
  poll : ℕ → W → Event W T
  drop_future : ℕ → Event W T
  -- a buffer comes back, with whatever its borrower left in it
  drop_buffer : Buffer T → Event W T

pub record System (W Q T : Type 0) : Type 0 where
  pub pool : Pool Q T
  pub slots : ℕ → Option (ℕ × Request W)
  pub out : ℕ

-- how many buffers were handed out
abbrev pub handed : {A : Type 0} → Option A → ℕ
handed none = 0
handed (some b) = 1

module _ {W T : Type 0} (same : W → W → Bool) (d : WaitQueue (ℕ × Request W)) (zero_cell : T) where
  open d use {Q}

  unfoldable pub step : System W Q T → Event W T → Exec (System W Q T)
  step s Event.try_acquire = do
    (b, p) ← Pool.try_acquire same d zero_cell s.pool
    done (record s { pool = p; out = s.out + handed b })
  step s (Event.poll i w) = do
    (b, p, slot, woken) ← Pool.poll_acquire same d zero_cell s.pool (s.slots i) w
    done (record s { pool = p; slots = update s.slots i slot; out = s.out + handed b })
  step s (Event.drop_future i) =
      let (woken, sem) = Semaphore.drop_future same d s.pool.sem (s.slots i) in
      done (record s { pool = record s.pool { sem = sem }; slots = update s.slots i none })
  step s (Event.drop_buffer b) =
      if ltb 0 s.out
      then (do
        (woken, p) ← Pool.drop_buffer same d zero_cell s.pool b
        done (record s { pool = p; out = s.out - 1 }))
      else done s

  unfoldable pub run : System W Q T → List (Event W T) → Exec (System W Q T)
  run s [] = done s
  run s (e ∷ es) = do s' ← step s e; run s' es

  -- A new pool, and what its users do.
  unfoldable pub start : Element → ℕ → ℕ → ℕ → Bool → List (Event W T) → Exec (System W Q T)
  start element count buf_size align clear es = do
    p ← Pool.build same d zero_cell element count buf_size align clear
    run (record { pool = p; slots = λ _. none; out = 0 }) es
