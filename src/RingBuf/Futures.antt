-- ===== src/RingBuf/Futures.antt =====
-- The futures of `push` and `pop`. `between` is what the other half does after the slot was armed, and
-- before the second attempt.
pub mod Single
use cynosure.Prelude.{Bool, true, false, Option, none, some, if◌then◌else◌, Exec, done, ◌>>=◌}
use cynosure.RingBuf.{Shared, Producer, Consumer}
use cynosure.RingBuf.Operations.{try_push, try_pop}

module _ {T : Type 0} where
  -- `Producer::push` up to the future: is it done, and the value that is left
  unfoldable pub push : Shared T → Producer → T → Exec (Bool × Option T × Shared T × Producer)
  push s p v = do (ok, _, s', p') ← try_push s p v; done (ok, if ok then none else some v, s', p')

  -- The second attempt in the poll of `PushFuture`
  unfoldable pub push_again : Shared T → Producer → T → Exec (Bool × Option T × Shared T × Producer)
  push_again s p v = do
    (ok, _, s', p') ← try_push s p v
    done (
        if ok
        then (true, none, record s' { producer_armed = false }, p')
        else (false, some v, s', p'))

  -- The poll of `PushFuture`
  unfoldable pub push_poll :
      (Shared T → Shared T)
      → Shared T
      → Producer
      → Option T
      → Exec (Bool × Option T × Shared T × Producer)
  push_poll between s p none = done (true, none, s, p)
  push_poll between s p (some v) = do
    (ok, _, s', p') ← try_push s p v
    let again = push_again (between (record s' { producer_armed = true })) p' v
    if ok then done (true, none, s', p') else again

  -- The second attempt in the poll of `PopFuture`
  unfoldable pub pop_again : Shared T → Consumer → Exec (Option T × Shared T × Consumer)
  pop_again s c = do
    (got, _, s', c') ← try_pop s c
    let disarmed : Shared T = record s' { consumer_armed = false }
    done (elim got as (λ _. Option T × Shared T × Consumer) [
      | none ↦ (none, s', c')
      | some v ↦ (some v, disarmed, c')
    ])

  -- The poll of `PopFuture`
  unfoldable pub pop_poll :
      (Shared T → Shared T) → Shared T → Consumer → Exec (Option T × Shared T × Consumer)
  pop_poll between s c = do
    (got, _, s', c') ← try_pop s c
    let again = pop_again (between (record s' { consumer_armed = true })) c'
    elim got as (λ _. Exec (Option T × Shared T × Consumer)) [
      | none ↦ again
      | some v ↦ done (some v, s', c')
    ]
