-- ===== src/RwLock/Steps.antt =====
-- The attempts to lock and the polls of `LocalRwLock`, by case.
use cynosure.Prelude.{
  ℕ, ◌+◌, ◌<◌, ◌≡◌, Bool, true, false, not, ◌&&◌, Option, none, lt→ltb, ◌==◌, done,
}
use cynosure.Waiters.{WaitQueue}
use cynosure.Waiters.Registry.{deregister_in}
use cynosure.RwLock
use cynosure.RwLock.{RwLock, usize_max}

module _ {W T : Type 0} (same : W → W → Bool) (d : WaitQueue (ℕ × W)) where
  open d use {Q, is_empty}

  -- May a read future go on?
  abbrev pub fair : RwLock Q T → Bool
  fair l = not l.writer && is_empty l.write_waiters

  -- May a writer go on?
  abbrev pub unheld : RwLock Q T → Bool
  unheld l = l.readers == 0 && not l.writer

  try_read_fair_some :
      (l : RwLock Q T)
      → l.readers < usize_max
      → fair l ≡ true
      → RwLock.try_read_fair same d l ≡ done (true, record l { readers = l.readers + 1 })
  unfolding RwLock.try_read_fair RwLock.add_reader
  try_read_fair_some l small e = rw (e, lt→ltb l.readers usize_max small)

  try_read_fair_none :
      (l : RwLock Q T) → fair l ≡ false → RwLock.try_read_fair same d l ≡ done (false, l)
  unfolding RwLock.try_read_fair
  try_read_fair_none l e = rw e

  pub try_read_held :
      (l : RwLock Q T) → l.writer ≡ true → RwLock.try_read same d l ≡ done (false, l)
  unfolding RwLock.try_read
  try_read_held l e = rw e

  pub try_read_free :
      (l : RwLock Q T)
      → l.readers < usize_max
      → l.writer ≡ false
      → RwLock.try_read same d l ≡ done (true, record l { readers = l.readers + 1 })
  unfolding RwLock.try_read RwLock.add_reader
  try_read_free l small e = rw (e, lt→ltb l.readers usize_max small)

  pub try_write_some :
      (l : RwLock Q T)
      → unheld l ≡ true
      → RwLock.try_write same d l ≡ (true, record l { writer = true })
  unfolding RwLock.try_write
  try_write_some l e = rw e

  pub try_write_none : (l : RwLock Q T) → unheld l ≡ false → RwLock.try_write same d l ≡ (false, l)
  unfolding RwLock.try_write
  try_write_none l e = rw e

  pub poll_read_ready :
      (l : RwLock Q T) (slot : Option (ℕ × W)) (w : W)
      → l.readers < usize_max
      → fair l ≡ true
      → RwLock.poll_read same d l slot w
        ≡ done (
          true,
          record l {
            readers = l.readers + 1;
            read_waiters = deregister_in same d l.read_waiters slot;
          },
          none,
        )
  unfolding RwLock.poll_read RwLock.leave_read
  poll_read_ready l slot w small e = rw (try_read_fair_some l small e)

  pub poll_read_pending :
      (l : RwLock Q T) (slot : Option (ℕ × W)) (w : W)
      → fair l ≡ false
      → RwLock.poll_read same d l slot w
        ≡ (let (l', slot') = RwLock.register_read same d l slot w in done (false, l', slot'))
  unfolding RwLock.poll_read RwLock.retry_read RwLock.register_read
  poll_read_pending l slot w e =
      rw (try_read_fair_none l e, try_read_fair_none (RwLock.register_read same d l slot w).0 e)

  pub poll_write_ready :
      (l : RwLock Q T) (slot : Option (ℕ × W)) (w : W)
      → unheld l ≡ true
      → RwLock.poll_write same d l slot w ≡ (
        true,
        record l { writer = true; write_waiters = deregister_in same d l.write_waiters slot },
        none,
      )
  unfolding RwLock.poll_write RwLock.leave_write
  poll_write_ready l slot w e = rw (try_write_some l e)

  pub poll_write_pending :
      (l : RwLock Q T) (slot : Option (ℕ × W)) (w : W)
      → unheld l ≡ false
      → RwLock.poll_write same d l slot w
        ≡ (let (l', slot') = RwLock.register_write same d l slot w in (false, l', slot'))
  unfolding RwLock.poll_write RwLock.register_write
  poll_write_pending l slot w e =
      rw (try_write_none l e, try_write_none (RwLock.register_write same d l slot w).0 e)
