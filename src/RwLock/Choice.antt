-- ===== src/RwLock/Choice.antt =====
-- Whom `LocalRwLock` lets in and whom it wakes.
use cynosure.Prelude.{
  ℕ, suc, ◌+◌, ◌<◌, ◌≡◌, refl, sym, ap, ◌∙◌, ◌⊎◌, inl, inr, Bool, true, false, not, ◌&&◌, ◌||◌,
  Option, none, some, List, [], ◌∷◌, arith, length, ltb, ◌==◌, of_bool, Bool-cases, is_nil, Returns,
}
use cynosure.Waiters.{WaitQueue}
use cynosure.Waiters.Entries.{queued}
use cynosure.Waiters.Registry.Invariant.{drop_entry}
use cynosure.Waiters.Registry.Keep.{to_list-deregister_in}
use cynosure.Waiters.Registry.Queued.{register_in-queued}
use cynosure.Waiters.Registry.Wake.{pop_front_cases}
use cynosure.RwLock
use cynosure.RwLock.{RwLock, usize_max}
use cynosure.RwLock.Wake.{wake_readers_lem}
use cynosure.RwLock.Steps.{
  fair, unheld, poll_read_ready, poll_read_pending, poll_write_ready, poll_write_pending,
}

free_lem : (b : Bool) (n : ℕ) → b ≡ false → n ≡ 0 → b || ltb 0 n ≡ false
free_lem b n e f = ground arith

module _ {W T : Type 0} (same : W → W → Bool) (d : WaitQueue (ℕ × W)) where
  open d use {Q, to_list, is_empty, pop_front}

  fair_lem : (l : RwLock Q T) → fair same d l ≡ not l.writer && is_nil (to_list l.write_waiters)
  fair_lem l = ap (λ b. not l.writer && b) (d.is_empty-is_nil l.write_waiters)

  -- While fewer than `usize::MAX` read guards are out, a poll of a read future returns. It hands out a
  -- guard, and takes the future's entry off the queue, exactly if there is no writer and no writer waits;
  -- otherwise the lock is not touched and the future stands in the queue.
  pub poll_read_lem :
      (l : RwLock Q T) (slot : Option (ℕ × W)) (w : W)
      → l.readers < usize_max
      → Returns (RwLock.poll_read same d l slot w) (λ (ready, l', slot').
        (ready ≡ not l.writer && is_nil (to_list l.write_waiters))
        × (l'.readers ≡ l.readers + of_bool ready)
        × (l'.writer ≡ l.writer)
        × (to_list l'.write_waiters ≡ to_list l.write_waiters)
        × (((ready ≡ true)
              × (slot' ≡ none)
              × (to_list l'.read_waiters ≡ drop_entry slot (to_list l.read_waiters)))
            ⊎ ((ready ≡ false)
                × ((e : ℕ × W) × (slot' ≡ some e)
                    × (queued e.0 (to_list l'.read_waiters) ≡ true)))))
  unfolding RwLock.register_read
  poll_read_lem l slot w room = elim (Bool-cases (fair same d l)) [
    | inl e ↦ rw (poll_read_ready same d l slot w room e) (
      _,
      refl,
      (
        sym e ∙ fair_lem l,
        refl,
        refl,
        refl,
        inl (refl, refl, to_list-deregister_in same d l.read_waiters slot),
      ),
    )
    | inr e ↦ rw (poll_read_pending same d l slot w e) (
      _,
      refl,
      (
        sym e ∙ fair_lem l,
        omega arith,
        refl,
        refl,
        inr (refl, register_in-queued same d l.read_waiters l.next_id slot w),
      ),
    )
  ]

  -- A poll of a write future hands out the guard, and takes the future's entry off the queue, exactly if
  -- nobody holds the lock; otherwise the lock is not touched and the future stands in the queue.
  pub poll_write_lem :
      (l : RwLock Q T) (slot : Option (ℕ × W)) (w : W)
      → let (ready, l', slot') = RwLock.poll_write same d l slot w in
        (ready ≡ l.readers == 0 && not l.writer)
        × (l'.readers ≡ l.readers)
        × (l'.writer ≡ ready || l.writer)
        × (to_list l'.read_waiters ≡ to_list l.read_waiters)
        × (((ready ≡ true)
              × (slot' ≡ none)
              × (to_list l'.write_waiters ≡ drop_entry slot (to_list l.write_waiters)))
            ⊎ ((ready ≡ false)
                × ((e : ℕ × W) × (slot' ≡ some e)
                    × (queued e.0 (to_list l'.write_waiters) ≡ true))))
  unfolding RwLock.register_write
  poll_write_lem l slot w = elim (Bool-cases (unheld same d l)) [
    | inl e ↦ rw (poll_write_ready same d l slot w e) (
      sym e,
      refl,
      refl,
      refl,
      inl (refl, refl, to_list-deregister_in same d l.write_waiters slot),
    )
    | inr e ↦ rw (poll_write_pending same d l slot w e) (
      sym e,
      refl,
      refl,
      refl,
      inr (refl, register_in-queued same d l.write_waiters l.next_id slot w),
    )
  ]

  -- A wake of a free lock wakes the writer that waits at the front, and then no reader; if no writer
  -- waits it wakes all the readers, in their order. It leaves the holders alone.
  pub wake_next_free :
      (l : RwLock Q T)
      → l.writer ≡ false
      → l.readers ≡ 0
      → let (wakes, l') = RwLock.wake_next same d l in
        (l'.writer ≡ false)
        × (l'.readers ≡ 0)
        × (((e : ℕ × W) × (k : List (ℕ × W)) × (to_list l.write_waiters ≡ e ∷ k)
              × (wakes.of_writer ≡ some e)
              × (to_list l'.write_waiters ≡ k)
              × (wakes.of_readers ≡ [])
              × (to_list l'.read_waiters ≡ to_list l.read_waiters))
            ⊎ ((to_list l.write_waiters ≡ [])
                × (wakes.of_writer ≡ none)
                × (to_list l'.write_waiters ≡ [])
                × (wakes.of_readers ≡ to_list l.read_waiters)
                × (to_list l'.read_waiters ≡ [])))
  unfolding RwLock.wake_next RwLock.wake_free RwLock.wake_all_readers
  wake_next_free l free unread =
      rw (free_lem l.writer l.readers free unread) (elim (pop_front_cases d l.write_waiters) [
        | inr (e, k, front, value, rest) ↦
            rw (value, RwLock.wake_free) (free, unread, inl (e, k, front, refl, rest, refl, refl))
        | inl (nobody, value, rest) ↦
            let (p, r) =
              wake_readers_lem d (suc (length (to_list l.read_waiters))) l.read_waiters
                (to_list l.read_waiters) [] refl (omega arith) in
            rw (value, RwLock.wake_free) (free, unread, inr (nobody, refl, rest, p, r))
      ])
