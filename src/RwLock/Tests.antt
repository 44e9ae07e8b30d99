-- ===== src/RwLock/Tests.antt =====
-- A `LocalRwLock` over a list of waiters, with numbers for wakers, and the theorems at runs of it.
use cynosure.Prelude.{
  ℕ, ◌+◌, ◌≡◌, ◌⊎◌, refl, Bool, true, false, not, ◌&&◌, ◌||◌, none, some, List, [], ◌∷◌, arith,
  ◌==◌, of_bool, is_nil, Exec, done, panic, fault, Returns,
}
use cynosure.Waiters.{WaitQueue}
use cynosure.Waiters.Lists.{list_wait_queue}
use cynosure.Queue.Spec.{pop_head}
use cynosure.Waiters.Entries.{In, queued}
use cynosure.Waiters.Registry
use cynosure.Waiters.Registry.Invariant.{drop_entry}
use cynosure.RwLock
use cynosure.RwLock.{RwLock}
use cynosure.RwLock.System
use cynosure.RwLock.System.{System, Event}
use cynosure.RwLock.Promise.{readers_writer_exclusion, writer_not_forgotten, reader_not_forgotten}
use cynosure.RwLock.Choice.{poll_read_lem, poll_write_lem, wake_next_free}

abbrev queue : WaitQueue (ℕ × ℕ)
queue = list_wait_queue (ℕ × ℕ)

abbrev same : ℕ → ℕ → Bool
same a b = a == b

-- A reader is in, a writer waits, and a second reader waits behind it.
abbrev contended : List (Event ℕ)
contended = Event.try_read ∷ Event.poll_write 0 70 ∷ Event.poll_read 0 71 ∷ []

abbrev released : List (Event ℕ)
released =
    Event.try_read ∷ Event.poll_write 0 70 ∷ Event.poll_read 0 71 ∷ Event.drop_read_guard ∷ []

abbrev outcome : List (Event ℕ) → Exec (System ℕ (queue.Q) ℕ)
outcome es = System.run same queue (System.init same queue 5) es

abbrev after : List (Event ℕ) → System ℕ (queue.Q) ℕ
after es = elim (outcome es) [
  | done s ↦ s
  | panic ↦ System.init same queue 5
  | fault ↦ System.init same queue 5
]

readers_writer_exclusion_example : Returns (outcome contended) (λ s.
    ((s.write_guards ≡ 0) ⊎ ((s.write_guards ≡ 1) × (s.read_guards ≡ 0)))
    × (s.read_guards ≡ s.lock.readers)
    × (s.write_guards ≡ of_bool s.lock.writer))
readers_writer_exclusion_example = readers_writer_exclusion same queue 5 contended (omega arith)

writer_not_forgotten_example :
    let s = after released in
    (f : ℕ × ℕ) × (j : ℕ) × In f s.write_woken × (s.write_slots j ≡ some f)
unfolding System.run System.init System.step RwLock.new RwLock.try_read RwLock.add_reader
    RwLock.poll_write RwLock.try_write RwLock.register_write RwLock.poll_read RwLock.try_read_fair
    RwLock.retry_read RwLock.register_read RwLock.leave_read RwLock.leave_write RwLock.release_read
    RwLock.wake_next RwLock.wake_free RwLock.wake_all_readers RwLock.wake_readers
    Registry.register_in list_wait_queue pop_head
writer_not_forgotten_example =
    writer_not_forgotten same queue 5 released (after released) 0 (0, 70) (omega arith) refl refl
      refl refl

reader_not_forgotten_example :
    let s = after released in
    ((f : ℕ × ℕ) × (j : ℕ) × In f s.read_woken × (s.read_slots j ≡ some f))
    ⊎ ((f : ℕ × ℕ) × (j : ℕ) × In f s.write_woken × (s.write_slots j ≡ some f))
unfolding System.run System.init System.step RwLock.new RwLock.try_read RwLock.add_reader
    RwLock.poll_write RwLock.try_write RwLock.register_write RwLock.poll_read RwLock.try_read_fair
    RwLock.retry_read RwLock.register_read RwLock.leave_read RwLock.leave_write RwLock.release_read
    RwLock.wake_next RwLock.wake_free RwLock.wake_all_readers RwLock.wake_readers
    Registry.register_in list_wait_queue pop_head
reader_not_forgotten_example =
    reader_not_forgotten same queue 5 released (after released) 0 (1, 71) (omega arith) refl refl
      refl refl

-- A lock that three readers share while a writer and a reader wait.
abbrev shared : RwLock (queue.Q) ℕ
shared = record (RwLock.new same queue 5) {
  readers = 3;
  write_waiters = queue.push_back queue.new (0, 70);
  read_waiters = queue.push_back queue.new (1, 71);
  next_id = 2;
}

abbrev free : RwLock (queue.Q) ℕ
free = record (RwLock.new same queue 5) {
  write_waiters = queue.push_back queue.new (0, 70);
  read_waiters = queue.push_back queue.new (1, 71);
  next_id = 2;
}

poll_read_lem_example :
    Returns (RwLock.poll_read same queue shared (some (1, 71)) 71) (λ (ready, l, slot).
      (ready ≡ not shared.writer && is_nil (queue.to_list shared.write_waiters))
      × (l.readers ≡ 3 + of_bool ready)
      × (l.writer ≡ shared.writer)
      × (queue.to_list l.write_waiters ≡ queue.to_list shared.write_waiters)
      × (((ready ≡ true)
            × (slot ≡ none)
            × (queue.to_list l.read_waiters
                ≡ drop_entry (some (1, 71)) (queue.to_list shared.read_waiters)))
          ⊎ ((ready ≡ false)
              × ((e : ℕ × ℕ) × (slot ≡ some e)
                  × (queued e.0 (queue.to_list l.read_waiters) ≡ true)))))
poll_read_lem_example = poll_read_lem same queue shared (some (1, 71)) 71 (omega arith)

poll_write_lem_example :
    let (ready, l, slot) = RwLock.poll_write same queue free (some (0, 70)) 70 in
    (ready ≡ 0 == 0 && not free.writer)
    × (l.readers ≡ 0)
    × (l.writer ≡ ready || free.writer)
    × (queue.to_list l.read_waiters ≡ queue.to_list free.read_waiters)
    × (((ready ≡ true)
          × (slot ≡ none)
          × (queue.to_list l.write_waiters
              ≡ drop_entry (some (0, 70)) (queue.to_list free.write_waiters)))
        ⊎ ((ready ≡ false)
            × ((e : ℕ × ℕ) × (slot ≡ some e)
                × (queued e.0 (queue.to_list l.write_waiters) ≡ true))))
unfolding RwLock.new
poll_write_lem_example = poll_write_lem same queue free (some (0, 70)) 70

wake_next_free_example :
    let (wakes, l) = RwLock.wake_next same queue free in
    (l.writer ≡ false)
    × (l.readers ≡ 0)
    × (((e : ℕ × ℕ) × (k : List (ℕ × ℕ)) × (queue.to_list free.write_waiters ≡ e ∷ k)
          × (wakes.of_writer ≡ some e)
          × (queue.to_list l.write_waiters ≡ k)
          × (wakes.of_readers ≡ [])
          × (queue.to_list l.read_waiters ≡ queue.to_list free.read_waiters))
        ⊎ ((queue.to_list free.write_waiters ≡ [])
            × (wakes.of_writer ≡ none)
            × (queue.to_list l.write_waiters ≡ [])
            × (wakes.of_readers ≡ queue.to_list free.read_waiters)
            × (queue.to_list l.read_waiters ≡ [])))
unfolding RwLock.new
wake_next_free_example = wake_next_free same queue free refl refl
