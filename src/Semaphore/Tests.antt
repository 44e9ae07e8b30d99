-- ===== src/Semaphore/Tests.antt =====
-- A `LocalSemaphore` over a list of waiters, with numbers for wakers, and the theorems at runs of it.
use cynosure.Prelude.{
  ℕ, ◌+◌, ◌-◌, ◌≤◌, ◌<◌, ◌≡◌, ◌≢◌, ◌⊎◌, refl, inl, inr, Bool, true, false, none, some, List, [],
  ◌∷◌, arith, ◌==◌, Option, ap, if◌then◌else◌, Exec, done, panic, fault, Returns,
}
use cynosure.Waiters.{WaitQueue}
use cynosure.Waiters.Lists.{list_wait_queue}
use cynosure.Waiters.Entries.{In, Distinct, queued}
use cynosure.Waiters.Registry
use cynosure.Semaphore
use cynosure.Semaphore.{Semaphore, Request, first, is_turn, id_of}
use cynosure.Semaphore.System
use cynosure.Semaphore.System.{System, Event}
use cynosure.Semaphore.Promise.{permits_conserved, front_not_forgotten, waiters_queued}
use cynosure.Semaphore.Choice.{acquire_lem, poll-requeues}

abbrev queue : WaitQueue (ℕ × Request ℕ)
queue = list_wait_queue (ℕ × Request ℕ)

abbrev same : ℕ → ℕ → Bool
same a b = a == b

-- Future 0 asks for two permits, every other one for one.
abbrev want : ℕ → ℕ
want i = if i == 0 then 2 else 1

abbrev big : ℕ × Request ℕ
big = (0, record { n = 2; waker = 70 })

abbrev small : ℕ × Request ℕ
small = (1, record { n = 1; waker = 71 })

-- Of two permits one is taken; futures 0 and 1 wait; then the permit is given back.
abbrev script : List (Event ℕ)
script = Event.try_acquire 1 ∷ Event.poll 0 70 ∷ Event.poll 1 71 ∷ Event.drop_permits 1 ∷ []

abbrev outcome : List (Event ℕ) → Exec (System ℕ (queue.Q))
outcome es = System.run same queue want (System.init same queue want 2) es

abbrev after : List (Event ℕ) → System ℕ (queue.Q)
after es = elim (outcome es) [
  | done s ↦ s
  | panic ↦ System.init same queue want 2
  | fault ↦ System.init same queue want 2
]

permits_conserved_example : Returns (outcome script) (λ s. s.sem.permits + s.held + s.forgotten ≡ 2)
permits_conserved_example = permits_conserved same queue want 2 script (omega arith) (omega arith)

front_not_forgotten_example :
    In big (after script).woken × ((i : ℕ) × ((after script).slots i ≡ some big))
unfolding System.run System.init System.step System.steady System.steady_run Semaphore.new
    Semaphore.try_acquire_many Semaphore.poll Semaphore.can_acquire_fair Semaphore.register
    Semaphore.release Semaphore.bump_permits Semaphore.wake_next Semaphore.grant
    Semaphore.deregister Registry.register_in list_wait_queue
front_not_forgotten_example =
    front_not_forgotten same queue want 2 script (after script) big (small ∷ []) (omega arith)
      (omega arith) refl refl refl (omega arith)

waiters_queued_example :
    let s = after script in
    Distinct (queue.to_list s.sem.waiters)
    × ((e : ℕ × Request ℕ) → In e (queue.to_list s.sem.waiters) → (i : ℕ) × (s.slots i ≡ some e))
    × ((i : ℕ) (e : ℕ × Request ℕ)
        → s.slots i ≡ some e
        → In e (queue.to_list s.sem.waiters) × (e.1.n ≡ want i))
unfolding System.run System.init System.step Semaphore.new Semaphore.try_acquire_many Semaphore.poll
    Semaphore.can_acquire_fair Semaphore.register Semaphore.release Semaphore.bump_permits
    Semaphore.wake_next Semaphore.grant Semaphore.deregister Registry.register_in list_wait_queue
waiters_queued_example =
    waiters_queued same queue want 2 script (after script) (omega arith) (omega arith) refl

-- One permit is there; the big request is at the front and a small one behind it.
abbrev busy : Semaphore (queue.Q)
busy = record {
  permits = 1;
  waiters = queue.push_back (queue.push_back queue.new big) small;
  next_id = 2;
}

acquire_lem_example :
    let (ready, s', slot', woken) = Semaphore.poll same queue busy none 1 72 in
    ((ready ≡ true)
      × (1 ≤ busy.permits)
      × (is_turn (first (queue.to_list busy.waiters)) none ≡ true)
      × (s'.permits ≡ busy.permits - 1)
      × (slot' ≡ none)
      × (queue.to_list s'.waiters ≡ queue.to_list busy.waiters))
    ⊎ ((ready ≡ false)
        × ((busy.permits < 1) ⊎ (is_turn (first (queue.to_list busy.waiters)) none ≡ false))
        × (s'.permits ≡ busy.permits)
        × ((e : ℕ × Request ℕ) × (slot' ≡ some e) × (queued e.0 (queue.to_list s'.waiters) ≡ true)))
unfolding list_wait_queue
acquire_lem_example = acquire_lem same queue busy none 1 72 other
  where
    other :
        (e : ℕ × Request ℕ)
        → In e (queue.to_list busy.waiters)
        → ◌≡◌ {A = Option (ℕ × Request ℕ)} none none
        → e.0 ≢ busy.next_id
    other e (inl h) _ z = omega (arith, ap (λ (v : ℕ × Request ℕ). v.0) h, z)
    other e (inr (inl h)) _ z = omega (arith, ap (λ (v : ℕ × Request ℕ). v.0) h, z)
    other e (inr (inr h)) _ z = elim h [ ]

-- The small request is at the front afterwards, one permit is there, and nobody was woken.
poll-requeues_example :
    let (ready, s', slot', woken) = Semaphore.poll same queue busy (some big) 2 90 in
    (ready ≡ false)
    × (s'.permits ≡ 1)
    × (woken ≡ none)
    × (queue.to_list s'.waiters ≡ small ∷ (0, record { n = 2; waker = 90 }) ∷ [])
unfolding list_wait_queue
poll-requeues_example = poll-requeues same queue busy big 2 90 refl (omega arith)
