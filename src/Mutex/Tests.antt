-- ===== src/Mutex/Tests.antt =====
-- A `LocalMutex` over the inline queue of `Queue<_, 8>`, with numbers for wakers, and the theorems at runs of it.
use cynosure.Prelude.{
  ℕ, ◌≤◌, ◌≡◌, ◌↔◌, ◌⊎◌, refl, Bool, true, false, not, none, some, List, [], ◌∷◌, arith, ◌==◌,
}
use cynosure.Waiters.{WaitQueue}
use cynosure.Waiters.Inline.{inline_wait_queue}
use cynosure.Waiters.Entries.{In, Distinct, queued}
use cynosure.Waiters.Registry
use cynosure.Waiters.Registry.Invariant.{drop_entry}
use cynosure.Mutex
use cynosure.Mutex.{Mutex}
use cynosure.Mutex.System
use cynosure.Mutex.System.{System, Event}
use cynosure.Mutex.Promise.{
  mutual_exclusion, no_lost_wakeup, one_entry, poll_lem, hand_over, reached-Inv,
}

abbrev queue : WaitQueue (ℕ × ℕ)
queue = inline_wait_queue (ℕ × ℕ) 8

abbrev same : ℕ → ℕ → Bool
same a b = a == b

-- One user has the guard, futures 0 and 1 wait with the wakers 70 and 71.
abbrev contended : List (Event ℕ ℕ)
contended = Event.try_lock ∷ Event.poll 0 70 ∷ Event.poll 1 71 ∷ []

abbrev released : List (Event ℕ ℕ)
released = Event.try_lock ∷ Event.poll 0 70 ∷ Event.poll 1 71 ∷ Event.drop_guard ∷ []

abbrev after : List (Event ℕ ℕ) → System ℕ (queue.Q) ℕ
after es = System.run same queue (System.init same queue 5) es

mutual_exclusion_example :
    let s = after contended in (s.guards ≤ 1) × ((s.guards ≡ 1) ↔ (s.mutex.locked ≡ true))
mutual_exclusion_example = mutual_exclusion same queue 5 contended (omega arith)

no_lost_wakeup_example :
    (f : ℕ × ℕ) × (j : ℕ) × In f (after released).woken × ((after released).slots j ≡ some f)
unfolding System.run System.init System.step Mutex.new Mutex.try_lock Mutex.poll Mutex.register
    Mutex.deregister Mutex.unlock Mutex.wake_next Registry.register_in
no_lost_wakeup_example = no_lost_wakeup same queue 5 released 1 (1, 71) (omega arith) refl refl

one_entry_example :
    Distinct (queue.to_list (after contended).mutex.waiters)
    × ((e : ℕ × ℕ)
        → In e (queue.to_list (after contended).mutex.waiters)
        → (i : ℕ) × ((after contended).slots i ≡ some e))
    × ((i : ℕ) (e : ℕ × ℕ)
        → (after contended).slots i ≡ some e
        → In e (queue.to_list (after contended).mutex.waiters) ⊎ In e (after contended).woken)
one_entry_example = one_entry same queue 5 contended (omega arith)

poll_lem_example :
    let m = (after contended).mutex in
    let (ready, m', slot') = Mutex.poll same queue m (some (0, 70)) 70 in
    (ready ≡ not m.locked)
    × (m'.locked ≡ true)
    × (((ready ≡ true)
          × (slot' ≡ none)
          × (queue.to_list m'.waiters ≡ drop_entry (some (0, 70)) (queue.to_list m.waiters)))
        ⊎ ((ready ≡ false)
            × ((e : ℕ × ℕ) × (slot' ≡ some e) × (queued e.0 (queue.to_list m'.waiters) ≡ true))))
poll_lem_example = poll_lem same queue (after contended).mutex (some (0, 70)) 70

hand_over_example :
    let s1 = System.step same queue (after contended) Event.drop_guard in
    let s2 = System.step same queue s1 (Event.poll 0 70) in
    In (0, 70) s1.woken
    × (s1.mutex.locked ≡ false)
    × (s2.guards ≡ 1)
    × (s2.slots 0 ≡ none)
    × (queue.to_list s2.mutex.waiters ≡ (1, 71) ∷ [])
unfolding System.run System.init System.step Mutex.new Mutex.try_lock Mutex.poll Mutex.register
    Mutex.deregister Registry.register_in inline_wait_queue
hand_over_example =
    hand_over same queue (after contended) 0 (0, 70) ((1, 71) ∷ []) 70
      (reached-Inv same queue 5 contended (omega arith)) (omega arith) refl refl
