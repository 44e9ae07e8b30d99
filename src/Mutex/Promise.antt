-- ===== src/Mutex/Promise.antt =====
-- What `LocalMutex` promises its users, in every state that calls can lead to.
use cynosure.Prelude.{
  ℕ, ◌+◌, ◌^◌, ◌≤◌, ◌<◌, ◌≡◌, ◌≢◌, ◌↔◌, refl, ap, ◌∙◌, subst, ◌⊎◌, inl, inr, Bool, true, false, not,
  Option, none, some, List, [], ◌∷◌, arith, length, of_bool, Bool-cases, reject, lt→ltb, update,
  update_self, ◌-◌,
}
use cynosure.Waiters.{WaitQueue}
use cynosure.Waiters.Entries.{In, Distinct, In-append_end, reject-absent, has_id, queued}
use cynosure.Mutex
use cynosure.Mutex.{Mutex}
use cynosure.Mutex.System
use cynosure.Mutex.System.{System, Event}
use cynosure.Waiters.Registry.Invariant.{drop_entry, with_wake}
use cynosure.Waiters.Registry.Keep.{to_list-deregister_in}
use cynosure.Waiters.Registry.Queued.{register_in-queued}
use cynosure.Waiters.Registry.{deregister_in}
use cynosure.Waiters.Registry.Wake.{pop_front_cases}
use cynosure.Mutex.Safety.{Inv, init-Inv, run-Inv, poll_free, poll_held}

guards_iff : (g : ℕ) (b : Bool) → g ≡ of_bool b → (g ≤ 1) × ((g ≡ 1) ↔ (b ≡ true))
guards_iff g true e = (omega arith, ((λ _. refl), (λ _. e)))
guards_iff g false e = (omega arith, ((λ q. absurd (omega arith)), (λ q. absurd (cc))))

module _ {P : Type 0} where
  In-head : (l : List (ℕ × P)) → l ≢ [] → (e : ℕ × P) × In e l
  In-head [] ne = absurd (ne refl)
  In-head (e ∷ l) ne = (e, inl refl)

module _ {W T : Type 0} (same : W → W → Bool) (d : WaitQueue (ℕ × W)) where
  open d use {Q, to_list, pop_front}

  pub reached-Inv :
      (v : T) (es : List (Event W T))
      → length es < 2 ^ 64
      → Inv same d (System.run same d (System.init same d v) es)
  unfolding System.init Mutex.new
  reached-Inv v es few = run-Inv same d _ es (omega arith) (init-Inv same d v)

  -- At most one guard is out at any time, and one is out exactly while the mutex is locked.
  pub mutual_exclusion :
      (v : T) (es : List (Event W T))
      → length es < 2 ^ 64
      → let s = System.run same d (System.init same d v) es in
        (s.guards ≤ 1) × ((s.guards ≡ 1) ↔ (s.mutex.locked ≡ true))
  mutual_exclusion v es few =
      let s = System.run same d (System.init same d v) es in
      guards_iff s.guards s.mutex.locked (reached-Inv v es few).exclusive

  -- If the mutex is free while some lock future waits, a future that is alive has been woken and has
  -- not been polled since: the turn is never lost, whoever barges in or is cancelled.
  pub no_lost_wakeup :
      (v : T) (es : List (Event W T)) (i : ℕ) (e : ℕ × W)
      → length es < 2 ^ 64
      → let s = System.run same d (System.init same d v) es in
        s.mutex.locked ≡ false
        → s.slots i ≡ some e
        → (f : ℕ × W) × (j : ℕ) × In f s.woken × (s.slots j ≡ some f)
  no_lost_wakeup v es i e few free at =
      let s = System.run same d (System.init same d v) es in
      let inv = reached-Inv v es few in
      let (f, h) = under_way s inv free at in
      let (j, own) = inv.tracks.woken_owned f h in (f, j, h, own)
    where
      under_way :
          (s : System W Q T)
          → Inv same d s
          → s.mutex.locked ≡ false
          → s.slots i ≡ some e
          → (f : ℕ × W) × In f s.woken
      under_way s inv free at' = elim (inv.progress free) [
        | inl none_queued ↦ elim (inv.tracks.placed i e at') [
          | inl k ↦ elim (subst (In e) none_queued k) [ ]
          | inr k ↦ (e, k)
        ]
        | inr ne ↦ In-head s.woken ne
      ]

  -- Each waiting future has at most one entry in the queue, each entry is that of a future that is
  -- alive, and a future that waits is queued or has been woken since its last poll.
  pub one_entry :
      (v : T) (es : List (Event W T))
      → length es < 2 ^ 64
      → let s = System.run same d (System.init same d v) es in
        Distinct (to_list s.mutex.waiters)
        × ((e : ℕ × W) → In e (to_list s.mutex.waiters) → (i : ℕ) × (s.slots i ≡ some e))
        × ((i : ℕ) (e : ℕ × W) → s.slots i ≡ some e → In e (to_list s.mutex.waiters) ⊎ In e s.woken)
  one_entry v es few =
      let inv = reached-Inv v es few in
      (inv.tracks.distinct, inv.tracks.queue_owned, inv.tracks.placed)

  -- A poll hands out the guard exactly if the mutex is free, and leaves it locked. A future that is
  -- ready has left the queue; one that is pending stands in it.
  pub poll_lem :
      (m : Mutex Q T) (slot : Option (ℕ × W)) (w : W)
      → let (ready, m', slot') = Mutex.poll same d m slot w in
        (ready ≡ not m.locked)
        × (m'.locked ≡ true)
        × (((ready ≡ true)
              × (slot' ≡ none)
              × (to_list m'.waiters ≡ drop_entry slot (to_list m.waiters)))
            ⊎ ((ready ≡ false)
                × ((e : ℕ × W) × (slot' ≡ some e) × (queued e.0 (to_list m'.waiters) ≡ true))))
  poll_lem m slot w = elim (Bool-cases m.locked) [
    | inl h ↦
        rw (poll_held same d m slot w h, h)
          (refl, refl, inr (refl, register_in-queued same d m.waiters m.next_id slot w))
    | inr h ↦
        rw (poll_free same d m slot w h, h)
          (refl, refl, inl (refl, refl, to_list-deregister_in same d m.waiters slot))
  ]

  -- The system after the guard of `s` is dropped.
  abbrev freed : System W Q T → System W Q T
  freed s = record {
    mutex = record s.mutex { locked = false; waiters = (pop_front s.mutex.waiters).1 };
    slots = s.slots;
    guards = s.guards - 1;
    woken = with_wake (pop_front s.mutex.waiters).0 s.woken;
  }

  drop_guard-eq :
      (s : System W Q T) → 0 < s.guards → System.step same d s Event.drop_guard ≡ freed s
  unfolding System.step Mutex.unlock Mutex.wake_next
  drop_guard-eq s out = rw (lt→ltb 0 s.guards out)

  poll-eq :
      (s : System W Q T) (i : ℕ) (w : W)
      → s.mutex.locked ≡ false
      → System.step same d s (Event.poll i w) ≡ record {
        mutex = record s.mutex {
          locked = true;
          waiters = deregister_in same d s.mutex.waiters (s.slots i);
        };
        slots = update s.slots i none;
        guards = s.guards + 1;
        woken = drop_entry (s.slots i) s.woken;
      }
  unfolding System.step
  poll-eq s i w free = rw (poll_free same d s.mutex (s.slots i) w free)

  -- When a guard is dropped, the waiter at the front of the queue is woken; if its future is the next to
  -- poll, it gets the guard, and the waiters behind it keep their order.
  pub hand_over :
      (s : System W Q T) (i : ℕ) (e : ℕ × W) (l : List (ℕ × W)) (w : W)
      → Inv same d s
      → 0 < s.guards
      → s.slots i ≡ some e
      → to_list s.mutex.waiters ≡ e ∷ l
      → let s1 = System.step same d s Event.drop_guard in
        let s2 = System.step same d s1 (Event.poll i w) in
        In e s1.woken
        × (s1.mutex.locked ≡ false)
        × (s2.guards ≡ 1)
        × (s2.slots i ≡ none)
        × (to_list s2.mutex.waiters ≡ l)
  hand_over s i e l w inv out at front =
      rw (drop_guard-eq s out, poll-eq (freed s) i w refl)
        (
          called,
          refl,
          omega (arith, (guards_iff s.guards s.mutex.locked inv.exclusive).0),
          update_self s.slots i none,
          left,
        )
    where
      pop : ((pop_front s.mutex.waiters).0 ≡ some e) × (to_list (pop_front s.mutex.waiters).1 ≡ l)
      pop = elim (pop_front_cases d s.mutex.waiters) [
        | inl (none_queued, _, _) ↦ absurd (cc)
        | inr (f, k, at_f, value, rest) ↦ (cc, cc)
      ]

      called : In e (with_wake (pop_front s.mutex.waiters).0 s.woken)
      called = rw pop.0 (In-append_end e s.woken)

      apart : (f : ℕ × W) → In f l → f.0 ≢ e.0
      apart = (subst Distinct front inv.tracks.distinct).0

      left : to_list (deregister_in same d (pop_front s.mutex.waiters).1 (s.slots i)) ≡ l
      left =
          ap (λ o. to_list (deregister_in same d (pop_front s.mutex.waiters).1 o)) at
          ∙ to_list-deregister_in same d (pop_front s.mutex.waiters).1 (some e)
          ∙ ap (reject (has_id e.0)) pop.1
          ∙ reject-absent e.0 l apart
