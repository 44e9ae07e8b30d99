-- ===== src/Mutex/Safety.antt =====
-- The invariant of a `LocalMutex` and its users: mutual exclusion, one queue entry for each waiting
-- future, and no lost wakeup.
use cynosure.Prelude.{
  ℕ, ◌+◌, ◌^◌, ◌≤◌, ◌<◌, ◌≡◌, ◌≢◌, refl, ap, ◌∙◌, subst, ◌⊎◌, inl, inr, Bool, true, false, Option,
  none, some, List, [], ◌∷◌, arith, length, ltb, of_bool, update, Bool-cases, Option-cases,
}
use cynosure.Waiters.{WaitQueue}
use cynosure.Waiters.Registry.{register_in, deregister_in}
use cynosure.Waiters.Registry.Invariant.{Tracks, Tracks-empty, Tracks-leave, drop_entry, with_wake}
use cynosure.Waiters.Registry.Keep.{next_id-register_in, register_in-Joined, deregister_in-Tracks}
use cynosure.Waiters.Registry.Wake.{wake_front}
use cynosure.Mutex
use cynosure.Mutex.{Mutex}
use cynosure.Mutex.System
use cynosure.Mutex.System.{System, Event}

module _ {W T : Type 0} (same : W → W → Bool) (d : WaitQueue (ℕ × W)) where
  open d use {Q, to_list, pop_front}

  pub poll_free :
      (m : Mutex Q T) (slot : Option (ℕ × W)) (w : W)
      → m.locked ≡ false
      → Mutex.poll same d m slot w
        ≡ (true, record m { locked = true; waiters = deregister_in same d m.waiters slot }, none)
  unfolding Mutex.poll Mutex.try_lock Mutex.deregister
  poll_free m slot w e = rw e

  pub poll_held :
      (m : Mutex Q T) (slot : Option (ℕ × W)) (w : W)
      → m.locked ≡ true
      → Mutex.poll same d m slot w ≡ (
          let r = register_in same d m.waiters m.next_id slot w in
          (false, record m { locked = true; waiters = r.queue; next_id = r.next_id }, r.slot))
  unfolding Mutex.poll Mutex.try_lock Mutex.register
  poll_held m slot w e = rw e

  -- What is true of a mutex and its users at all times.
  pub record Inv (s : System W Q T) : Type 0 where
    pub tracks : Tracks (to_list s.mutex.waiters) s.slots s.woken s.mutex.next_id
    pub exclusive : s.guards ≡ of_bool s.mutex.locked
    pub progress : s.mutex.locked ≡ false → (to_list s.mutex.waiters ≡ []) ⊎ (s.woken ≢ [])

  pub init-Inv : (v : T) → Inv (System.init same d v)
  unfolding System.init Mutex.new
  init-Inv v = record {
    tracks = rw d.to_list-new (Tracks-empty 0);
    exclusive = refl;
    progress = λ _. inl d.to_list-new;
  }

  try_lock-Inv : (s : System W Q T) → Inv s → Inv (System.step same d s Event.try_lock)
  unfolding System.step Mutex.try_lock
  try_lock-Inv s v = record {
    tracks = v.tracks;
    exclusive = ground (arith, v.exclusive);
    progress = λ e. absurd (cc);
  }

  poll-Inv :
      (s : System W Q T) (i : ℕ) (w : W)
      → s.mutex.next_id + 1 < 2 ^ 64
      → Inv s
      → Inv (System.step same d s (Event.poll i w))
  unfolding System.step
  poll-Inv s i w room v = elim (Bool-cases s.mutex.locked) [
    | inl e ↦ rw (poll_held s.mutex (s.slots i) w e) (record {
      tracks =
          (register_in-Joined same d s.mutex.waiters s.slots s.woken s.mutex.next_id i w room
            v.tracks).0;
      exclusive = omega (arith, v.exclusive ∙ ap of_bool e);
      progress = λ k. absurd (cc);
    })
    | inr e ↦ rw (poll_free s.mutex (s.slots i) w e) (record {
      tracks =
          deregister_in-Tracks same d s.mutex.waiters s.slots s.woken s.mutex.next_id i v.tracks;
      exclusive = omega (arith, v.exclusive ∙ ap of_bool e);
      progress = λ k. absurd (cc);
    })
  ]

  drop_guard-Inv : (s : System W Q T) → Inv s → Inv (System.step same d s Event.drop_guard)
  unfolding System.step Mutex.unlock Mutex.wake_next
  drop_guard-Inv s v = elim (Bool-cases (ltb 0 s.guards)) [
    | inl e ↦
        let (t, p) = wake_front d s.mutex.waiters s.slots s.woken s.mutex.next_id v.tracks in
        rw e (record { tracks = t; exclusive = ground (arith, v.exclusive); progress = λ _. p })
    | inr e ↦ rw e v
  ]

  -- A future with an entry leaves, and passes its turn on.
  leave_queued :
      (s : System W Q T) (i : ℕ) (e : ℕ × W)
      → Inv s
      → Tracks
          (to_list (deregister_in same d s.mutex.waiters (some e)))
          (update s.slots i none)
          (drop_entry (some e) s.woken)
          s.mutex.next_id
      → let (o, m) = Mutex.wake_next same d (Mutex.deregister same d s.mutex (some e)) in
        Inv (record {
          mutex = m;
          slots = update s.slots i none;
          guards = s.guards;
          woken = with_wake o (drop_entry (some e) s.woken);
        })
  unfolding Mutex.wake_next Mutex.deregister
  leave_queued s i e v t = elim (Bool-cases s.mutex.locked) [
    | inl l ↦
        rw l (record {
          tracks = t;
          exclusive = v.exclusive ∙ ap of_bool l;
          progress = λ k. absurd (cc);
        })
    | inr l ↦
        let (u, p) =
          wake_front d (deregister_in same d s.mutex.waiters (some e)) (update s.slots i none)
            (drop_entry (some e) s.woken) s.mutex.next_id t in
        rw l (record { tracks = u; exclusive = v.exclusive ∙ ap of_bool l; progress = λ _. p })
  ]

  drop_future-Inv :
      (s : System W Q T) (i : ℕ) → Inv s → Inv (System.step same d s (Event.drop_future i))
  unfolding System.step Mutex.drop_future Mutex.wake_next Mutex.deregister
  drop_future-Inv s i v = elim (Option-cases (s.slots i)) [
    | inl at ↦
        let t = Tracks-leave (to_list s.mutex.waiters) s.slots s.woken s.mutex.next_id i v.tracks in
        rw (at, Mutex.drop_future)
          (record {
            tracks =
                subst
                  (λ o.
                    Tracks (drop_entry o (to_list s.mutex.waiters)) (update s.slots i none)
                      (drop_entry o s.woken) s.mutex.next_id)
                  at t;
            exclusive = v.exclusive;
            progress = v.progress;
          })
    | inr (e, at) ↦
        let t =
          subst
            (λ o.
              Tracks (to_list (deregister_in same d s.mutex.waiters o)) (update s.slots i none)
                (drop_entry o s.woken) s.mutex.next_id)
            at
            (deregister_in-Tracks same d s.mutex.waiters s.slots s.woken s.mutex.next_id i
              v.tracks) in
        rw (at, Mutex.drop_future) (leave_queued s i e v t)
  ]

  write-Inv : (s : System W Q T) (x : T) → Inv s → Inv (System.step same d s (Event.write x))
  unfolding System.step Mutex.assign
  write-Inv s x v = elim (Bool-cases (ltb 0 s.guards)) [
    | inl e ↦ rw e (record { tracks = v.tracks; exclusive = v.exclusive; progress = v.progress })
    | inr e ↦ rw e v
  ]

  next_id-le :
      (s : System W Q T) (e : Event W T)
      → (System.step same d s e).mutex.next_id ≤ s.mutex.next_id + 1
  unfolding System.step Mutex.try_lock Mutex.poll Mutex.register Mutex.deregister Mutex.drop_future
      Mutex.unlock Mutex.wake_next Mutex.assign
  next_id-le s Event.try_lock = omega arith
  next_id-le s (Event.poll i w) =
      ground (arith, next_id-register_in same d s.mutex.waiters s.mutex.next_id (s.slots i) w)
  next_id-le s (Event.drop_future i) = ground arith
  next_id-le s Event.drop_guard = ground arith
  next_id-le s (Event.write x) = ground arith

  pub step-Inv :
      (s : System W Q T) (e : Event W T)
      → s.mutex.next_id + 1 < 2 ^ 64
      → Inv s
      → Inv (System.step same d s e)
  step-Inv s Event.try_lock room v = try_lock-Inv s v
  step-Inv s (Event.poll i w) room v = poll-Inv s i w room v
  step-Inv s (Event.drop_future i) room v = drop_future-Inv s i v
  step-Inv s Event.drop_guard room v = drop_guard-Inv s v
  step-Inv s (Event.write x) room v = write-Inv s x v

  pub run-Inv :
      (s : System W Q T) (es : List (Event W T))
      → s.mutex.next_id + length es < 2 ^ 64
      → Inv s
      → Inv (System.run same d s es)
  unfolding System.run
  run-Inv s [] room v = v
  run-Inv s (e ∷ es) room v =
      run-Inv (System.step same d s e) es (omega (arith, next_id-le s e))
        (step-Inv s e (omega arith) v)
