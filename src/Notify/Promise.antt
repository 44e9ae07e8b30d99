-- ===== src/Notify/Promise.antt =====
-- What a `WaiterSlot` promises.
use cynosure.Prelude.{
  ℕ, ◌≡◌, ◌≢◌, refl, subst, inl, inr, Bool, true, false, ◌&&◌, List, [], ◌∷◌, done, Returns,
  Returns-bind, Returns-at,
}
use cynosure.Notify.System.{System, Waiter, Signaler, Event, init, step, run}
use cynosure.Notify.Invariant.{in_lock, locks, Phase, Inv, init-Inv}
use cynosure.Notify.Calls.{signal_step-Inv, start_signal-Inv}
use cynosure.Notify.Waits.{wait_step-Inv, start_arm-Inv, start_consume-Inv}

step-Inv : (s : System) (e : Event) → Inv s → Returns (step s e) Inv
unfolding step
step-Inv s (Event.arm w) v = (_, refl, start_arm-Inv s v s.waiter w refl)
step-Inv s (Event.consume more) v = (_, refl, start_consume-Inv s v s.waiter more refl)
step-Inv s Event.waiter_step v = wait_step-Inv s v s.waiter refl
step-Inv s (Event.publish i) v = (_, refl, start_signal-Inv s i (s.signalers i) v refl)
step-Inv s (Event.signaler_step i) v = (_, refl, signal_step-Inv s i (s.signalers i) v refl)

run-Inv : (s : System) (es : List Event) → Inv s → Returns (run s es) Inv
unfolding run
run-Inv s [] v = (s, refl, v)
run-Inv s (e ∷ es) v =
    Returns-bind (step s e) (λ s'. run s' es) (step-Inv s e v) (λ s' v'. run-Inv s' es v')

-- Whether the task is about to access the cell of the waker, and whether a thread is
abbrev pub accessing : Waiter → Bool
accessing Waiter.idle = false
accessing Waiter.registering = false
accessing Waiter.storing = true
accessing Waiter.unlocking = false
accessing Waiter.raced = true
accessing (Waiter.releasing w) = false
accessing (Waiter.firing w) = false
accessing Waiter.arming = false
accessing Waiter.checking = false
accessing Waiter.disarming = false
accessing Waiter.parked = false

accessing-in_lock : (t : Waiter) → accessing t ≡ true → in_lock t ≡ true
accessing-in_lock Waiter.idle e = absurd (cc)
accessing-in_lock Waiter.registering e = absurd (cc)
accessing-in_lock Waiter.storing e = refl
accessing-in_lock Waiter.unlocking e = refl
accessing-in_lock Waiter.raced e = refl
accessing-in_lock (Waiter.releasing w) e = refl
accessing-in_lock (Waiter.firing w) e = absurd (cc)
accessing-in_lock Waiter.arming e = absurd (cc)
accessing-in_lock Waiter.checking e = absurd (cc)
accessing-in_lock Waiter.disarming e = absurd (cc)
accessing-in_lock Waiter.parked e = absurd (cc)

abbrev pub takes : Signaler → Bool
takes Signaler.idle = false
takes Signaler.loading = false
takes Signaler.claiming = false
takes Signaler.locking = false
takes Signaler.taking = true
takes (Signaler.unlocking w) = false
takes (Signaler.calling w) = false

takes-locks : (p : Signaler) → takes p ≡ true → locks p ≡ true
takes-locks Signaler.idle e = absurd (cc)
takes-locks Signaler.loading e = absurd (cc)
takes-locks Signaler.claiming e = absurd (cc)
takes-locks Signaler.locking e = absurd (cc)
takes-locks Signaler.taking e = refl
takes-locks (Signaler.unlocking w) e = absurd (cc)
takes-locks (Signaler.calling w) e = absurd (cc)

-- Two tests are not true together if that would be absurd.
not_both : (b c : Bool) → (b ≡ true → c ≡ true → ⊥) → b && c ≡ false
not_both true true no_way = absurd (no_way refl refl)
not_both true false no_way = refl
not_both false c no_way = refl

-- However the steps of one waiting task and any number of signaling threads are interleaved, nothing
-- panics: in `register` the `debug_assert_eq!` finds the state that it names, and the `unwrap` a waker. Of
-- two threads at most one is about to take the waker out of its cell, and none is while the task is about
-- to write the cell or to take the waker back.
pub exclusive :
    (es : List Event) (i j : ℕ)
    → i ≢ j
    → Returns (run init es) (λ s.
      (accessing s.waiter && takes (s.signalers i) ≡ false)
      × (takes (s.signalers i) && takes (s.signalers j) ≡ false))
exclusive es i j ne =
    let (s, ran, v) = run-Inv init es init-Inv in
    (
      s,
      ran,
      (
        not_both (accessing s.waiter) (takes (s.signalers i)) (λ a t.
            let mine = v.lock.owned i (takes-locks _ t) in
            let (_, out, _) = v.lock.owner_at i mine in
            absurd (cc (out, v.locked, accessing-in_lock _ a))),
        not_both (takes (s.signalers i)) (takes (s.signalers j))
            (λ t u. ne (cc (v.lock.owned i (takes-locks _ t), v.lock.owned j (takes-locks _ u)))),
      ),
    )

-- No wakeup is lost: if the task is pending while what it waits for is published, and no thread is under
-- way to signal, then the waker of its last poll was called since that poll began.
pub pending_woken :
    (es : List Event) (s : System)
    → run init es ≡ done s
    → s.waiter ≡ Waiter.parked
    → s.ready ≡ true
    → ((i : ℕ) → s.signalers i ≡ Signaler.idle)
    → s.woken ≡ true
pending_woken es s ran parked ready quiet =
    let v = Returns-at (run init es) s (run-Inv init es init-Inv) ran in
    let (_, _, go) = subst (Phase s) parked v.phase in
    elim go [
      | inl not_yet ↦ absurd (cc (not_yet, ready))
      | inr (inl (inl woken)) ↦ woken
      | inr (inl (inr (i, fire))) ↦ absurd (cc (fire, quiet i))
      | inr (inr (inl (i, hold))) ↦ absurd (cc (hold, quiet i))
      | inr (inr (inr (_, (i, come)))) ↦ absurd (cc (come, quiet i))
    ]
