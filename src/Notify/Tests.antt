-- ===== src/Notify/Tests.antt =====
-- The theorems about `WaiterSlot` at work on some interleavings.
use cynosure.Prelude.{
  ℕ, ◌≡◌, refl, true, false, ◌&&◌, List, [], ◌∷◌, Exec, done, panic, fault, Returns, arith, ◌==◌,
  Bool-cases, inl, inr,
}
use cynosure.Notify
use cynosure.Notify.System.{
  System, Signaler, Event, init, step, run, start_arm, wait_step, start_signal, signal_step,
}
use cynosure.Notify.Promise.{accessing, takes, exclusive, pending_woken}

-- A signal for the last arming comes while the task registers a new waker.
abbrev raced : List Event
raced =
    Event.arm 5
    ∷ Event.waiter_step
    ∷ Event.waiter_step
    ∷ Event.waiter_step
    ∷ Event.waiter_step
    ∷ Event.waiter_step
    ∷ Event.publish 0
    ∷ Event.signaler_step 0
    ∷ Event.arm 6
    ∷ Event.waiter_step
    ∷ Event.signaler_step 0
    ∷ Event.signaler_step 0
    ∷ Event.waiter_step
    ∷ Event.waiter_step
    ∷ Event.waiter_step
    ∷ []

exclusive_example : Returns (run init raced) (λ s.
    (accessing s.waiter && takes (s.signalers 0) ≡ false)
    × (takes (s.signalers 0) && takes (s.signalers 1) ≡ false))
exclusive_example = exclusive raced 0 1 (λ e. absurd (omega (arith, e)))

abbrev end_of : Exec System → System
end_of (done s) = s
end_of panic = init
end_of fault = init

-- The task parks, and then the state is published and signaled.
abbrev parked_first : List Event
parked_first =
    Event.arm 5
    ∷ Event.waiter_step
    ∷ Event.waiter_step
    ∷ Event.waiter_step
    ∷ Event.waiter_step
    ∷ Event.waiter_step
    ∷ Event.publish 0
    ∷ Event.signaler_step 0
    ∷ Event.signaler_step 0
    ∷ Event.signaler_step 0
    ∷ Event.signaler_step 0
    ∷ Event.signaler_step 0
    ∷ Event.signaler_step 0
    ∷ []

abbrev at_rest : System
at_rest = end_of (run init parked_first)

pending_woken_example : at_rest.woken ≡ true
unfolding run step init start_arm wait_step start_signal signal_step Notify.new
    Notify.begin_register Notify.store_waker Notify.end_register Notify.set_armed Notify.claim
    Notify.begin_take Notify.take_waker Notify.end_take
pending_woken_example = pending_woken parked_first at_rest refl refl refl quiet
  where
    quiet : (i : ℕ) → at_rest.signalers i ≡ Signaler.idle
    quiet i = elim (Bool-cases (0 == i)) [ inl e ↦ rw e refl | inr e ↦ rw e refl ]
