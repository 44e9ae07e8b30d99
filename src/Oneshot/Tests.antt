-- ===== src/Oneshot/Tests.antt =====
-- The theorems about the channel at work on some interleavings.
use cynosure.Prelude.{ℕ, ◌≡◌, refl, true, List, [], ◌∷◌, ◌++◌, Exec, done, panic, fault, Returns}
use cynosure.Oneshot
use cynosure.Oneshot.{drop_inner}
use cynosure.Oneshot.System.{
  System, Event, init, step, run, start_send, start_drop, send_step, receive_step,
}
use cynosure.Oneshot.Invariant.{carried, slot}
use cynosure.Oneshot.Promise.{in_one_place, dropped_unread, gone_wakes}

abbrev end_of : Exec (System ℕ) → System ℕ
end_of (done s) = s
end_of panic = init
end_of fault = init

-- The receiver is dropped between the load and the store of the sender, whose store loses that bit.
abbrev dropped_between : List (Event ℕ)
dropped_between =
    Event.send 7
    ∷ Event.sender_step
    ∷ Event.drop_receiver
    ∷ Event.receiver_step
    ∷ Event.sender_step
    ∷ Event.sender_step
    ∷ Event.sender_step
    ∷ Event.sender_step
    ∷ []

in_one_place_example :
    Returns
      (run init dropped_between)
      (λ s. s.offered ≡ s.received ++ (s.returned ++ (carried s.sender ++ slot s.inner.value)))
in_one_place_example = in_one_place dropped_between

abbrev both_gone : System ℕ
both_gone = end_of (run init dropped_between)

dropped_unread_example :
    Returns
      (drop_inner both_gone.inner)
      (λ dropped. both_gone.offered ≡ both_gone.received ++ (both_gone.returned ++ dropped))
unfolding run step init start_send start_drop send_step receive_step Oneshot.oneshot
    Oneshot.write_value Oneshot.publish Oneshot.signal Oneshot.mark_receiver_dropped
dropped_unread_example = dropped_unread dropped_between both_gone refl refl refl

abbrev sent_to_pending : List (Event ℕ)
sent_to_pending =
    Event.poll
    ∷ Event.receiver_step
    ∷ Event.receiver_step
    ∷ Event.receiver_step
    ∷ Event.send 7
    ∷ Event.sender_step
    ∷ Event.sender_step
    ∷ Event.sender_step
    ∷ Event.sender_step
    ∷ Event.sender_step
    ∷ []

abbrev pending : System ℕ
pending = end_of (run init sent_to_pending)

gone_wakes_example : pending.woken ≡ true
unfolding run step init start_send start_drop send_step receive_step Oneshot.oneshot
    Oneshot.write_value Oneshot.publish Oneshot.signal Oneshot.mark_receiver_dropped
gone_wakes_example = gone_wakes sent_to_pending pending refl refl refl
