-- ===== src/RingBuf/Tests.antt =====
-- The theorems about `RingBuf` at work on rings of one and of four slots.
mod Polls
use cynosure.Prelude.{
  ℕ, zero, suc, ◌+◌, ◌-◌, ◌^◌, ◌≤◌, ◌≡◌, refl, sym, subst, Bool, true, false, Option, some, List,
  [], ◌∷◌, ◌++◌, append-nil, take, drop, length, ltb, if◌then◌else◌, arith, Exec, done, panic,
  fault, Returns,
}
use Prim.Native.Nat.{◌∣◌}
use mathlib.Core.List.{tail}
use cynosure.RingBuf
use cynosure.RingBuf.{Shared, Producer, Consumer}
use cynosure.RingBuf.Live.{Live}
use cynosure.RingBuf.Bounded.Push.{try_push_lem}
use cynosure.RingBuf.Bounded.Pop.{try_pop_lem}
use cynosure.RingBuf.System.{
  System, Event, init, step, run, start_push, start_pop, advance_push, advance_pop, arm_producer,
  arm_consumer,
}
use cynosure.RingBuf.Operations
use cynosure.RingBuf.Operations.{drop_shared}
use cynosure.RingBuf.Bounded.{Holds}
use cynosure.RingBuf.Bounded.Count.{counts_lem}
use cynosure.RingBuf.Calls.{Call, QueueTrace, start, calls}
use cynosure.RingBuf.Transfers.{PushSlice, PopSlice, push_slice_poll, pop_slice_poll}
use cynosure.RingBuf.Transfers.Counts.{Counted}
use cynosure.RingBuf.Transfers.Drained.{Drained}
use cynosure.RingBuf.Futures.{push_poll}
use cynosure.RingBuf.Futures.Single.{PushPolled, push_poll-PushPolled}
use cynosure.RingBuf.Counters.{power_below_lem}
use cynosure.RingBuf.Promise.{fifo, push_wakes, pop_wakes, refines, drops_rest}

abbrev ring : ℕ → Shared ℕ
ring capacity = record {
  capacity = capacity;
  buffer = λ _. Option.none;
  write_index = 0;
  read_index = 0;
  producer_armed = false;
  consumer_armed = false;
}

new_one : RingBuf.new {T = ℕ} 1 ≡ done (ring 1)
unfolding RingBuf.new RingBuf.power_below
new_one = refl

new_four : RingBuf.new {T = ℕ} 4 ≡ done (ring 4)
unfolding RingBuf.new RingBuf.power_below
new_four = refl

new_three : RingBuf.new {T = ℕ} 3 ≡ panic
unfolding RingBuf.new RingBuf.power_below
new_three = refl

new_zero : RingBuf.new {T = ℕ} 0 ≡ panic
unfolding RingBuf.new RingBuf.power_below
new_zero = refl

-- The consumer finds the element while the producer has not signaled yet.
abbrev interleaved : List (Event ℕ)
interleaved =
    Event.push 7
    ∷ Event.producer_step
    ∷ Event.pop
    ∷ Event.producer_step
    ∷ Event.pop
    ∷ Event.consumer_step
    ∷ Event.push 8
    ∷ Event.producer_step
    ∷ Event.consumer_step
    ∷ []

fifo_example :
    Returns
      (run (init (ring 4)) interleaved)
      (λ s. (rest : List ℕ) × ((s.sent ≡ s.got ++ rest) × (length rest ≤ 4)))
fifo_example = fifo 4 (ring 4) new_four interleaved

abbrev end_of : Exec (System ℕ) → System ℕ
end_of (done s) = s
end_of panic = init (ring 1)
end_of fault = init (ring 1)

-- A second push waits in a ring of one slot, until the element is popped.
abbrev full_then_popped : List (Event ℕ)
full_then_popped =
    Event.push 7
    ∷ Event.producer_step
    ∷ Event.producer_step
    ∷ Event.producer_step
    ∷ Event.push 8
    ∷ Event.arm_push
    ∷ Event.push 8
    ∷ Event.pop
    ∷ Event.consumer_step
    ∷ Event.consumer_step
    ∷ Event.consumer_step
    ∷ []

abbrev pushing_waits : System ℕ
pushing_waits = end_of (run (init (ring 1)) full_then_popped)

push_wakes_example : pushing_waits.push_woken ≡ true
unfolding run step init start_push start_pop advance_push advance_pop arm_producer arm_consumer
    RingBuf.check_room RingBuf.check_item RingBuf.write_value RingBuf.write_slot RingBuf.read_value
    RingBuf.read_slot RingBuf.publish_write RingBuf.publish_read RingBuf.signal_consumer
    RingBuf.signal_producer RingBuf.split
push_wakes_example =
    push_wakes 1 (ring 1) new_one full_then_popped pushing_waits refl refl (omega arith)
      (λ e. absurd (cc))

-- A pop waits in an empty ring, until an element is pushed.
abbrev empty_then_pushed : List (Event ℕ)
empty_then_pushed =
    Event.pop
    ∷ Event.arm_pop
    ∷ Event.pop
    ∷ Event.push 7
    ∷ Event.producer_step
    ∷ Event.producer_step
    ∷ Event.producer_step
    ∷ []

abbrev popping_waits : System ℕ
popping_waits = end_of (run (init (ring 1)) empty_then_pushed)

pop_wakes_example : popping_waits.pop_woken ≡ true
unfolding run step init start_push start_pop advance_push advance_pop arm_producer arm_consumer
    RingBuf.check_room RingBuf.check_item RingBuf.write_value RingBuf.write_slot RingBuf.read_value
    RingBuf.read_slot RingBuf.publish_write RingBuf.publish_read RingBuf.signal_consumer
    RingBuf.signal_producer RingBuf.split
pop_wakes_example =
    pop_wakes 1 (ring 1) new_one empty_then_pushed popping_waits refl refl (omega arith)
      (λ e. absurd (cc))

abbrev some_calls : List (Call ℕ)
some_calls =
    Call.push 7
    ∷ Call.push_slice (8 ∷ 9 ∷ 10 ∷ 11 ∷ [])
    ∷ Call.pop
    ∷ Call.push 12
    ∷ Call.pop_slice 2
    ∷ []

refines_example :
    Returns
      (calls (start (ring 4)) some_calls)
      (λ (rs, x). (l : List ℕ) × QueueTrace 4 [] some_calls rs l)
refines_example = refines 4 (ring 4) new_four some_calls

drops_rest_example : Returns (calls (start (ring 4)) some_calls) (λ (rs, x).
    Returns (drop_shared (4 + 1) x.shared) (λ (dropped, _). QueueTrace 4 [] some_calls rs dropped))
drops_rest_example = drops_rest 4 (ring 4) new_four some_calls

four_wraps : 4 ∣ 2 ^ 64
unfolding RingBuf.power_below
four_wraps = (power_below_lem 64 4 (omega arith) refl).0

Holds-none : Holds 4 (ring 4) RingBuf.split.0 RingBuf.split.1 []
unfolding RingBuf.split
Holds-none = (
  0,
  (
    (refl, refl, refl),
    (0, (refl, refl, omega arith, omega arith)),
    (0, (refl, refl, omega arith, omega arith)),
    λ j x e. absurd (cc),
  ),
)

counts_lem_example :
    ((Operations.free_count (ring 4) RingBuf.split.0).0 ≡ 4)
    × ((Operations.available_count (ring 4) RingBuf.split.1).0 ≡ 0)
    × ((Operations.seems_empty (ring 4) RingBuf.split.0).0 ≡ true)
    × ((Operations.seems_full (ring 4) RingBuf.split.0).0 ≡ false)
    × ((Operations.is_empty (ring 4) RingBuf.split.1).0 ≡ true)
    × ((Operations.is_full (ring 4) RingBuf.split.1).0 ≡ false)
counts_lem_example =
    counts_lem 4 (omega arith) (ring 4) RingBuf.split.0 RingBuf.split.1 [] Holds-none
