-- ===== src/RingBuf/Tests/Polls.antt =====
-- The theorems about the polls of the futures of `RingBuf` at work on rings of one slot, with the other
-- half at work between the attempts.
use cynosure.Prelude.{
  ℕ, zero, suc, ◌^◌, ◌≡◌, refl, subst, Bool, false, Option, some, List, [], ◌∷◌, drop, arith, Exec,
  done, panic, fault, Returns,
}
use Prim.Native.Nat.{◌∣◌}
use mathlib.Core.List.{tail}
use cynosure.RingBuf
use cynosure.RingBuf.{Shared, Producer, Consumer}
use cynosure.RingBuf.Live.{Live}
use cynosure.RingBuf.Bounded.Pop.{try_pop_lem}
use cynosure.RingBuf.Operations
use cynosure.RingBuf.Operations.{drop_shared}
use cynosure.RingBuf.Bounded.{Holds}
use cynosure.RingBuf.Transfers.{PushSlice, PopSlice}
use cynosure.RingBuf.Transfers.Drained.{Drained}
use cynosure.RingBuf.Futures.{push_poll}
use cynosure.RingBuf.Futures.Single.{PushPolled, push_poll-PushPolled}
use cynosure.RingBuf.Counters.{power_below_lem}

abbrev two_to_push : PushSlice ℕ
two_to_push = record { items = 7 ∷ 8 ∷ []; pushed_so_far = 0; progress = some 0 }

abbrev two_to_pop : PopSlice ℕ
two_to_pop = record { items = 0 ∷ 0 ∷ []; popped_so_far = 0; progress = some 0 }

-- A consumer that pops one element; it reads the indices anew.
after : {A B C : Type 0} → A → Exec (B × C × A × Consumer) → A
after s (done (got, woken, s', c)) = s'
after s panic = s
after s fault = s

abbrev fresh : Shared ℕ → Consumer
fresh s = record { cached_read = s.read_index; cached_write = s.read_index }

consume_one : Shared ℕ → Shared ℕ
unfolding after
consume_one s = after s (Operations.try_pop s (fresh s))

one_wraps : 1 ∣ 2 ^ 64
unfolding RingBuf.power_below
one_wraps = (power_below_lem 64 1 (omega arith) refl).0

tail-drop : {T : Type 0} (l : List T) → tail l ≡ drop 1 l
tail-drop [] = refl
tail-drop (x ∷ l) = refl

consume_one_lem :
    (s : Shared ℕ) (p : Producer) (c : Consumer) (l : List ℕ)
    → Holds 1 s p c l
    → (c' : Consumer) × (Holds 1 (consume_one s) p c' (drop 1 l)
        × (◌≡◌ {A = ℕ} 1 0 → (consume_one s).producer_armed ≡ s.producer_armed))
unfolding consume_one after
consume_one_lem s p c l (r, ((size, w_at, r_at), knows, _, live)) =
    let ((got, woken, s', c'), ran, (_, _, _, h)) =
      try_pop_lem 1 (omega arith) one_wraps (omega arith) s p (fresh s) l
        (r, ((size, w_at, r_at), knows, (r, (r_at, r_at, omega arith, omega arith)), live)) in
    rw ran (c', (subst (Holds 1 s' p c') (tail-drop l) h, λ e. absurd (cc)))

-- A ring of one slot that is full
abbrev full_one : Shared ℕ
full_one = record {
  capacity = 1;
  buffer = λ _. some 5;
  write_index = 1;
  read_index = 0;
  producer_armed = false;
  consumer_armed = false;
}

abbrev wrote_one : Producer
wrote_one = record { cached_read = 0; cached_write = 1 }

Holds-one : Holds 1 full_one wrote_one RingBuf.split.1 (5 ∷ [])
unfolding RingBuf.split
Holds-one = (
  0,
  (
    (refl, refl, refl),
    (0, (refl, refl, omega arith, omega arith)),
    (0, (refl, refl, omega arith, omega arith)),
    there,
  ),
)
  where
    there : Live {T = ℕ} 1 (λ _. some 5) 0 (5 ∷ [])
    there zero x e = e
    there (suc j) x e = absurd (cc)

push_poll-PushPolled_example :
    Returns (push_poll consume_one full_one wrote_one (some 7)) (PushPolled 1 1 (5 ∷ []) 7 false)
push_poll-PushPolled_example =
    push_poll-PushPolled 1 (omega arith) one_wraps (omega arith) consume_one 1 consume_one_lem
      full_one wrote_one RingBuf.split.1 (5 ∷ []) 7 Holds-one

-- The ring stays full.
push_poll-PushPolled_pends :
    Returns (push_poll (λ s. s) full_one wrote_one (some 7)) (PushPolled 1 0 (5 ∷ []) 7 false)
push_poll-PushPolled_pends =
    push_poll-PushPolled 1 (omega arith) one_wraps (omega arith) (λ s. s) 0
      (λ s p c l h. (c, (h, λ _. refl))) full_one wrote_one RingBuf.split.1 (5 ∷ []) 7 Holds-one

-- A producer that pushes one element; it reads the indices anew.
abbrev anew : Shared ℕ → Producer
anew s = record { cached_read = s.read_index; cached_write = s.write_index }

after_push : Shared ℕ → Exec (Bool × Bool × Shared ℕ × Producer) → Shared ℕ
after_push s (done (ok, woken, s', p)) = s'
after_push s panic = s
after_push s fault = s

produce_one : Shared ℕ → Shared ℕ
unfolding after_push
produce_one s = after_push s (Operations.try_push s (anew s) 9)

-- A ring of one slot that is empty
abbrev empty_one : Shared ℕ
empty_one = record {
  capacity = 1;
  buffer = λ _. Option.none;
  write_index = 0;
  read_index = 0;
  producer_armed = false;
  consumer_armed = false;
}
