-- ===== src/Pool/Tests.antt =====
-- A `LocalBufferPool<u8>` over a list of waiters, and the theorems at runs of it.
use cynosure.Prelude.{
  ℕ, ◌+◌, ◌^◌, ◌≡◌, ◌⊎◌, refl, Bool, true, false, none, some, List, [], ◌∷◌, length, replicate,
  arith, ◌==◌, Returns,
}
use cynosure.Waiters.{WaitQueue}
use cynosure.Waiters.Lists.{list_wait_queue}
use cynosure.Semaphore.{Request}
use cynosure.Pool
use cynosure.Pool.{Pool, Buffer, Element, valid_layout}
use cynosure.RingBuf.{power_below}
use cynosure.Pool.System
use cynosure.Pool.System.{System, Event}
use cynosure.Pool.Balance.{pool_balanced, try_acquire-clean}

abbrev queue : WaitQueue (ℕ × Request ℕ)
queue = list_wait_queue (ℕ × Request ℕ)

abbrev same : ℕ → ℕ → Bool
same a b = a == b

abbrev used : Buffer ℕ
used = record { cells = 7 ∷ 8 ∷ []; len = 2 }

-- Two buffers leave, a future waits for a third, and a used one comes back.
abbrev script : List (Event ℕ ℕ)
script =
    Event.try_acquire
    ∷ Event.try_acquire
    ∷ Event.poll 0 70
    ∷ Event.drop_buffer used
    ∷ Event.poll 0 70
    ∷ []

abbrev byte : Element
byte = record { size = 1; align = 1 }

-- Two bytes on a page, as for direct input and output
byte_page : valid_layout byte 2 4096 ≡ true
unfolding valid_layout power_below
byte_page = refl

-- No layout has more than `isize::MAX` bytes.
too_long : valid_layout byte (2 ^ 63) 1 ≡ false
unfolding valid_layout power_below
too_long = refl

pool_balanced_example :
    Returns
      (System.start same queue 0 byte 2 2 (2 ^ 12) true script)
      (λ s. (length s.pool.free ≡ s.pool.sem.permits) × (s.pool.sem.permits + s.out ≡ 2))
pool_balanced_example =
    pool_balanced same queue 0 byte 2 2 12 true script (omega arith) (omega arith) (omega arith)
      (omega arith) (omega arith) (omega arith)

abbrev one_used : Pool (queue.Q) ℕ
one_used = record {
  free = used ∷ [];
  sem = record { permits = 1; waiters = queue.new; next_id = 0 };
  clear_on_checkout = true;
}

try_acquire-clean_example : Returns (Pool.try_acquire same queue 0 one_used) (λ (o, p').
    ((o ≡ none) × (one_used.sem.permits ≡ 0))
    ⊎ ((b : Buffer ℕ) × (o ≡ some b) × (b.len ≡ 0) × (b.cells ≡ replicate (length b.cells) 0)))
try_acquire-clean_example = try_acquire-clean same queue 0 one_used refl refl
