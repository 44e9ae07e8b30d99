-- ===== src/Waiters/Registry.antt =====
-- The registration of a waiting future: `register_in` and `deregister_in` of src/site_c/rwlock.rs. The
-- `register` and `deregister` methods of mutex.rs and semaphore.rs are the same code over their own
-- fields. What a future waits with is `P`: a waker, or a request with its waker.
pub mod Invariant
pub mod Keep
pub mod Wake
pub mod Queued
use cynosure.Prelude.{
  ℕ, ◌+◌, ◌%◌, ◌^◌, ◌≡◌, Bool, true, false, not, Option, none, some, List, ◌==◌, if◌then◌else◌,
  reject,
}
use cynosure.Waiters.{WaitQueue}
use cynosure.Waiters.Entries.{has_id, queued}

-- `u64::wrapping_add(1)`
abbrev pub next_u64 : ℕ → ℕ
next_u64 id = (id + 1) % 2 ^ 64

-- A queue of waiters, the next token, and the `registered` field of one future.
pub record Registered (Q P : Type 0) : Type 0 where
  pub queue : Q
  pub next_id : ℕ
  pub slot : Option (ℕ × P)

-- `same` is `Waker::will_wake` on what the two registrations hold.
module _ {P : Type 0} (same : P → P → Bool) (d : WaitQueue (ℕ × P)) where
  open d use {Q, to_list, push_back, take_where}

  -- Must the entry be added (again)? Not if it is still queued with an equivalent waker.
  unfoldable pub is_stale : Q → Option (ℕ × P) → P → Bool
  is_stale q none p = true
  is_stale q (some (id, w)) p = if same w p then not (queued id (to_list q)) else true

  -- the token of the future: its own, or the next one
  unfoldable pub token_of : Option (ℕ × P) → ℕ → ℕ
  token_of none next = next
  token_of (some (id, w)) next = id

  unfoldable pub next_of : Option (ℕ × P) → ℕ → ℕ
  next_of none next = next_u64 next
  next_of (some e) next = next

  unfoldable pub enqueue : Q → ℕ → P → Q
  enqueue q id p = push_back (take_where q (has_id id)).1 (id, p)

  unfoldable pub register_in : Q → ℕ → Option (ℕ × P) → P → Registered Q P
  unfolding is_stale token_of next_of enqueue
  register_in q next slot p =
      if is_stale q slot p
      then record {
        queue = enqueue q (token_of slot next) p;
        next_id = next_of slot next;
        slot = some (token_of slot next, p);
      }
      else record { queue = q; next_id = next; slot = slot }

  -- The future's slot is empty afterwards.
  unfoldable pub deregister_in : Q → Option (ℕ × P) → Q
  deregister_in q none = q
  deregister_in q (some (id, w)) = (take_where q (has_id id)).1
