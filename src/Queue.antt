-- ===== src/Queue.antt =====
-- src/site_c/queue.rs: `Queue<T, N>`, a double-ended queue whose first `N` elements stay inline in a
-- ring. This file has the storage and the operations that touch one end, or move all elements.
-- A slot is `none` where it holds no value; reading such a slot is a fault. The `VecDeque` that a full
-- ring spills to is a list, front first.
pub mod Slots
pub mod Holds
pub mod Live
pub mod Drain
pub mod Moves
pub mod Ends
pub mod Bulk
pub mod Spec
pub mod Refine
pub mod Spill
pub mod Walk
mod Tests
use cynosure.Prelude.{
  ℕ, zero, suc, ◌+◌, ◌-◌, ◌*◌, Bool, true, false, Option, none, some, List, [], ◌∷◌, ◌++◌, ltb, leb,
  ◌==◌, if◌then◌else◌, length, get_elem?, set, replicate, Exec, done, panic, fault, ◌>>=◌,
}

-- `QueueInternal`
pub data Queue {ℓ} (A : Type ℓ) : Type ℓ where
  inline : (buf : List (Option A)) (head tail len : ℕ) → Queue A
  heap : List A → Queue A

-- `i + 1`, going round at `n`
abbrev pub step_up : ℕ → ℕ → ℕ
step_up n i = if i + 1 == n then 0 else i + 1

-- `i - 1`, going round at `n`; the test keeps the subtraction from underflowing
abbrev pub step_down : ℕ → ℕ → ℕ
step_down n i = if i == 0 then n - 1 else i - 1

module _ {ℓ} {A : Type ℓ} where
  -- `buf[i] = MaybeUninit::new(v)`
  pub write_slot : List (Option A) → ℕ → A → Exec (List (Option A))
  write_slot buf i v = if ltb i (length buf) then done (set buf i (some v)) else panic

  -- `buf[i].assume_init_read()`: the value moves out of its slot
  pub read_slot : List (Option A) → ℕ → Exec (A × List (Option A))
  read_slot buf i = elim (get_elem? buf i) [
    | none ↦ panic
    | some none ↦ fault
    | some (some a) ↦ done (a, set buf i none)
  ]

  -- `buf[i].assume_init_ref()`
  pub peek_slot : List (Option A) → ℕ → Exec A
  peek_slot buf i = elim (get_elem? buf i) [
    | none ↦ panic
    | some none ↦ fault
    | some (some a) ↦ done a
  ]

  -- The loop that moves `k` elements from index `idx` on to the end of `out`.
  pub drain_slots : ℕ → List (Option A) → ℕ → ℕ → List A → Exec (List A × List (Option A))
  drain_slots n buf idx zero out = done (out, buf)
  drain_slots n buf idx (suc k) out = do
    (x, buf') ← read_slot buf idx
    drain_slots n buf' (step_up n idx) k (out ++ x ∷ [])

  -- The loop of the borrowing iterator: `remaining` elements from `head` on.
  pub walk_slots : ℕ → List (Option A) → ℕ → ℕ → List A → Exec (List A)
  walk_slots n buf head zero out = done out
  walk_slots n buf head (suc remaining) out = do
    x ← peek_slot buf head
    walk_slots n buf (step_up n head) remaining (out ++ x ∷ [])

  pub new : ℕ → Queue A
  new n = inline (replicate n none) 0 0 0

  -- `VecDeque::with_capacity` panics above `most`, the largest capacity that an allocation can have.
  pub with_capacity : ℕ → ℕ → ℕ → Exec (Queue A)
  with_capacity n most capacity =
      if leb capacity n then done (new n) else if leb capacity most then done (heap []) else panic

  pub push_back : ℕ → Queue A → A → Exec (Queue A)
  push_back n (inline buf head tail len) value =
      if ltb len n
      then (do buf' ← write_slot buf tail value; done (inline buf' head (step_up n tail) (len + 1)))
      else (do (spilled, _) ← drain_slots n buf head len []; done (heap (spilled ++ value ∷ [])))
  push_back n (heap vec) value = done (heap (vec ++ value ∷ []))

  pub push_front : ℕ → Queue A → A → Exec (Queue A)
  push_front n (inline buf head tail len) value =
      if ltb len n
      then (do
        buf' ← write_slot buf (step_down n head) value
        done (inline buf' (step_down n head) tail (len + 1)))
      else (do (spilled, _) ← drain_slots n buf head len (value ∷ []); done (heap spilled))
  push_front n (heap vec) value = done (heap (value ∷ vec))

  pub pop_front : ℕ → Queue A → Exec (Option A × Queue A)
  pop_front n (inline buf head tail len) =
      if len == 0 then done (none, inline buf head tail len) else (do
        (value, buf') ← read_slot buf head
        done (some value, inline buf' (step_up n head) tail (len - 1)))
  pop_front n (heap []) = done (none, heap [])
  pop_front n (heap (x ∷ vec)) = done (some x, heap vec)

  -- `VecDeque::pop_back`
  pub split_last : A → List A → A × List A
  split_last x [] = (x, [])
  split_last x (y ∷ vec) = let (z, rest) = split_last y vec in (z, x ∷ rest)

  pub pop_back : ℕ → Queue A → Exec (Option A × Queue A)
  pop_back n (inline buf head tail len) =
      if len == 0 then done (none, inline buf head tail len) else (do
        (value, buf') ← read_slot buf (step_down n tail)
        done (some value, inline buf' head (step_down n tail) (len - 1)))
  pop_back n (heap []) = done (none, heap [])
  pop_back n (heap (x ∷ vec)) = let (z, rest) = split_last x vec in done (some z, heap rest)

  pub into_vec : ℕ → Queue A → Exec (List A × Queue A)
  into_vec n (inline buf head tail len) = do
    (result, buf') ← drain_slots n buf head len []
    done (result, inline buf' 0 0 0)
  into_vec n (heap vec) = done (vec, heap [])

  -- what `iter` yields, in order
  pub iter : ℕ → Queue A → Exec (List A)
  iter n (inline buf head tail len) = walk_slots n buf head len []
  iter n (heap vec) = done vec

  unfoldable pub len : Queue A → ℕ
  len (inline buf head tail k) = k
  len (heap vec) = length vec

  unfoldable pub is_empty : Queue A → Bool
  unfolding len
  is_empty q = len q == 0
