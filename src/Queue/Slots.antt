-- ===== src/Queue/Slots.antt =====
-- The arithmetic of ring indices: which slot the `i`-th element from the head stands in.
use cynosure.Prelude.{ℕ, suc, ◌+◌, ◌-◌, ◌≤◌, ◌<◌, ◌≡◌, ◌≢◌, ltb, if◌then◌else◌, arith}
use cynosure.Queue.{step_up, step_down}

-- `(head + i) % n` for an index of the ring, with no division
abbrev pub slot : ℕ → ℕ → ℕ → ℕ
slot n head i = if ltb (head + i) n then head + i else head + i - n

pub slot-lt : (n head i : ℕ) → head ≤ n - 1 → i < n → slot n head i < n
slot-lt n head i h k = ground arith

pub slot-zero : (n head : ℕ) → head ≤ n - 1 → 0 < n → slot n head 0 ≡ head
slot-zero n head h k = ground arith

-- Elements at different places stand in different slots.
pub slot-injective :
    (n head i j : ℕ) → head ≤ n - 1 → i < n → j < n → i ≢ j → slot n head i ≢ slot n head j
slot-injective n head i j h p q ne = ground arith

pub slot-step_up :
    (n head i : ℕ) → head ≤ n - 1 → i < n → slot n (step_up n head) i ≡ slot n head (suc i)
slot-step_up n head i h k = ground arith

pub step_up-slot :
    (n head i : ℕ) → head ≤ n - 1 → i < n → step_up n (slot n head i) ≡ slot n head (suc i)
step_up-slot n head i h k = ground arith

pub slot-step_down :
    (n head i : ℕ) → head ≤ n - 1 → i < n → slot n (step_down n head) (suc i) ≡ slot n head i
slot-step_down n head i h k = ground arith

pub step_down-slot :
    (n head i : ℕ) → head ≤ n - 1 → i < n → step_down n (slot n head (suc i)) ≡ slot n head i
step_down-slot n head i h k = ground arith

pub step_up-le : (n i : ℕ) → 0 < n → i ≤ n - 1 → step_up n i ≤ n - 1
step_up-le n i p h = ground arith

pub step_down-le : (n i : ℕ) → i ≤ n - 1 → step_down n i ≤ n - 1
step_down-le n i h = ground arith

-- A ring that has room leaves free the slot before its head.
pub step_down-ne-slot : (n head i : ℕ) → head ≤ n - 1 → suc i < n → step_down n head ≢ slot n head i
step_down-ne-slot n head i h k = ground arith

pub ne-slot-suc : (n head i : ℕ) → head ≤ n - 1 → suc i < n → head ≢ slot n head (suc i)
ne-slot-suc n head i h k = ground arith
