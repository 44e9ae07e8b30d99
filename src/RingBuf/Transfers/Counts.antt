-- ===== src/RingBuf/Transfers/Counts.antt =====
-- What a poll of the future of `push_slice_counted` does to the ring, and what the caller sees of it.
use cynosure.Prelude.{
  ℕ, ◌+◌, ◌<◌, ◌≡◌, ◌⊎◌, Bool, true, false, some, List, ◌++◌, take, drop, length,
}
use cynosure.RingBuf.{Shared, Producer, Consumer}
use cynosure.RingBuf.Bounded.{Holds}
use cynosure.RingBuf.Transfers.{PushSlice}

module _ {T : Type 0} (n : ℕ) (items : List T) where
  -- The second attempt starts at `b`, and pushes `k` elements into a ring with `l`. If these are the last
  -- ones, the future is ready, the caller sees the count from before the attempt, and the slot is
  -- disarmed. If not, it is pending, the caller sees the count of the elements that were pushed, and the
  -- flag is as it was.
  abbrev pub SecondTime : ℕ → List T → Bool → Bool × PushSlice T × Shared T × Producer → Type 0
  SecondTime b l armed (ready, f, s, p) =
      (k : ℕ) × ((f.items ≡ items)
        × (f.pushed_so_far ≡ b + k)
        × ((c : Consumer) × Holds n s p c (l ++ take k (drop b items)))
        × (((ready ≡ true)
              × (b + k ≡ length items)
              × (f.progress ≡ some b)
              × (s.producer_armed ≡ false))
            ⊎ ((ready ≡ false)
                × (b + k < length items)
                × (f.progress ≡ some (b + k))
                × (s.producer_armed ≡ armed))))

module _ {T : Type 0} (n : ℕ) (items : List T) (a : ℕ) where
  -- The first attempt pushes all elements from `a` on into a ring with `l`. The caller sees the count from
  -- before it.
  abbrev pub AtOnce : List T → Bool → Bool × PushSlice T × Shared T × Producer → Type 0
  AtOnce l armed (ready, f, s, p) =
      (ready ≡ true)
      × (f.items ≡ items)
      × (f.pushed_so_far ≡ length items)
      × (f.progress ≡ some a)
      × (s.producer_armed ≡ armed)
      × ((c : Consumer) × Holds n s p c (l ++ drop a items))

  -- What a poll returns, if the consumer pops `m` elements between the attempts: the first attempt pushes
  -- all; or it pushes `k` elements, not all, and the second attempt follows.
  abbrev pub Counted : ℕ → List T → Bool → Bool × PushSlice T × Shared T × Producer → Type 0
  Counted m l before x =
      AtOnce l before x
      ⊎ ((k : ℕ) × ((a + k < length items)
            × ((armed : Bool) × (((m ≡ 0) → armed ≡ true)
                  × SecondTime n items (a + k) (drop m (l ++ take k (drop a items))) armed x))))
