-- ===== src/RingBuf/Transfers/Drained.antt =====
-- What a poll of the future of `pop_slice_counted` does to the ring and the slice that it fills, and what
-- the caller sees of it.
use cynosure.Prelude.{
  ℕ, ◌+◌, ◌-◌, ◌<◌, ◌≡◌, ◌⊎◌, Bool, true, false, some, List, [], ◌++◌, take, drop, length,
}
use cynosure.RingBuf.{Shared, Producer, Consumer}
use cynosure.RingBuf.Bounded.{Holds}
use cynosure.RingBuf.Transfers.{PopSlice}

module _ {T : Type 0} (n : ℕ) (items : List T) (a : ℕ) where
  -- The first attempt pops all that were asked for from a ring with `l`. The caller sees the count from
  -- before it.
  abbrev pub AtOnce : List T → Bool → Bool × PopSlice T × Shared T × Consumer → Type 0
  AtOnce l armed (ready, f, s, c) =
      (ready ≡ true)
      × (f.popped_so_far ≡ length items)
      × (f.progress ≡ some a)
      × (s.consumer_armed ≡ armed)
      × ((vs : List T) × ((rest : List T) × ((l ≡ vs ++ rest)
              × (f.items ≡ take a items ++ vs)
              × ((p : Producer) × Holds n s p c rest))))

  -- After `before`, the second attempt pops `vs` from a ring with `l`. If these are the last ones, the
  -- future is ready, the caller sees the count from before the attempt, and the slot is disarmed. If not, it
  -- is pending, the caller sees the count of the elements that were popped, and the flag is as it was.
  abbrev pub SecondTime : List T → List T → Bool → Bool × PopSlice T × Shared T × Consumer → Type 0
  SecondTime before l armed (ready, f, s, c) =
      (vs : List T) × ((rest : List T) × ((l ≡ vs ++ rest)
          × (f.popped_so_far ≡ a + length (before ++ vs))
          × (f.items ≡ take a items ++ ((before ++ vs) ++ drop (a + length (before ++ vs)) items))
          × ((p : Producer) × Holds n s p c rest)
          × (((ready ≡ true)
                × (a + length (before ++ vs) ≡ length items)
                × (f.progress ≡ some (a + length before))
                × (s.consumer_armed ≡ false))
              ⊎ ((ready ≡ false)
                  × (a + length (before ++ vs) < length items)
                  × (f.progress ≡ some (a + length (before ++ vs)))
                  × (s.consumer_armed ≡ armed)))))

  -- What a poll returns, if the producer pushes what fits of `more` between the attempts: the first attempt
  -- pops all; or it pops `vs`, not all, and the second attempt follows.
  abbrev pub Drained : List T → List T → Bool → Bool × PopSlice T × Shared T × Consumer → Type 0
  Drained more l flag x =
      AtOnce l flag x
      ⊎ ((vs : List T) × ((rest : List T) × ((l ≡ vs ++ rest)
              × (a + length vs < length items)
              × ((armed : Bool) × (((more ≡ []) → armed ≡ true)
                    × SecondTime vs (rest ++ take (n - length rest) more) armed x)))))
