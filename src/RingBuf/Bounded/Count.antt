-- ===== src/RingBuf/Bounded/Count.antt =====
-- The counts of a ring that holds a list, and what its `Drop` drops.
use cynosure.Prelude.{
  ℕ, zero, suc, ◌+◌, ◌-◌, ◌%◌, ◌^◌, ◌≤◌, ◌<◌, ◌≡◌, refl, sym, ap, ◌∙◌, inl, inr, false, Option,
  List, [], ◌∷◌, length, leb, ◌==◌, ==→eq, eq→==, ne→==-false, ==-false→ne, arith, Bool-cases,
  ◌>>=◌, Returns,
}
use Prim.Native.Nat.{◌∣◌}
use cynosure.RingBuf
use cynosure.RingBuf.{Shared, Producer, Consumer, wrapping_sub}
use cynosure.RingBuf.Counters.{diff_lem, same_lem}
use cynosure.RingBuf.Live.{Live, read_slot-Live}
use cynosure.RingBuf.Operations
use cynosure.RingBuf.Operations.{
  try_push, try_push_slice, try_pop, try_pop_slice, drop_from, drop_shared,
}
use cynosure.RingBuf.Bounded.{Holds, at_slot, next_index}

module _ {T : Type 0} (n : ℕ) (small : n ≤ 2 ^ 63) where
  -- The counts are the exact ones, whatever the cached indices were.
  pub counts_lem :
      (s : Shared T) (p : Producer) (c : Consumer) (l : List T)
      → Holds n s p c l
      → ((Operations.free_count s p).0 ≡ n - length l)
        × ((Operations.available_count s c).0 ≡ length l)
        × ((Operations.seems_empty s p).0 ≡ length l == 0)
        × ((Operations.seems_full s p).0 ≡ leb n (length l))
        × ((Operations.is_empty s c).0 ≡ length l == 0)
        × ((Operations.is_full s c).0 ≡ leb n (length l))
  unfolding Operations.free_count Operations.available_count Operations.seems_empty
      Operations.seems_full Operations.is_empty Operations.is_full
  counts_lem s p c l
        (r, ((size, w_at, r_at), (a, (at, own, le, fits)), (b, (b_at, b_own, b_le, most)), live)) =
      let d : wrapping_sub ((r + length l) % 2 ^ 64) (r % 2 ^ 64) ≡ length l =
        diff_lem (r + length l) r (omega arith) (omega (arith, le, fits, small)) ∙ omega arith in
      let same : (r + length l) % 2 ^ 64 == r % 2 ^ 64 ≡ length l == 0 =
        elim (Bool-cases (length l == 0)) [
          | inl z ↦
              let e : r + length l ≡ r = omega (arith, ==→eq _ 0 z) in
              eq→== _ _ (ap (λ x. x % 2 ^ 64) e) ∙ sym z
          | inr z ↦
              ne→==-false _ _ (λ q. ==-false→ne _ 0 z (
                omega (
                  arith,
                  same_lem (r + length l) r (omega arith) (omega (arith, le, fits, small)) (sym q),
                )))
              ∙ sym z
        ] in
      rw (own, r_at, w_at, b_own, d, size, same) (refl, refl, refl, ground arith, refl, refl)

module _ {T : Type 0} (n : ℕ) (pos : 0 < n) (wraps : n ∣ 2 ^ 64) (small : n ≤ 2 ^ 63) where
  drop_from_lem :
      (fuel : ℕ) (slots : ℕ → Option T) (r : ℕ) (l : List T)
      → length l < fuel
      → length l ≤ n
      → Live n slots r l
      → Returns
          (drop_from fuel n ((r + length l) % 2 ^ 64) slots (r % 2 ^ 64))
          (λ (dropped, _). dropped ≡ l)
  unfolding drop_from
  drop_from_lem zero slots r l enough fits live = absurd (omega (arith, enough))
  drop_from_lem (suc fuel) slots r [] enough fits live =
      let e : r + 0 ≡ r = omega arith in
      rw (eq→== (r % 2 ^ 64) ((r + 0) % 2 ^ 64) (ap (λ z. z % 2 ^ 64) (sym e))) (_, refl, refl)
  drop_from_lem (suc fuel) slots r (v ∷ l) enough fits live =
      let more : (r % 2 ^ 64 == (r + suc (length l)) % 2 ^ 64) ≡ false = ne→==-false _ _ (λ q.
        absurd (
          omega (
            arith,
            same_lem (r + suc (length l)) r (omega arith) (omega (arith, fits, small)) q,
          ))) in
      let ((x, slots'), eq, (same, h)) =
        at_slot (λ m k. RingBuf.read_slot m slots k) n n (r % 2 ^ 64) r wraps refl refl
          (read_slot-Live n slots r v l pos (omega (arith, fits)) live) in
      let ((vs, slots''), ran, all) =
        drop_from_lem fuel slots' (r + 1) l (omega (arith, enough)) (omega (arith, fits)) h in
      let last : (r + suc (length l)) % 2 ^ 64 ≡ (r + 1 + length l) % 2 ^ 64 =
        ap (λ z. z % 2 ^ 64) (omega arith) in
      let next = next_index (r % 2 ^ 64) r 1 refl in
      rw (more, eq, next, last, ran, ◌>>=◌, ◌>>=◌) (_, refl, λ i. same i ∷ all i)

  -- The loop of `Drop` ends, with more turns than elements: it drops each element that is left, in
  -- order, and does not read a slot without a value.
  pub drop_shared_lem :
      (s : Shared T) (p : Producer) (c : Consumer) (l : List T) (fuel : ℕ)
      → Holds n s p c l
      → n < fuel
      → Returns (drop_shared fuel s) (λ (dropped, _). dropped ≡ l)
  unfolding drop_shared
  drop_shared_lem s p c l fuel (r, ((size, w_at, r_at), (a, (at, own, le, fits)), know, live))
        enough =
      rw (size, w_at, r_at)
        (drop_from_lem fuel s.buffer r l (omega (arith, le, fits, enough)) (omega (arith, le, fits))
          live)
