-- ===== src/RingBuf/Bounded/Pop.antt =====
-- `try_pop` and `try_pop_slice` of a ring that holds a list.
use cynosure.Prelude.{
  ℕ, suc, ◌+◌, ◌%◌, ◌^◌, ◌≤◌, ◌<◌, ◌≡◌, refl, sym, ap, ◌∙◌, subst, ◌⊎◌, inl, inr, true, ◌&&◌, some,
  List, [], ◌∷◌, ◌++◌, take, drop, length, ltb, length-take, length-drop, take-append-drop, ◌==◌,
  ==→eq, arith, Bool-cases, done, ◌>>=◌, Returns,
}
use Prim.Native.Nat.{◌∣◌}
use mathlib.Core.List.{head?, tail}
use cynosure.RingBuf
use cynosure.RingBuf.{Shared, Producer, Consumer, wrapping_sub}
use cynosure.RingBuf.Counters.{check_item_lem, check_items_lem}
use cynosure.RingBuf.Live.{Live, read_slot-Live, read_slice-Live, Live-front, Live-tail}
use cynosure.RingBuf.Operations.{try_pop, try_pop_slice}
use cynosure.RingBuf.Bounded.{Holds, at_slot, at_slot-eq, next_index, no_elements}

module _ {T : Type 0} (n : ℕ) (pos : 0 < n) (wraps : n ∣ 2 ^ 64) (small : n ≤ 2 ^ 63) where
  -- `try_pop` takes the oldest element, if there is one.
  pub try_pop_lem :
      (s : Shared T) (p : Producer) (c : Consumer) (l : List T)
      → Holds n s p c l
      → Returns (try_pop s c) (λ (got, woken, s', c').
        (got ≡ head? l)
        × (woken ≡ ltb 0 (length l) && s.producer_armed)
        × (s'.consumer_armed ≡ s.consumer_armed)
        × Holds n s' p c' (tail l))
  unfolding try_pop RingBuf.read_value RingBuf.publish_read RingBuf.signal_producer
  try_pop_lem s p c []
        (r, ((size, w_at, r_at), (a, (at, own, le, fits)), (b, (b_at, b_own, b_le, most)), live)) =
      let check =
        check_item_lem s (r + 0) r w_at (omega arith) (omega (arith, size, small))
          (omega (arith, size, le, fits)) c b (b_at, omega (arith, most), b_le, b_own) in
      elim check [
        | inr ((c_at, c_le, c_most, c_own), (found, none_left)) ↦ rw found (
          _,
          refl,
          (
            refl,
            refl,
            refl,
            (
              r,
              (
                (size, w_at, r_at),
                (a, (at, own, le, fits)),
                (r + 0, (c_at, c_own, c_most, omega arith)),
                live,
              ),
            ),
          ),
        )
        | inl (d, (c_at, c_le, c_most, c_own), (found, more)) ↦ absurd (omega (arith, more, c_most))
      ]
  try_pop_lem s p c (v ∷ l)
        (r, ((size, w_at, r_at), (a, (at, own, le, fits)), (b, (b_at, b_own, b_le, most)), live)) =
      let check =
        check_item_lem s (r + suc (length l)) r w_at (omega arith) (omega (arith, size, small))
          (omega (arith, size, le, fits)) c b (b_at, omega (arith, most), b_le, b_own) in
      elim check [
        | inr ((c_at, c_le, c_most, c_own), (found, none_left)) ↦ absurd (omega (arith, none_left))
        | inl (d, (c_at, c_le, c_most, c_own), (found, more)) ↦
            let ((x, slots), eq, (same, h)) =
              at_slot (λ z k. RingBuf.read_slot z s.buffer k) n s.capacity _ r wraps size c_own
                (read_slot-Live n s.buffer r v l pos (omega (arith, le, fits)) live) in
            let e : r + suc (length l) ≡ r + 1 + length l = omega arith in
            let move : (i : ℕ)
                → i ≡ (r + suc (length l)) % 2 ^ 64
                → i ≡ (r + 1 + length l) % 2 ^ 64 =
              λ i q. q ∙ ap (λ z. z % 2 ^ 64) e in
            let next = next_index _ r 1 c_own in
            let some_left : ltb 0 (suc (length l)) ≡ true = ground arith in
            rw (found, eq, ◌>>=◌, ◌>>=◌)
              (
                _,
                refl,
                (
                  ap some same,
                  ap (λ q. q && s.producer_armed) (sym some_left),
                  refl,
                  (
                    r + 1,
                    (
                      (size, move _ w_at, next),
                      (a, (at, move _ own, omega (arith, le), omega (arith, fits))),
                      (d, (c_at, next, omega (arith, c_most), omega (arith, more))),
                      h,
                    ),
                  ),
                ),
              )
      ]

  -- `try_pop_slice` takes elements from the front of the list, at most as many as asked for. It takes
  -- none only if none are asked for or the list is empty.
  pub try_pop_slice_lem :
      (s : Shared T) (p : Producer) (c : Consumer) (l : List T) (len : ℕ)
      → Holds n s p c l
      → Returns (try_pop_slice s c len) (λ (vs, woken, s', c').
        (length vs ≤ len)
        × ((0 < length vs) ⊎ ((len ≡ 0) ⊎ (l ≡ [])))
        × (woken ≡ ltb 0 (length vs) && s.producer_armed)
        × (s'.consumer_armed ≡ s.consumer_armed)
        × ((rest : List T) × ((l ≡ vs ++ rest) × Holds n s' p c' rest)))
  unfolding try_pop_slice RingBuf.read_values RingBuf.publish_read RingBuf.signal_producer
  try_pop_slice_lem s p c l len
        (r, ((size, w_at, r_at), (a, (at, own, le, fits)), (b, (b_at, b_own, b_le, most)), live)) =
      let (d, (c_at, c_le, c_most, c_own), (granted_le, more, why)) =
        check_items_lem s (r + length l) r w_at (omega arith) (omega (arith, size, small))
          (omega (arith, size, le, fits)) c b len (b_at, omega (arith, most), b_le, b_own) in
      let granted : ℕ = (RingBuf.check_items s c len).0 in
      let reason : (0 < granted) ⊎ ((len ≡ 0) ⊎ (l ≡ [])) = elim why [
        | inl some_got ↦ inl some_got
        | inr (inl none_asked) ↦ inr (inl none_asked)
        | inr (inr same) ↦ inr (inr (no_elements l (omega (arith, same))))
      ] in
      elim (Bool-cases (granted == 0)) [
        | inl z ↦
            let none_taken : granted ≡ 0 = ==→eq granted 0 z in
            rw z (
              _,
              refl,
              (
                omega arith,
                subst (λ k. (0 < k) ⊎ ((len ≡ 0) ⊎ (l ≡ []))) none_taken reason,
                refl,
                refl,
                (
                  l,
                  (
                    refl,
                    (
                      r,
                      (
                        (size, w_at, r_at),
                        (a, (at, own, le, fits)),
                        (d, (c_at, c_own, c_most, omega (arith, c_le))),
                        live,
                      ),
                    ),
                  ),
                ),
              ),
            )
        | inr z ↦
            let vs = take granted l in
            let rest = drop granted l in
            let count : length (take granted l) ≡ granted =
              omega (arith, length-take granted l, more, c_most) in
            let long : length l ≡ granted + length (drop granted l) =
              omega (arith, length-drop granted l, more, c_most) in
            let whole = sym (take-append-drop granted l) in
            let apart = subst (Live n s.buffer r) whole live in
            let read =
              read_slice-Live n s.buffer r vs pos (omega (arith, count, more, c_most, le, fits))
                (Live-front n s.buffer r vs rest apart) in
            let read_at : RingBuf.read_slice n s.buffer (r % n) granted ≡ done vs =
              ap (RingBuf.read_slice n s.buffer (r % n)) (sym count) ∙ read in
            let eq =
              at_slot-eq (λ m k. RingBuf.read_slice m s.buffer k granted) n s.capacity
                (RingBuf.check_items s c len).1.cached_read r vs wraps size c_own read_at in
            let later =
              subst (λ k. Live n s.buffer (r + k) rest) count
                (Live-tail n s.buffer r vs rest apart) in
            let next = next_index _ r granted c_own in
            let e : r + length l ≡ r + granted + length (drop granted l) = omega (arith, long) in
            let move : (i : ℕ)
                → i ≡ (r + length l) % 2 ^ 64
                → i ≡ (r + granted + length (drop granted l)) % 2 ^ 64 =
              λ i q. q ∙ ap (λ z. z % 2 ^ 64) e in
            let positive : ltb 0 (length vs) ≡ true = ground (arith, z, count) in
            rw (z, eq, ◌>>=◌)
              (
                _,
                refl,
                (
                  omega (arith, count, granted_le),
                  subst (λ k. (0 < k) ⊎ ((len ≡ 0) ⊎ (l ≡ []))) (sym count) reason,
                  ap (λ q. q && s.producer_armed) (sym positive),
                  refl,
                  (
                    rest,
                    (
                      whole,
                      (
                        r + granted,
                        (
                          (size, move _ w_at, next),
                          (a, (at, move _ own, omega (arith, le), omega (arith, fits, long))),
                          (d, (c_at, next, omega (arith, c_most, long), omega (arith, more))),
                          later,
                        ),
                      ),
                    ),
                  ),
                ),
              )
      ]
