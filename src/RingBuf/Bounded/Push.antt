-- ===== src/RingBuf/Bounded/Push.antt =====
-- `try_push` and `try_push_slice` of a ring that holds a list.
use cynosure.Prelude.{
  ℕ, ◌+◌, ◌%◌, ◌^◌, ◌≤◌, ◌<◌, ◌≡◌, refl, sym, ap, subst, ◌⊎◌, inl, inr, true, false, ◌&&◌, List, [],
  ◌∷◌, ◌++◌, take, length, ltb, lt→ltb, length-append, length-take, append-nil, ◌==◌, ==→eq,
  if◌then◌else◌, arith, Bool-cases, ◌>>=◌, Returns,
}
use Prim.Native.Nat.{◌∣◌}
use cynosure.RingBuf
use cynosure.RingBuf.{Shared, Producer, Consumer, wrapping_sub}
use cynosure.RingBuf.Counters.{check_room_lem, check_room_slice_lem}
use cynosure.RingBuf.Live.{write_slot-Live, write_slice-Live}
use cynosure.RingBuf.Operations.{try_push, try_push_slice}
use cynosure.RingBuf.Bounded.{Holds, at_slot, pushed_index}

module _ {T : Type 0} (n : ℕ) (pos : 0 < n) (wraps : n ∣ 2 ^ 64) (small : n ≤ 2 ^ 63) where
  -- `try_push` on a list of at most `n` elements
  pub try_push_lem :
      (s : Shared T) (p : Producer) (c : Consumer) (l : List T) (v : T)
      → Holds n s p c l
      → Returns (try_push s p v) (λ (ok, woken, s', p').
        (ok ≡ ltb (length l) n)
        × (woken ≡ ok && s.consumer_armed)
        × (s'.producer_armed ≡ s.producer_armed)
        × Holds n s' p' c (if ltb (length l) n then l ++ v ∷ [] else l))
  unfolding try_push RingBuf.write_value RingBuf.publish_write RingBuf.signal_consumer
  try_push_lem s p c l v
        (r, ((size, w_at, r_at), (a, (at, own, le, fits)), (b, (b_at, b_own, b_le, most)), live)) =
      let check =
        check_room_lem s (r + length l) r r_at (omega arith) (omega (arith, size, small)) p a
          (at, le, omega (arith, size, fits), own) (omega (arith, size, le, fits)) in
      elim check [
        | inr ((c_at, c_le, _, c_own), (room, full)) ↦
            let no : ltb (length l) n ≡ false = ground (arith, size, full) in
            rw (room, no)
              (
                _,
                refl,
                (
                  refl,
                  refl,
                  refl,
                  (
                    r,
                    (
                      (size, w_at, r_at),
                      (r, (c_at, c_own, c_le, omega (arith, size, full))),
                      (b, (b_at, b_own, b_le, most)),
                      live,
                    ),
                  ),
                ),
              )
        | inl (d, (c_at, c_le, _, c_own), (room, more)) ↦
            let less : length l < n = omega (arith, size, more, c_le) in
            let (slots, eq, h) =
              at_slot (λ z k. RingBuf.write_slot z s.buffer k v) n s.capacity _ (r + length l) wraps
                size c_own (write_slot-Live n s.buffer r l v pos (omega (arith, less)) live) in
            let long = length-append l (v ∷ []) in
            let next = pushed_index _ r l (v ∷ []) c_own in
            rw (room, lt→ltb (length l) n less, eq, ◌>>=◌, ◌>>=◌)
              (
                _,
                refl,
                (
                  refl,
                  refl,
                  refl,
                  (
                    r,
                    (
                      (size, next, r_at),
                      (d, (c_at, next, c_le, omega (arith, size, more, long))),
                      (b, (b_at, b_own, omega (arith, b_le, long), most)),
                      h,
                    ),
                  ),
                ),
              )
      ]

  -- `try_push_slice` takes a prefix of the elements, as long as there is room. With the ring full it takes
  -- none; else, and if there are any, it takes at least one.
  pub try_push_slice_lem :
      (s : Shared T) (p : Producer) (c : Consumer) (l items : List T)
      → Holds n s p c l
      → Returns (try_push_slice s p items) (λ (k, woken, s', p').
        (k ≤ length items)
        × ((0 < k) ⊎ ((length items ≡ 0) ⊎ (length l ≡ n)))
        × (woken ≡ ltb 0 k && s.consumer_armed)
        × (s'.producer_armed ≡ s.producer_armed)
        × (length l + k ≤ n)
        × Holds n s' p' c (l ++ take k items))
  unfolding try_push_slice RingBuf.write_values RingBuf.publish_write RingBuf.signal_consumer
  try_push_slice_lem s p c l items
        (r, ((size, w_at, r_at), (a, (at, own, le, fits)), (b, (b_at, b_own, b_le, most)), live)) =
      let (d, (c_at, c_le, _, c_own), (granted_le, more, why)) =
        check_room_slice_lem s (r + length l) r r_at (omega arith) (omega (arith, size, small)) p a
          (length items) (at, le, omega (arith, size, fits), own) (omega (arith, size, le, fits)) in
      let granted : ℕ = (RingBuf.check_room_slice s p (length items)).0 in
      let reason : (0 < granted) ⊎ ((length items ≡ 0) ⊎ (length l ≡ n)) =
        ground (arith, why, size) in
      elim (Bool-cases (granted == 0)) [
        | inl z ↦
            let none_taken : granted ≡ 0 = ==→eq granted 0 z in
            let why_none : (0 < 0) ⊎ ((length items ≡ 0) ⊎ (length l ≡ n)) =
              subst (λ k. (0 < k) ⊎ ((length items ≡ 0) ⊎ (length l ≡ n))) none_taken reason in
            rw z (
              _,
              refl,
              (
                omega arith,
                why_none,
                refl,
                refl,
                omega (arith, size, le, fits),
                subst (Holds n s (RingBuf.check_room_slice s p (length items)).1 c)
                    (sym (append-nil l))
                    (
                      r,
                      (
                        (size, w_at, r_at),
                        (d, (c_at, c_own, c_le, omega (arith, size, more))),
                        (b, (b_at, b_own, b_le, most)),
                        live,
                      ),
                    ),
              ),
            )
        | inr z ↦
            let taken = take granted items in
            let count : length (take granted items) ≡ granted =
              omega (arith, length-take granted items, granted_le) in
            let long = length-append l (take granted items) in
            let (slots, eq, h) =
              at_slot (λ m k. RingBuf.write_slice m s.buffer k taken) n s.capacity _ (r + length l)
                wraps size c_own
                (write_slice-Live n s.buffer r l taken pos (omega (arith, size, more, c_le, count))
                  live) in
            let next =
              subst
                (λ k.
                  RingBuf.wrapping_add (RingBuf.check_room_slice s p (length items)).1.cached_write
                    k
                  ≡ (r + length (l ++ taken)) % 2 ^ 64)
                count (pushed_index _ r l taken c_own) in
            let positive : ltb 0 granted ≡ true = ground (arith, z) in
            rw (z, eq, ◌>>=◌, ◌>>=◌)
              (
                _,
                refl,
                (
                  granted_le,
                  reason,
                  ap (λ q. q && s.consumer_armed) (sym positive),
                  refl,
                  omega (arith, size, more, c_le),
                  (
                    r,
                    (
                      (size, next, r_at),
                      (d, (c_at, next, c_le, omega (arith, size, more, long, count))),
                      (b, (b_at, b_own, omega (arith, b_le, long), most)),
                      h,
                    ),
                  ),
                ),
              )
      ]
