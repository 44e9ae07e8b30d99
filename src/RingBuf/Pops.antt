-- ===== src/RingBuf/Pops.antt =====
-- The checks of the consumer keep the invariant, and what its other phases need of it.
use cynosure.Prelude.{
  ℕ, ◌+◌, ◌%◌, ◌^◌, ◌≤◌, ◌≡◌, ◌≢◌, refl, sym, ap, ◌∙◌, subst, ◌⊎◌, inl, inr, false, length, ◌==◌,
  arith, Bool-cases, Returns,
}
use Prim.Native.Nat.{◌∣◌}
use cynosure.RingBuf
use cynosure.RingBuf.{Shared, Producer, Consumer}
use cynosure.RingBuf.Counters.{check_item_lem, check_items_lem, wrap-mod}
use cynosure.RingBuf.System.{System, Popping, is_parked, start_pop, start_pop_slice}
use cynosure.RingBuf.Invariant.{written, asked, taken, Inv, Contents, Waits, Waits-keep, Waits-fail}

module _ {T : Type 0} (n : ℕ) where
  -- What the producer waits for does not change if the consumer was not about to signal.
  pub push_waits-keep :
      (s : System T) (t t' : Popping T)
      → Inv n s
      → s.popping ≡ t
      → t ≢ Popping.signaling
      → Waits s.push_mode s.push_woken s.shared.producer_armed
          ((length s.sent ≡ length s.got + n) ⊎ (t' ≡ Popping.signaling))
  push_waits-keep s t t' i e ne =
      Waits-keep s.push_mode s.push_woken s.shared.producer_armed
        (λ _ stuck. elim stuck [ inl same ↦ inl same | inr sig ↦ absurd (ne (sym e ∙ sig)) ])
        i.push_waits

  pub Contents-out :
      (s : System T) (t : Popping T)
      → Inv n s
      → s.popping ≡ t
      → Contents n s.shared.buffer (taken t) (written s.pushing) s.sent s.got
  Contents-out s t i e =
      subst (λ t. Contents n s.shared.buffer (taken t) (written s.pushing) s.sent s.got) e
        i.contents

  -- The slot of the read index is that of the oldest live element.
  pub at_front :
      (s : System T) → n ∣ 2 ^ 64 → Inv n s → s.consumer.cached_read % n ≡ length s.got % n
  at_front s wraps i =
      let (_, (_, own, _, _)) = i.consumer in ap (λ z. z % n) own ∙ wrap-mod n (length s.got) wraps

module _ {T : Type 0} (n : ℕ) (small : n ≤ 2 ^ 63) where
  pub start_pop-Inv :
      (s : System T)
      → Inv n s
      → s.popping ≡ Popping.idle
      → is_parked s.pop_mode ≡ false
      → Returns (start_pop s) (Inv n)
  unfolding start_pop
  start_pop-Inv s i e not_parked =
      let (size, w_at, r_at) = i.indices in
      let (a, (at, own, le, fits)) = i.producer in
      let (b, (b_at, b_own, b_le, most)) = i.consumer in
      let bound : length s.sent ≤ length s.got + s.shared.capacity =
        omega (arith, size, le, fits) in
      let check =
        check_item_lem s.shared (length s.sent) (length s.got) w_at (omega (arith, most, b_le))
          (omega (arith, size, small)) bound s.consumer b
          (b_at, omega (arith, most), b_le, b_own) in
      (
        _,
        refl,
        elim check [
          | inl (c, (c_at, c_le, c_most, c_own), (found, more)) ↦ rw found (record {
            indices = i.indices;
            producer = i.producer;
            consumer = (c, (c_at, c_own, c_most, more));
            contents = Contents-out n s Popping.idle i e;
            push_waits =
                push_waits-keep n s Popping.idle Popping.reading_one i e (λ q. absurd (cc));
            pop_waits = i.pop_waits;
          })
          | inr ((c_at, c_le, c_most, c_own), (found, none_left)) ↦ rw found (record {
            indices = i.indices;
            producer = i.producer;
            consumer = (length s.sent, (c_at, c_own, c_most, omega (arith, c_le, ap asked e)));
            contents = i.contents;
            push_waits = i.push_waits;
            pop_waits =
                Waits-fail s.pop_mode s.pop_woken s.shared.consumer_armed (λ _. inl none_left)
                  (λ q. absurd (cc)) i.pop_waits;
          })
        ],
      )

  pub start_pop_slice-Inv :
      (s : System T) (len : ℕ)
      → Inv n s
      → s.popping ≡ Popping.idle
      → Returns (start_pop_slice s len) (Inv n)
  unfolding start_pop_slice
  start_pop_slice-Inv s len i e =
      let (size, w_at, r_at) = i.indices in
      let (a, (at, own, le, fits)) = i.producer in
      let (b, (b_at, b_own, b_le, most)) = i.consumer in
      let bound : length s.sent ≤ length s.got + s.shared.capacity =
        omega (arith, size, le, fits) in
      let (c, (c_at, c_le, c_most, c_own), (granted_le, more, _)) =
        check_items_lem s.shared (length s.sent) (length s.got) w_at (omega (arith, most, b_le))
          (omega (arith, size, small)) bound s.consumer b len
          (b_at, omega (arith, most), b_le, b_own) in
      let granted : ℕ = (RingBuf.check_items s.shared s.consumer len).0 in
      (
        _,
        refl,
        elim (Bool-cases (granted == 0)) [
          | inl z ↦ rw z (record {
            indices = i.indices;
            producer = i.producer;
            consumer = (c, (c_at, c_own, c_most, omega (arith, c_le, ap asked e)));
            contents = i.contents;
            push_waits = i.push_waits;
            pop_waits = i.pop_waits;
          })
          | inr z ↦ rw z (record {
            indices = i.indices;
            producer = i.producer;
            consumer = (c, (c_at, c_own, c_most, more));
            contents = Contents-out n s Popping.idle i e;
            push_waits =
                push_waits-keep n s Popping.idle (Popping.reading granted) i e (λ q. absurd (cc));
            pop_waits = i.pop_waits;
          })
        ],
      )
