-- ===== src/RingBuf/Pushes.antt =====
-- The checks of the producer keep the invariant, and what its other phases need of it.
use cynosure.Prelude.{
  ℕ, ◌+◌, ◌%◌, ◌^◌, ◌≤◌, ◌≡◌, ◌≢◌, refl, sym, ap, ◌∙◌, subst, ◌⊎◌, inl, inr, false, List, ◌++◌,
  take, length, length-append, length-take, ◌==◌, arith, Bool-cases, Returns,
}
use Prim.Native.Nat.{◌∣◌}
use cynosure.RingBuf
use cynosure.RingBuf.{Shared, Producer, Consumer}
use cynosure.RingBuf.Counters.{check_room_lem, check_room_slice_lem, wrap-mod}
use cynosure.RingBuf.System.{System, Pushing, is_parked, start_push, start_push_slice}
use cynosure.RingBuf.Invariant.{
  claimed, written, taken, Inv, Contents, Waits, Waits-keep, Waits-fail,
}

module _ {T : Type 0} (n : ℕ) where
  -- What the consumer waits for does not change if the producer was not about to signal.
  pub pop_waits-keep :
      (s : System T) (t t' : Pushing T)
      → Inv n s
      → s.pushing ≡ t
      → t ≢ Pushing.signaling
      → Waits s.pop_mode s.pop_woken s.shared.consumer_armed
          ((length s.sent ≡ length s.got) ⊎ (t' ≡ Pushing.signaling))
  pop_waits-keep s t t' i e ne =
      Waits-keep s.pop_mode s.pop_woken s.shared.consumer_armed
        (λ _ stuck. elim stuck [ inl same ↦ inl same | inr sig ↦ absurd (ne (sym e ∙ sig)) ])
        i.pop_waits

  pub Contents-at :
      (s : System T) (t : Pushing T)
      → Inv n s
      → s.pushing ≡ t
      → Contents n s.shared.buffer (taken s.popping) (written t) s.sent s.got
  Contents-at s t i e =
      subst (λ t. Contents n s.shared.buffer (taken s.popping) (written t) s.sent s.got) e
        i.contents

  pub length_sent :
      (s : System T) (rest : List T)
      → s.sent ≡ s.got ++ (taken s.popping ++ rest)
      → length s.sent ≡ length s.got + length (taken s.popping) + length rest
  length_sent s rest fifo = omega (
    arith,
    ap length fifo,
    length-append s.got (taken s.popping ++ rest),
    length-append (taken s.popping) rest,
  )

  -- The slot of the write index is the one after the live elements.
  pub at_end :
      (s : System T)
      → n ∣ 2 ^ 64
      → Inv n s
      → (rest : List T) → s.sent ≡ s.got ++ (taken s.popping ++ rest)
      → s.producer.cached_write % n ≡ (length s.got + length (taken s.popping) + length rest) % n
  at_end s wraps i rest fifo =
      let (_, (_, own, _, _)) = i.producer in
      let total = length_sent s rest fifo in
      ap (λ z. z % n) own ∙ wrap-mod n (length s.sent) wraps ∙ ap (λ z. z % n) total

module _ {T : Type 0} (n : ℕ) (small : n ≤ 2 ^ 63) where
  pub start_push-Inv :
      (s : System T) (v : T)
      → Inv n s
      → s.pushing ≡ Pushing.idle
      → is_parked s.push_mode ≡ false
      → Returns (start_push s v) (Inv n)
  unfolding start_push
  start_push-Inv s v i e not_parked =
      let (size, w_at, r_at) = i.indices in
      let (a, (at, own, le, fits)) = i.producer in
      let (b, (_, _, b_le, most)) = i.consumer in
      let bound : length s.sent ≤ length s.got + s.shared.capacity =
        omega (arith, size, le, fits) in
      let check =
        check_room_lem s.shared (length s.sent) (length s.got) r_at (omega (arith, most, b_le))
          (omega (arith, size, small)) s.producer a (at, le, omega (arith, size, fits), own)
          bound in
      (
        _,
        refl,
        elim check [
          | inl (c, (c_at, c_le, _, c_own), (room, more)) ↦ rw room (record {
            indices = i.indices;
            producer = (c, (c_at, c_own, c_le, omega (arith, size, more)));
            consumer = i.consumer;
            contents = Contents-at n s Pushing.idle i e;
            push_waits = i.push_waits;
            pop_waits =
                pop_waits-keep n s Pushing.idle (Pushing.writing_one v) i e (λ q. absurd (cc));
          })
          | inr ((c_at, c_le, _, c_own), (room, full)) ↦ rw room (record {
            indices = i.indices;
            producer = (length s.got, (c_at, c_own, c_le, omega (arith, size, full, ap claimed e)));
            consumer = i.consumer;
            contents = i.contents;
            push_waits =
                Waits-fail s.push_mode s.push_woken s.shared.producer_armed
                  (λ _. inl (omega (arith, size, full))) (λ q. absurd (cc)) i.push_waits;
            pop_waits = i.pop_waits;
          })
        ],
      )

  pub start_push_slice-Inv :
      (s : System T) (items : List T)
      → Inv n s
      → s.pushing ≡ Pushing.idle
      → Returns (start_push_slice s items) (Inv n)
  unfolding start_push_slice
  start_push_slice-Inv s items i e =
      let (size, w_at, r_at) = i.indices in
      let (a, (at, own, le, fits)) = i.producer in
      let (b, (_, _, b_le, most)) = i.consumer in
      let bound : length s.sent ≤ length s.got + s.shared.capacity =
        omega (arith, size, le, fits) in
      let (c, (c_at, c_le, _, c_own), (granted_le, more, _)) =
        check_room_slice_lem s.shared (length s.sent) (length s.got) r_at
          (omega (arith, most, b_le)) (omega (arith, size, small)) s.producer a (length items)
          (at, le, omega (arith, size, fits), own) bound in
      let granted : ℕ = (RingBuf.check_room_slice s.shared s.producer (length items)).0 in
      (
        _,
        refl,
        elim (Bool-cases (granted == 0)) [
          | inl z ↦ rw z (record {
            indices = i.indices;
            producer = (c, (c_at, c_own, c_le, omega (arith, size, more, ap claimed e)));
            consumer = i.consumer;
            contents = i.contents;
            push_waits = i.push_waits;
            pop_waits = i.pop_waits;
          })
          | inr z ↦ rw z (record {
            indices = i.indices;
            producer = (
              c,
              (c_at, c_own, c_le, omega (arith, size, more, granted_le, length-take granted items)),
            );
            consumer = i.consumer;
            contents = Contents-at n s Pushing.idle i e;
            push_waits = i.push_waits;
            pop_waits =
                pop_waits-keep n s Pushing.idle (Pushing.writing (take granted items)) i e
                  (λ q. absurd (cc));
          })
        ],
      )
