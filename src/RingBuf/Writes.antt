-- ===== src/RingBuf/Writes.antt =====
-- The phases of the producer after its check keep the invariant.
use cynosure.Prelude.{
  ℕ, ◌+◌, ◌%◌, ◌^◌, ◌<◌, ◌≡◌, refl, sym, ap, ◌∙◌, subst, inl, inr, false, Option, List, [], ◌∷◌,
  ◌++◌, length, length-append, append-nil, append_assoc, arith, ◌>>=◌, Returns,
}
use Prim.Native.Nat.{◌∣◌}
use cynosure.RingBuf
use cynosure.RingBuf.{Shared, Producer, Consumer}
use cynosure.RingBuf.Counters.{sum_lem}
use cynosure.RingBuf.Live.{Live, write_slot-Live, write_slice-Live, Live-front}
use cynosure.RingBuf.System.{System, Pushing, Mode, after_push, advance_push}
use cynosure.RingBuf.Pushes.{pop_waits-keep, Contents-at, length_sent, at_end}
use cynosure.RingBuf.Invariant.{
  claimed, written, taken, Inv, Contents, Waits-keep, Waits-signal, Waits-running,
}

after :
    (T : Type 0) (m : Mode)
    → (claimed {T = T} (after_push m) ≡ 0) × (written {T = T} (after_push m) ≡ [])
after T Mode.running = (refl, refl)
after T Mode.armed = (refl, refl)
after T Mode.parked = (refl, refl)

module _ {T : Type 0} (n : ℕ) (pos : 0 < n) (wraps : n ∣ 2 ^ 64) where
  write_one :
      (s : System T) (v : T)
      → Inv n s
      → s.pushing ≡ Pushing.writing_one v
      → Returns (advance_push s (Pushing.writing_one v)) (Inv n)
  unfolding advance_push RingBuf.write_value
  write_one s v i e =
      let (size, _, _) = i.indices in
      let (a, (at, own, le, fits)) = i.producer in
      let (rest, (fifo, live)) = Contents-at n s (Pushing.writing_one v) i e in
      let total = length_sent n s rest fifo in
      let start = length s.got + length (taken s.popping) in
      let Q : (ℕ → Option T) → Type 0 = λ slots. Live n slots start (rest ++ v ∷ []) in
      let put =
        subst
          (λ z. Returns (RingBuf.write_slot z s.shared.buffer (s.producer.cached_write % z) v) Q)
          (sym size)
          (subst (λ k. Returns (RingBuf.write_slot n s.shared.buffer k v) Q)
            (sym (at_end n s wraps i rest fifo))
            (write_slot-Live n s.shared.buffer start rest v pos
              (omega (arith, total, le, fits, ap claimed e))
              (Live-front n s.shared.buffer start rest [] live))) in
      let (slots, eq, h) = put in
      rw (eq, ◌>>=◌, ◌>>=◌)
        (
          _,
          refl,
          record {
            indices = i.indices;
            producer = (a, (at, own, le, omega (arith, fits, ap claimed e)));
            consumer = i.consumer;
            contents = (rest, (fifo, h));
            push_waits = i.push_waits;
            pop_waits =
                pop_waits-keep n s (Pushing.writing_one v) (Pushing.publishing (v ∷ [])) i e
                  (λ q. absurd (cc));
          },
        )

  write_many :
      (s : System T) (items : List T)
      → Inv n s
      → s.pushing ≡ Pushing.writing items
      → Returns (advance_push s (Pushing.writing items)) (Inv n)
  unfolding advance_push RingBuf.write_values
  write_many s items i e =
      let (size, _, _) = i.indices in
      let (a, (at, own, le, fits)) = i.producer in
      let (rest, (fifo, live)) = Contents-at n s (Pushing.writing items) i e in
      let total = length_sent n s rest fifo in
      let start = length s.got + length (taken s.popping) in
      let Q : (ℕ → Option T) → Type 0 = λ slots. Live n slots start (rest ++ items) in
      let put =
        subst
          (λ z.
            Returns (RingBuf.write_slice z s.shared.buffer (s.producer.cached_write % z) items) Q)
          (sym size)
          (subst (λ k. Returns (RingBuf.write_slice n s.shared.buffer k items) Q)
            (sym (at_end n s wraps i rest fifo))
            (write_slice-Live n s.shared.buffer start rest items pos
              (omega (arith, total, le, fits, ap claimed e))
              (Live-front n s.shared.buffer start rest [] live))) in
      let (slots, eq, h) = put in
      rw (eq, ◌>>=◌, ◌>>=◌)
        (
          _,
          refl,
          record {
            indices = i.indices;
            producer = (a, (at, own, le, omega (arith, fits, ap claimed e)));
            consumer = i.consumer;
            contents = (rest, (fifo, h));
            push_waits = i.push_waits;
            pop_waits =
                pop_waits-keep n s (Pushing.writing items) (Pushing.publishing items) i e
                  (λ q. absurd (cc));
          },
        )

  publish :
      (s : System T) (items : List T)
      → Inv n s
      → s.pushing ≡ Pushing.publishing items
      → Returns (advance_push s (Pushing.publishing items)) (Inv n)
  unfolding advance_push RingBuf.publish_write
  publish s items i e =
      let (size, w_at, r_at) = i.indices in
      let (a, (at, own, le, fits)) = i.producer in
      let (b, (b_at, b_own, b_le, most)) = i.consumer in
      let (rest, (fifo, live)) = Contents-at n s (Pushing.publishing items) i e in
      let more = length-append s.sent items in
      let next : RingBuf.wrapping_add s.producer.cached_write (length items)
          ≡ length (s.sent ++ items) % 2 ^ 64 =
        ap (λ z. RingBuf.wrapping_add z (length items)) own
        ∙ sum_lem (length s.sent) (length items)
        ∙ ap (λ z. z % 2 ^ 64) (sym more) in
      let same = append_assoc s.got (taken s.popping ++ rest) items in
      let inner = append_assoc (taken s.popping) rest items in
      (
        _,
        refl,
        record {
          indices = (size, next, r_at);
          producer = (a, (at, next, le, omega (arith, fits, more, ap claimed e)));
          consumer = (b, (b_at, b_own, omega (arith, b_le, more), most));
          contents = (
            rest ++ items,
            (
              ap (λ z. z ++ items) fifo ∙ same ∙ ap (◌++◌ s.got) inner,
              subst (Live n s.shared.buffer _) (sym (append-nil (rest ++ items))) live,
            ),
          );
          push_waits =
              Waits-keep s.push_mode s.push_woken s.shared.producer_armed
                (λ q. λ stuck. elim stuck [
                  | inl full ↦ inl (omega (arith, full, le, fits, more, ap claimed e))
                  | inr sig ↦ inr sig
                ])
                i.push_waits;
          pop_waits =
              Waits-keep s.pop_mode s.pop_woken s.shared.consumer_armed (λ _ _. inr refl)
                i.pop_waits;
        },
      )

  signal :
      (s : System T)
      → Inv n s
      → s.pushing ≡ Pushing.signaling
      → Returns (advance_push s Pushing.signaling) (Inv n)
  unfolding advance_push RingBuf.signal_consumer
  signal s i e =
      let (a, (at, own, le, fits)) = i.producer in
      let (no_claim, no_fresh) = after T s.push_mode in
      (
        _,
        refl,
        record {
          indices = i.indices;
          producer = (a, (at, own, le, omega (arith, fits, no_claim)));
          consumer = i.consumer;
          contents =
              subst (λ z. Contents n s.shared.buffer (taken s.popping) z s.sent s.got)
                (sym no_fresh) (Contents-at n s Pushing.signaling i e);
          push_waits = i.push_waits;
          pop_waits = Waits-signal s.pop_mode s.pop_woken s.shared.consumer_armed i.pop_waits;
        },
      )

  disarm :
      (s : System T)
      → Inv n s
      → s.pushing ≡ Pushing.disarming
      → Returns (advance_push s Pushing.disarming) (Inv n)
  unfolding advance_push
  disarm s i e =
      let (a, (at, own, le, fits)) = i.producer in
      (
        _,
        refl,
        record {
          indices = i.indices;
          producer = (a, (at, own, le, omega (arith, fits)));
          consumer = i.consumer;
          contents = Contents-at n s Pushing.disarming i e;
          push_waits = Waits-running s.push_woken false;
          pop_waits = pop_waits-keep n s Pushing.disarming Pushing.idle i e (λ q. absurd (cc));
        },
      )

  pub advance_push-Inv :
      (s : System T) (t : Pushing T) → Inv n s → s.pushing ≡ t → Returns (advance_push s t) (Inv n)
  unfolding advance_push
  advance_push-Inv s Pushing.idle i e = (s, refl, i)
  advance_push-Inv s (Pushing.writing_one v) i e = write_one s v i e
  advance_push-Inv s (Pushing.writing items) i e = write_many s items i e
  advance_push-Inv s (Pushing.publishing items) i e = publish s items i e
  advance_push-Inv s Pushing.signaling i e = signal s i e
  advance_push-Inv s Pushing.disarming i e = disarm s i e
