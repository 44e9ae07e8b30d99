-- ===== src/RingBuf/Reads.antt =====
-- The phases of the consumer after its check keep the invariant.
use cynosure.Prelude.{
  ℕ, ◌+◌, ◌%◌, ◌^◌, ◌≤◌, ◌<◌, ◌≡◌, refl, sym, ap, ◌∙◌, subst, inl, inr, false, Option, List, [],
  ◌∷◌, ◌++◌, take, drop, length, length-append, length-take, take-append-drop, append_assoc, arith,
  done, ◌>>=◌, Returns,
}
use Prim.Native.Nat.{◌∣◌}
use cynosure.RingBuf
use cynosure.RingBuf.{Shared, Producer, Consumer}
use cynosure.RingBuf.Counters.{sum_lem}
use cynosure.RingBuf.Live.{Live, read_slot-Live, read_slice-Live, Live-front, Live-tail}
use cynosure.RingBuf.Pops.{push_waits-keep, Contents-out, at_front}
use cynosure.RingBuf.System.{System, Pushing, Popping, Mode, after_pop, advance_pop}
use cynosure.RingBuf.Invariant.{
  claimed, written, asked, taken, Inv, Contents, Waits-keep, Waits-signal, Waits-running,
}

after :
    (T : Type 0) (m : Mode) → (asked {T = T} (after_pop m) ≡ 0) × (taken {T = T} (after_pop m) ≡ [])
after T Mode.running = (refl, refl)
after T Mode.armed = (refl, refl)
after T Mode.parked = (refl, refl)

written_le : {T : Type 0} (t : Pushing T) → length (written t) ≤ claimed t
written_le Pushing.idle = omega arith
written_le (Pushing.writing_one v) = omega arith
written_le (Pushing.writing items) = omega arith
written_le (Pushing.publishing items) = omega arith
written_le Pushing.signaling = omega arith
written_le Pushing.disarming = omega arith

module _ {T : Type 0} (n : ℕ) (pos : 0 < n) (wraps : n ∣ 2 ^ 64) where
  -- The live elements fit.
  fits-all :
      (s : System T) (rest : List T)
      → Inv n s
      → s.sent ≡ s.got ++ rest
      → length rest + length (written s.pushing) ≤ n
  fits-all s rest i fifo =
      let (a, (_, _, le, fits)) = i.producer in
      omega (arith, ap length fifo, length-append s.got rest, le, fits, written_le s.pushing)

  from_got :
      (s : System T) (l : List T)
      → Live n s.shared.buffer (length s.got + 0) l
      → Live n s.shared.buffer (length s.got) l
  from_got s l live =
      let e : length s.got + 0 ≡ length s.got = omega arith in
      subst (λ z. Live n s.shared.buffer z l) e live

  read_first :
      (s : System T) (rest : List T)
      → Inv n s
      → s.popping ≡ Popping.reading_one
      → s.sent ≡ s.got ++ rest
      → Live n s.shared.buffer (length s.got) (rest ++ written s.pushing)
      → Returns (advance_pop s Popping.reading_one) (Inv n)
  unfolding advance_pop RingBuf.read_value
  read_first s [] i e fifo live =
      let (_, (_, _, b_le, most)) = i.consumer in
      absurd (omega (arith, ap length fifo, length-append s.got [], b_le, most, ap asked e))
  read_first s (v ∷ rest) i e fifo live =
      let (size, _, _) = i.indices in
      let (b, (b_at, b_own, b_le, most)) = i.consumer in
      let all = fits-all s (v ∷ rest) i fifo in
      let start = length s.got in
      let l = rest ++ written s.pushing in
      let Q : T × (ℕ → Option T) → Type 0 = λ (x, slots). (x ≡ v) × Live n slots (start + 1) l in
      let get =
        subst (λ z. Returns (RingBuf.read_slot z s.shared.buffer (s.consumer.cached_read % z)) Q)
          (sym size)
          (subst (λ k. Returns (RingBuf.read_slot n s.shared.buffer k) Q)
            (sym (at_front n s wraps i))
            (read_slot-Live n s.shared.buffer start v l pos
              (omega (arith, all, length-append rest (written s.pushing))) live)) in
      let ((x, slots), eq, (same, h)) = get in
      rw (eq, ◌>>=◌, ◌>>=◌)
        (
          _,
          refl,
          record {
            indices = i.indices;
            producer = i.producer;
            consumer = (b, (b_at, b_own, b_le, omega (arith, most, ap asked e)));
            contents = (rest, (subst (λ z. s.sent ≡ s.got ++ z ∷ rest) (sym same) fifo, h));
            push_waits =
                push_waits-keep n s Popping.reading_one (Popping.publishing (x ∷ [])) i e
                  (λ q. absurd (cc));
            pop_waits = i.pop_waits;
          },
        )

  read_many :
      (s : System T) (k : ℕ)
      → Inv n s
      → s.popping ≡ Popping.reading k
      → Returns (advance_pop s (Popping.reading k)) (Inv n)
  unfolding advance_pop RingBuf.read_values
  read_many s k i e =
      let (size, _, _) = i.indices in
      let (b, (b_at, b_own, b_le, most)) = i.consumer in
      let (rest, (fifo, live)) = Contents-out n s (Popping.reading k) i e in
      let all = fits-all s rest i fifo in
      let vs = take k rest in
      let later = drop k rest ++ written s.pushing in
      let enough : k ≤ length rest =
        omega (arith, ap length fifo, length-append s.got rest, b_le, most, ap asked e) in
      let long : length (take k rest) ≡ k = omega (arith, length-take k rest, enough) in
      let whole : rest ++ written s.pushing ≡ take k rest ++ (drop k rest ++ written s.pushing) =
        ap (λ z. z ++ written s.pushing) (sym (take-append-drop k rest))
        ∙ append_assoc (take k rest) (drop k rest) (written s.pushing) in
      let apart =
        subst (Live n s.shared.buffer (length s.got)) whole
          (from_got s (rest ++ written s.pushing) live) in
      let read =
        read_slice-Live n s.shared.buffer (length s.got) vs pos (omega (arith, all, long, enough))
          (Live-front n s.shared.buffer (length s.got) vs later apart) in
      let eq : RingBuf.read_slice s.shared.capacity s.shared.buffer
            (s.consumer.cached_read % s.shared.capacity) k
          ≡ done (take k rest) =
        ap (λ z. RingBuf.read_slice z s.shared.buffer (s.consumer.cached_read % z) k) size
        ∙ ap (λ z. RingBuf.read_slice n s.shared.buffer z k) (at_front n s wraps i)
        ∙ ap (RingBuf.read_slice n s.shared.buffer (length s.got % n)) (sym long)
        ∙ read in
      rw (eq, ◌>>=◌)
        (
          _,
          refl,
          record {
            indices = i.indices;
            producer = i.producer;
            consumer = (b, (b_at, b_own, b_le, omega (arith, most, long, ap asked e)));
            contents = (
              drop k rest,
              (
                fifo ∙ ap (◌++◌ s.got) (sym (take-append-drop k rest)),
                Live-tail n s.shared.buffer (length s.got) vs later apart,
              ),
            );
            push_waits =
                push_waits-keep n s (Popping.reading k) (Popping.publishing vs) i e
                  (λ q. absurd (cc));
            pop_waits = i.pop_waits;
          },
        )

  publish :
      (s : System T) (items : List T)
      → Inv n s
      → s.popping ≡ Popping.publishing items
      → Returns (advance_pop s (Popping.publishing items)) (Inv n)
  unfolding advance_pop RingBuf.publish_read
  publish s items i e =
      let (size, w_at, r_at) = i.indices in
      let (a, (at, own, le, fits)) = i.producer in
      let (b, (b_at, b_own, b_le, most)) = i.consumer in
      let (rest, (fifo, live)) = Contents-out n s (Popping.publishing items) i e in
      let more = length-append s.got items in
      let next : RingBuf.wrapping_add s.consumer.cached_read (length items)
          ≡ length (s.got ++ items) % 2 ^ 64 =
        ap (λ z. RingBuf.wrapping_add z (length items)) b_own
        ∙ sum_lem (length s.got) (length items)
        ∙ ap (λ z. z % 2 ^ 64) (sym more) in
      (
        _,
        refl,
        record {
          indices = (size, w_at, next);
          producer = (a, (at, own, omega (arith, le, more), fits));
          consumer = (b, (b_at, next, b_le, omega (arith, most, more, ap asked e)));
          contents = (
            rest,
            (
              fifo ∙ sym (append_assoc s.got items rest),
              subst (λ z. Live n s.shared.buffer z (rest ++ written s.pushing))
                  (omega (arith, more)) live,
            ),
          );
          push_waits =
              Waits-keep s.push_mode s.push_woken s.shared.producer_armed (λ _ _. inr refl)
                i.push_waits;
          pop_waits =
              Waits-keep s.pop_mode s.pop_woken s.shared.consumer_armed
                (λ q. λ stuck. elim stuck [
                  | inl none_left ↦ inl (omega (arith, none_left, b_le, most, more, ap asked e))
                  | inr sig ↦ inr sig
                ])
                i.pop_waits;
        },
      )

  signal :
      (s : System T)
      → Inv n s
      → s.popping ≡ Popping.signaling
      → Returns (advance_pop s Popping.signaling) (Inv n)
  unfolding advance_pop RingBuf.signal_producer
  signal s i e =
      let (b, (b_at, b_own, b_le, most)) = i.consumer in
      let (no_ask, none_out) = after T s.pop_mode in
      (
        _,
        refl,
        record {
          indices = i.indices;
          producer = i.producer;
          consumer = (b, (b_at, b_own, b_le, omega (arith, most, no_ask)));
          contents =
              subst (λ z. Contents n s.shared.buffer z (written s.pushing) s.sent s.got)
                (sym none_out) (Contents-out n s Popping.signaling i e);
          push_waits = Waits-signal s.push_mode s.push_woken s.shared.producer_armed i.push_waits;
          pop_waits = i.pop_waits;
        },
      )

  disarm :
      (s : System T)
      → Inv n s
      → s.popping ≡ Popping.disarming
      → Returns (advance_pop s Popping.disarming) (Inv n)
  unfolding advance_pop
  disarm s i e =
      let (b, (b_at, b_own, b_le, most)) = i.consumer in
      (
        _,
        refl,
        record {
          indices = i.indices;
          producer = i.producer;
          consumer = (b, (b_at, b_own, b_le, omega (arith, most)));
          contents = Contents-out n s Popping.disarming i e;
          push_waits = push_waits-keep n s Popping.disarming Popping.idle i e (λ q. absurd (cc));
          pop_waits = Waits-running s.pop_woken false;
        },
      )

  pub advance_pop-Inv :
      (s : System T) (t : Popping T) → Inv n s → s.popping ≡ t → Returns (advance_pop s t) (Inv n)
  unfolding advance_pop
  advance_pop-Inv s Popping.idle i e = (s, refl, i)
  advance_pop-Inv s Popping.reading_one i e =
      let (rest, (fifo, live)) = Contents-out n s Popping.reading_one i e in
      read_first s rest i e fifo (from_got s (rest ++ written s.pushing) live)
  advance_pop-Inv s (Popping.reading k) i e = read_many s k i e
  advance_pop-Inv s (Popping.publishing items) i e = publish s items i e
  advance_pop-Inv s Popping.signaling i e = signal s i e
  advance_pop-Inv s Popping.disarming i e = disarm s i e
