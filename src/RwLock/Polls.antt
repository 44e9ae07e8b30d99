-- ===== src/RwLock/Polls.antt =====
-- A poll of a read or write future keeps the invariant of `LocalRwLock` and does not panic.
use cynosure.Prelude.{
  ℕ, ◌+◌, ◌≤◌, ◌<◌, ◌≡◌, ◌≢◌, refl, sym, ap, ◌∙◌, inl, inr, Bool, true, false, [], is_nil, arith,
  of_bool, update, Bool-cases,
}
use cynosure.Waiters.{WaitQueue}
use cynosure.Waiters.Registry.{register_in}
use cynosure.Waiters.Registry.Invariant.{Tracks, Tracks-later, drop_entry}
use cynosure.Waiters.Registry.Keep.{register_in-Joined, deregister_in-Tracks}
use cynosure.RwLock
use cynosure.RwLock.{RwLock, usize_max}
use cynosure.RwLock.System
use cynosure.RwLock.System.{System, Event}
use cynosure.RwLock.Steps.{
  fair, unheld, poll_read_ready, poll_read_pending, poll_write_ready, poll_write_pending,
}
use cynosure.RwLock.Safety.{Inv, Kept, Waiting-held, fair_iff, unfair_free, unheld_iff, held_iff}

module _ {W : Type 0} (d : WaitQueue (ℕ × W)) where
  open d use {Q, to_list, is_empty}

  -- A queue that is not empty.
  not-nil : (q : Q) → is_empty q ≡ false → to_list q ≢ []
  not-nil q e at = let r : true ≡ false = sym (d.is_empty-is_nil q ∙ ap is_nil at) ∙ e in cc

module _ {W T : Type 0} (same : W → W → Bool) (d : WaitQueue (ℕ × W)) where
  open d use {Q, to_list, is_empty}

  poll_read_ready-Kept :
      (k : ℕ) (s : System W Q T) (i : ℕ) (w : W)
      → k < usize_max
      → fair same d s.lock ≡ true
      → Inv same d k s
      → Kept same d k s (Event.poll_read i w)
  unfolding System.step
  poll_read_ready-Kept k s i w room e v =
      let (no_writer, _) = fair_iff s.lock.writer (is_empty s.lock.write_waiters) e in
      rw (poll_read_ready same d s.lock (s.read_slots i) w (omega (arith, v.few_readers)) e) (
        _,
        refl,
        record {
          waiting =
              Waiting-held same d _ _ _ _ _ (λ _ f. absurd (omega arith))
                (deregister_in-Tracks same d s.lock.read_waiters s.read_slots s.read_woken
                  s.lock.next_id i v.waiting.reads)
                v.waiting.writes;
          readers_out = omega (arith, v.readers_out);
          writers_out = v.writers_out;
          exclusive = λ f. absurd (cc);
          few_readers = omega (arith, v.few_readers);
          few_tokens = omega (arith, v.few_tokens);
        },
      )

  -- A reader that is turned away while the lock is free was turned away by a queued writer, and a
  -- writer has been woken.
  poll_read_pending-Kept :
      (k : ℕ) (s : System W Q T) (i : ℕ) (w : W)
      → k < usize_max
      → fair same d s.lock ≡ false
      → Inv same d k s
      → Kept same d k s (Event.poll_read i w)
  unfolding System.step RwLock.register_read
  poll_read_pending-Kept k s i w room e v =
      rw (poll_read_pending same d s.lock (s.read_slots i) w e) (
        _,
        refl,
        record {
          waiting = record {
            reads = joined.0;
            writes = Tracks-later _ _ _ _ _ joined.1 v.waiting.writes;
            progress = λ f g. let p = woken f g in (inr p, inr (inr p));
          };
          readers_out = omega (arith, v.readers_out);
          writers_out = v.writers_out;
          exclusive = v.exclusive;
          few_readers = omega (arith, v.few_readers);
          few_tokens = omega (arith, v.few_tokens, joined.2);
        },
      )
    where
      joined :
          let r = register_in same d s.lock.read_waiters s.lock.next_id (s.read_slots i) w in
          Tracks
            (to_list r.queue)
            (update s.read_slots i r.slot)
            (drop_entry (s.read_slots i) s.read_woken)
            r.next_id
          × (s.lock.next_id ≤ r.next_id)
          × (r.next_id ≤ s.lock.next_id + 1)
      joined =
          register_in-Joined same d s.lock.read_waiters s.read_slots s.read_woken s.lock.next_id i w
            (omega (arith, v.few_tokens)) v.waiting.reads

      woken : s.lock.writer ≡ false → s.lock.readers ≡ 0 → s.write_woken ≢ []
      woken f g = elim (v.waiting.progress f g).0 [
        | inl at ↦ absurd (
            not-nil d s.lock.write_waiters
              (unfair_free s.lock.writer (is_empty s.lock.write_waiters) e f) at)
        | inr p ↦ p
      ]

  pub poll_read-Kept :
      (k : ℕ) (s : System W Q T) (i : ℕ) (w : W)
      → k < usize_max
      → Inv same d k s
      → Kept same d k s (Event.poll_read i w)
  poll_read-Kept k s i w room v = elim (Bool-cases (fair same d s.lock)) [
    | inl e ↦ poll_read_ready-Kept k s i w room e v
    | inr e ↦ poll_read_pending-Kept k s i w room e v
  ]

  pub poll_write-Kept :
      (k : ℕ) (s : System W Q T) (i : ℕ) (w : W)
      → k < usize_max
      → Inv same d k s
      → Kept same d k s (Event.poll_write i w)
  unfolding System.step RwLock.register_write
  poll_write-Kept k s i w room v = elim (Bool-cases (unheld same d s.lock)) [
    | inl e ↦
        let (no_readers, no_writer) = unheld_iff s.lock.readers s.lock.writer e in
        rw (poll_write_ready same d s.lock (s.write_slots i) w e) (
          _,
          refl,
          record {
            waiting =
                Waiting-held same d _ _ _ _ _ (λ f _. absurd (cc)) v.waiting.reads
                  (deregister_in-Tracks same d s.lock.write_waiters s.write_slots s.write_woken
                    s.lock.next_id i v.waiting.writes);
            readers_out = v.readers_out;
            writers_out = omega (arith, v.writers_out ∙ ap of_bool no_writer);
            exclusive = λ _. no_readers;
            few_readers = omega (arith, v.few_readers);
            few_tokens = omega (arith, v.few_tokens);
          },
        )
    | inr e ↦ rw (poll_write_pending same d s.lock (s.write_slots i) w e) (
      _,
      refl,
      record {
        waiting =
            Waiting-held same d _ _ _ _ _ (held_iff s.lock.readers s.lock.writer e)
              (Tracks-later _ _ _ _ _ joined.1 v.waiting.reads) joined.0;
        readers_out = v.readers_out;
        writers_out = omega (arith, v.writers_out);
        exclusive = v.exclusive;
        few_readers = omega (arith, v.few_readers);
        few_tokens = omega (arith, v.few_tokens, joined.2);
      },
    )
  ]
    where
      joined :
          let r = register_in same d s.lock.write_waiters s.lock.next_id (s.write_slots i) w in
          Tracks
            (to_list r.queue)
            (update s.write_slots i r.slot)
            (drop_entry (s.write_slots i) s.write_woken)
            r.next_id
          × (s.lock.next_id ≤ r.next_id)
          × (r.next_id ≤ s.lock.next_id + 1)
      joined =
          register_in-Joined same d s.lock.write_waiters s.write_slots s.write_woken s.lock.next_id
            i w (omega (arith, v.few_tokens)) v.waiting.writes
