-- ===== src/RwLock/Wake.antt =====
-- `wake_next` of `LocalRwLock`: one writer if any waits, otherwise all the readers.
use cynosure.Prelude.{
  ℕ, zero, suc, ◌<◌, ◌≡◌, ◌≢◌, refl, sym, ap, ◌∙◌, subst, ◌⊎◌, inl, inr, Bool, true, false, ◌||◌,
  Option, none, some, List, [], ◌∷◌, ◌++◌, append-nil, append_assoc, arith, length, ltb, Bool-cases,
}
use cynosure.Waiters.{WaitQueue}
use cynosure.Waiters.Registry.Invariant.{Tracks, Tracks-wake, with_wake}
use cynosure.Waiters.Registry.Wake.{append-ne-nil, pop_front_cases}
use cynosure.RwLock
use cynosure.RwLock.{RwLock, Wakes}

module _ {W : Type 0} (d : WaitQueue (ℕ × W)) where
  open d use {Q, to_list, pop_front}

  -- With more fuel than there are waiters, the loop wakes all of them, in order.
  pub wake_readers_lem :
      (fuel : ℕ) (q : Q) (l woken : List (ℕ × W))
      → to_list q ≡ l
      → length l < fuel
      → ((RwLock.wake_readers d fuel q woken).0 ≡ woken ++ l)
        × (to_list (RwLock.wake_readers d fuel q woken).1 ≡ [])
  unfolding RwLock.wake_readers
  wake_readers_lem zero q l woken at h = absurd (omega arith)
  wake_readers_lem (suc fuel) q l woken at h = elim (pop_front_cases d q) [
    | inl (nobody, value, rest) ↦
        rw (value, RwLock.wake_readers) (rw (sym at ∙ nobody) (sym (append-nil woken)), rest)
    | inr (e, k, front, value, rest) ↦
        let same_list : l ≡ e ∷ k = sym at ∙ front in
        let (p, r) =
          wake_readers_lem fuel (pop_front q).1 k (woken ++ e ∷ []) rest
            (omega (arith, ap length same_list)) in
        rw (value, RwLock.wake_readers)
          (p ∙ append_assoc woken (e ∷ []) k ∙ ap (λ z. woken ++ z) (sym same_list), r)
  ]

  -- Waking a whole queue.
  Tracks-wake_all :
      (l : List (ℕ × W)) (slots : ℕ → Option (ℕ × W)) (w : List (ℕ × W)) (next : ℕ)
      → Tracks l slots w next
      → Tracks [] slots (w ++ l) next
  Tracks-wake_all [] slots w next t = subst (λ z. Tracks [] slots z next) (sym (append-nil w)) t
  Tracks-wake_all (e ∷ l) slots w next t =
      subst (λ z. Tracks [] slots z next) (append_assoc w (e ∷ []) l)
        (Tracks-wake_all l slots (w ++ e ∷ []) next (Tracks-wake e l slots w next t))

held_not_free : (b : Bool) (n : ℕ) → b || ltb 0 n ≡ true → b ≡ false → n ≡ 0 → ⊥
held_not_free b n h e f = ground arith

module _ {W T : Type 0} (same : W → W → Bool) (d : WaitQueue (ℕ × W)) where
  open d use {Q, to_list, pop_front}

  -- The waiters of a lock, the slots of its futures and the wakes under way belong together; while the
  -- lock is free, a queued writer means that a writer has been woken, and a queued reader that somebody
  -- has been.
  pub record Waiting (l : RwLock Q T) (rs ws : ℕ → Option (ℕ × W)) (wr ww : List (ℕ × W))
      : Type 0 where
    pub reads : Tracks (to_list l.read_waiters) rs wr l.next_id
    pub writes : Tracks (to_list l.write_waiters) ws ww l.next_id
    pub progress :
        l.writer ≡ false
        → l.readers ≡ 0
        → ((to_list l.write_waiters ≡ []) ⊎ (ww ≢ []))
          × ((to_list l.read_waiters ≡ []) ⊎ ((wr ≢ []) ⊎ (ww ≢ [])))

  -- What a wake leaves alone.
  pub record SameHolders (l l' : RwLock Q T) : Type 0 where
    pub readers : l'.readers ≡ l.readers
    pub writer : l'.writer ≡ l.writer
    pub next_id : l'.next_id ≡ l.next_id

  abbrev Settled :
      RwLock Q T
      → (ℕ → Option (ℕ × W))
      → (ℕ → Option (ℕ × W))
      → List (ℕ × W)
      → List (ℕ × W)
      → Wakes W × RwLock Q T
      → Type 0
  Settled l rs ws wr ww r =
      Waiting r.1 rs ws (wr ++ r.0.of_readers) (with_wake r.0.of_writer ww) × SameHolders l r.1

  wake_held :
      (l : RwLock Q T) (rs ws : ℕ → Option (ℕ × W)) (wr ww : List (ℕ × W))
      → l.writer || ltb 0 l.readers ≡ true
      → Tracks (to_list l.read_waiters) rs wr l.next_id
      → Tracks (to_list l.write_waiters) ws ww l.next_id
      → Settled l rs ws wr ww (RwLock.wake_next same d l)
  unfolding RwLock.wake_next
  wake_held l rs ws wr ww h th tw = rw h (
    record {
      reads = subst (λ z. Tracks (to_list l.read_waiters) rs z l.next_id) (sym (append-nil wr)) th;
      writes = tw;
      progress = λ e f. absurd (held_not_free l.writer l.readers h e f);
    },
    record { readers = refl; writer = refl; next_id = refl },
  )

  wake_writer :
      (l : RwLock Q T) (rs ws : ℕ → Option (ℕ × W)) (wr ww : List (ℕ × W)) (e : ℕ × W)
      (k : List (ℕ × W))
      → to_list l.write_waiters ≡ e ∷ k
      → (pop_front l.write_waiters).0 ≡ some e
      → to_list (pop_front l.write_waiters).1 ≡ k
      → Tracks (to_list l.read_waiters) rs wr l.next_id
      → Tracks (to_list l.write_waiters) ws ww l.next_id
      → Settled l rs ws wr ww (RwLock.wake_free same d l)
  unfolding RwLock.wake_free
  wake_writer l rs ws wr ww e k front value rest th tw =
      rw (value, RwLock.wake_free)
        (
          record {
            reads =
                subst (λ z. Tracks (to_list l.read_waiters) rs z l.next_id) (sym (append-nil wr))
                  th;
            writes =
                subst (λ z. Tracks z ws (ww ++ e ∷ []) l.next_id) (sym rest)
                  (Tracks-wake e k ws ww l.next_id
                    (subst (λ z. Tracks z ws ww l.next_id) front tw));
            progress = λ _ _. (inr (append-ne-nil ww e), inr (inr (append-ne-nil ww e)));
          },
          record { readers = refl; writer = refl; next_id = refl },
        )

  wake_readers_all :
      (l : RwLock Q T) (rs ws : ℕ → Option (ℕ × W)) (wr ww : List (ℕ × W))
      → to_list l.write_waiters ≡ []
      → (pop_front l.write_waiters).0 ≡ none
      → to_list (pop_front l.write_waiters).1 ≡ []
      → Tracks (to_list l.read_waiters) rs wr l.next_id
      → Tracks (to_list l.write_waiters) ws ww l.next_id
      → Settled l rs ws wr ww (RwLock.wake_free same d l)
  unfolding RwLock.wake_free RwLock.wake_all_readers
  wake_readers_all l rs ws wr ww nobody value rest th tw =
      let (p, r) =
        wake_readers_lem d (suc (length (to_list l.read_waiters))) l.read_waiters
          (to_list l.read_waiters) [] refl (omega arith) in
      rw (value, RwLock.wake_free)
        (
          record {
            reads =
                subst
                  (λ z.
                    Tracks z rs
                      (wr
                        ++ (RwLock.wake_readers d (suc (length (to_list l.read_waiters)))
                            l.read_waiters []).0)
                      l.next_id)
                  (sym r)
                  (subst (λ z. Tracks [] rs (wr ++ z) l.next_id) (sym p)
                    (Tracks-wake_all d (to_list l.read_waiters) rs wr l.next_id th));
            writes = subst (λ z. Tracks z ws ww l.next_id) (nobody ∙ sym rest) tw;
            progress = λ _ _. (inl rest, inl r);
          },
          record { readers = refl; writer = refl; next_id = refl },
        )

  -- Whatever `wake_next` does, the waiters are tracked and nobody who could go on is left asleep.
  pub wake_next_lem :
      (l : RwLock Q T) (rs ws : ℕ → Option (ℕ × W)) (wr ww : List (ℕ × W))
      → Tracks (to_list l.read_waiters) rs wr l.next_id
      → Tracks (to_list l.write_waiters) ws ww l.next_id
      → let (wakes, l') = RwLock.wake_next same d l in
        Waiting l' rs ws (wr ++ wakes.of_readers) (with_wake wakes.of_writer ww) × SameHolders l l'
  unfolding RwLock.wake_next
  wake_next_lem l rs ws wr ww th tw = elim (Bool-cases (l.writer || ltb 0 l.readers)) [
    | inl h ↦ wake_held l rs ws wr ww h th tw
    | inr h ↦ rw h (elim (pop_front_cases d l.write_waiters) [
      | inl (nobody, value, rest) ↦ wake_readers_all l rs ws wr ww nobody value rest th tw
      | inr (e, k, front, value, rest) ↦ wake_writer l rs ws wr ww e k front value rest th tw
    ])
  ]
