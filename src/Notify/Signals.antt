-- ===== src/Notify/Signals.antt =====
-- The steps of a signaling thread keep the invariant.
use cynosure.Prelude.{
  ℕ, ◌≡◌, refl, sym, ap, ◌∙◌, ◌⊎◌, inl, inr, true, false, Option, none, some, update,
}
use cynosure.Notify.{AtomicWaker}
use cynosure.Notify.System.{System, Waiter, Signaler}
use cynosure.Notify.Invariant.{
  Locks, in_lock, locks, HasCell, Fired, Armed, Going, Phase, update-at,
}

-- What a step of the others has to keep of the task's phase
pub Phase-keep :
    (s s' : System) (t : Waiter)
    → s'.current ≡ s.current
    → (Fired s → Fired s')
    → (in_lock t ≡ true → HasCell s → HasCell s')
    → (HasCell s → Fired s' ⊎ HasCell s')
    → (in_lock t ≡ false → Fired s ⊎ HasCell s → Armed s → Fired s' ⊎ Armed s')
    → (in_lock t ≡ false
        → Fired s ⊎ HasCell s
        → Fired s ⊎ Armed s
        → (s.ready ≡ false) ⊎ (Fired s ⊎ Going s)
        → (s'.ready ≡ false) ⊎ (Fired s' ⊎ Going s'))
    → Phase s t
    → Phase s' t
Phase-keep s s' Waiter.idle c f l h a g p = tt
Phase-keep s s' Waiter.registering c f l h a g p = tt
Phase-keep s s' Waiter.storing c f l h a g p = tt
Phase-keep s s' Waiter.unlocking c f l h a g p = l refl p
Phase-keep s s' Waiter.raced c f l h a g p = l refl p
Phase-keep s s' (Waiter.releasing w) c f l h a g p = p ∙ sym c
Phase-keep s s' (Waiter.firing w) c f l h a g p = p ∙ sym c
Phase-keep s s' Waiter.arming c f l h a g p = reg p
  where
    reg : Fired s ⊎ HasCell s → Fired s' ⊎ HasCell s'
    reg (inl fired) = inl (f fired)
    reg (inr cell) = h cell
Phase-keep s s' Waiter.checking c f l h a g (p, q) = (reg p, arm q)
  where
    reg : Fired s ⊎ HasCell s → Fired s' ⊎ HasCell s'
    reg (inl fired) = inl (f fired)
    reg (inr cell) = h cell

    arm : Fired s ⊎ Armed s → Fired s' ⊎ Armed s'
    arm (inl fired) = inl (f fired)
    arm (inr armed) = a refl p armed
Phase-keep s s' Waiter.disarming c f l h a g p = tt
Phase-keep s s' Waiter.parked c f l h a g (p, q, r) = (reg p, arm q, g refl p q r)
  where
    reg : Fired s ⊎ HasCell s → Fired s' ⊎ HasCell s'
    reg (inl fired) = inl (f fired)
    reg (inr cell) = h cell

    arm : Fired s ⊎ Armed s → Fired s' ⊎ Armed s'
    arm (inl fired) = inl (f fired)
    arm (inr armed) = a refl p armed

module _ (a : AtomicWaker) (f : ℕ → Signaler) (owner : Option ℕ) (i : ℕ) where
  -- A thread that has no lock before and after its step
  pub Locks-quiet :
      (p : Signaler)
      → locks (f i) ≡ false
      → locks p ≡ false
      → Locks a f owner
      → Locks a (update f i p) owner
  Locks-quiet p before after l = record {
    owned = λ j.
        update-at (λ x. locks x ≡ true → owner ≡ some j) f i p j (λ e h. absurd (cc))
          (λ ne. l.owned j);
    owner_at = λ j o.
        update-at (λ x. (locks x ≡ true) × (a.registering ≡ false) × (a.waking ≡ true)) f i p j
          (λ e. absurd (cc (before, ap (λ k. locks (f k)) e, (l.owner_at j o).0)))
          (λ ne. l.owner_at j o);
    emptied = λ j w.
        update-at (λ x. x ≡ Signaler.unlocking w → a.waker ≡ none) f i p j
          (λ e h. absurd (cc (after, ap locks h))) (λ ne. l.emptied j w);
    held = l.held;
  }

  -- The bit is set while somebody else has a lock.
  pub Locks-wait :
      (a.registering ≡ true) ⊎ (a.waking ≡ true)
      → Locks a f owner
      → Locks (record a { waking = true }) f owner
  Locks-wait busy l = record {
    owned = l.owned;
    owner_at = λ j o. let (x, y, _) = l.owner_at j o in (x, y, refl);
    emptied = l.emptied;
    held = λ _. elim busy [ inl r ↦ inl r | inr w ↦ l.held w ];
  }

  -- A thread gets the lock.
  pub Locks-take :
      a.registering ≡ false
      → a.waking ≡ false
      → Locks a f owner
      → Locks (record a { waking = true }) (update f i Signaler.taking) (some i)
  Locks-take no_reg no_wake l = record {
    owned = λ j.
        update-at (λ x. locks x ≡ true → some i ≡ some j) f i Signaler.taking j (λ e h. ap some e)
          (λ ne h. let (_, _, w) = l.owner_at j (l.owned j h) in absurd (cc (w, no_wake)));
    owner_at = λ j o.
        update-at (λ x. (locks x ≡ true) × (a.registering ≡ false) × (true ≡ true)) f i
          Signaler.taking j (λ e. (refl, no_reg, refl)) (λ ne. absurd (ne (cc)));
    emptied = λ j w.
        update-at (λ x. x ≡ Signaler.unlocking w → a.waker ≡ none) f i Signaler.taking j
          (λ e h. absurd (cc)) (λ ne. l.emptied j w);
    held = λ _. inr (i, refl);
  }

  -- The thread with the lock takes the waker.
  pub Locks-empty :
      (w : Option ℕ)
      → locks (f i) ≡ true
      → Locks a f owner
      → Locks (record a { waker = none }) (update f i (Signaler.unlocking w)) owner
  Locks-empty w mine l = record {
    owned = λ j.
        update-at (λ x. locks x ≡ true → owner ≡ some j) f i (Signaler.unlocking w) j
          (λ e h. l.owned i mine ∙ ap some e) (λ ne. l.owned j);
    owner_at = λ j o.
        update-at (λ x. (locks x ≡ true) × (a.registering ≡ false) × (a.waking ≡ true)) f i
          (Signaler.unlocking w) j (λ e. let (_, y, z) = l.owner_at j o in (refl, y, z))
          (λ ne. l.owner_at j o);
    emptied = λ j v h. refl;
    held = l.held;
  }

  -- The thread with the lock gives it back.
  pub Locks-end :
      (p : Signaler)
      → locks (f i) ≡ true
      → locks p ≡ false
      → Locks a f owner
      → Locks (record a { waking = false }) (update f i p) none
  Locks-end p mine after l = record {
    owned = λ j.
        update-at (λ x. locks x ≡ true → none ≡ some j) f i p j (λ e h. absurd (cc))
          (λ ne h. absurd (ne (cc (l.owned i mine, l.owned j h))));
    owner_at = λ j o. absurd (cc);
    emptied = λ j w.
        update-at (λ x. x ≡ Signaler.unlocking w → a.waker ≡ none) f i p j
          (λ e h. absurd (cc (after, ap locks h))) (λ ne. l.emptied j w);
    held = λ e. absurd (cc);
  }
