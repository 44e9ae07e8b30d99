-- ===== src/Notify/Takes.antt =====
-- The steps of `AtomicWaker::wake` keep the invariant.
use cynosure.Prelude.{
  ℕ, ◌≡◌, ◌≢◌, refl, ap, ◌∙◌, ◌⊎◌, inl, inr, true, false, Option, some, update, update_ne,
}
use cynosure.Notify.System.{System, Signaler}
use cynosure.Notify.Invariant.{
  in_lock, locks, fires, holds, comes, Some, HasCell, Fired, Inv, Some-or, Some-keep, Some-quiet,
}
use cynosure.Notify.Signals.{Phase-keep, Locks-quiet, Locks-wait, Locks-take}
use cynosure.Notify.Threads.{on_right}

locks-cases :
    (p : Signaler)
    → locks p ≡ true
    → (p ≡ Signaler.taking) ⊎ ((w : Option ℕ) × (p ≡ Signaler.unlocking w))
locks-cases Signaler.idle e = absurd (cc)
locks-cases Signaler.loading e = absurd (cc)
locks-cases Signaler.claiming e = absurd (cc)
locks-cases Signaler.locking e = absurd (cc)
locks-cases Signaler.taking e = inl refl
locks-cases (Signaler.unlocking w) e = inr (w, refl)
locks-cases (Signaler.calling w) e = absurd (cc)

module _ (s : System) (i : ℕ) where
  -- The state after `fetch_or(WAKING)`
  abbrev locked_by : Signaler → Option ℕ → System
  locked_by p o = record s {
    slot = record s.slot { waker = record s.slot.waker { waking = true } };
    signalers = update s.signalers i p;
    owner = o;
  }

  -- The thread finds no lock taken.
  pub lock_free :
      Inv s
      → s.signalers i ≡ Signaler.locking
      → s.slot.waker.registering ≡ false
      → s.slot.waker.waking ≡ false
      → Inv (locked_by Signaler.taking (some i))
  lock_free v e no_reg no_wake =
      let f = s.signalers in
      let keep = Some-quiet (fires s.current) f i Signaler.taking (ap (fires s.current) e) in
      let held = Some-keep holds f i Signaler.taking (λ _. refl) in
      record {
        locked = v.locked;
        lock = Locks-take s.slot.waker f s.owner i no_reg no_wake v.lock;
        phase =
            Phase-keep s (locked_by Signaler.taking (some i)) s.waiter refl (on_right keep)
              (λ _ cell. cell) inr (λ _ _ armed. inr (on_right held armed))
              (λ _ _ _ going.
                on_right
                  (λ z. elim z [
                    | inl fired ↦ inl (on_right keep fired)
                    | inr (inl other) ↦ inr (inl (held other))
                    | inr (inr (flag, come)) ↦
                        inr (inr (flag, Some-quiet comes f i Signaler.taking (ap comes e) come))
                  ])
                  going)
              v.phase;
      }

  -- Who has the lock, if a thread finds it taken, is going to take the waker, or has taken it.
  successor :
      Inv s
      → in_lock s.waiter ≡ false
      → (s.slot.waker.registering ≡ true) ⊎ (s.slot.waker.waking ≡ true)
      → Fired s ⊎ HasCell s
      → Fired s ⊎ ((j : ℕ) × (s.signalers j ≡ Signaler.taking))
  successor v out (inl reg) cell = absurd (cc (reg, v.locked, out))
  successor v out (inr wake) cell = elim (v.lock.held wake) [
    | inl reg ↦ absurd (cc (reg, v.locked, out))
    | inr (j, o) ↦ elim (locks-cases (s.signalers j) (v.lock.owner_at j o).0) [
      | inl taking ↦ inr (j, taking)
      | inr (w, unlocking) ↦
          let gone = v.lock.emptied j w unlocking in
          elim cell [ inl fired ↦ inl fired | inr there ↦ absurd (cc (gone, there)) ]
    ]
  ]

  pub lock_busy :
      Inv s
      → s.signalers i ≡ Signaler.locking
      → (s.slot.waker.registering ≡ true) ⊎ (s.slot.waker.waking ≡ true)
      → Inv (locked_by Signaler.idle s.owner)
  lock_busy v e busy = record {
    locked = v.locked;
    lock =
        Locks-quiet (record s.slot.waker { waking = true }) f s.owner i Signaler.idle (ap locks e)
          refl (Locks-wait s.slot.waker f s.owner i busy v.lock);
    phase =
        Phase-keep s (locked_by Signaler.idle s.owner) s.waiter refl (on_right keep)
          (λ _ cell. cell) inr
          (λ out cell armed. elim armed [
            | inl flag ↦ inr (inl flag)
            | inr claimed ↦ elim (others out cell claimed) [
              | inl fired ↦ inl (on_right keep fired)
              | inr held ↦ inr (inr held)
            ]
          ])
          (λ out cell _ going.
            on_right
              (λ z. elim z [
                | inl fired ↦ inl (on_right keep fired)
                | inr (inl claimed) ↦ elim (others out cell claimed) [
                  | inl fired ↦ inl (on_right keep fired)
                  | inr held ↦ inr (inl held)
                ]
                | inr (inr (flag, come)) ↦
                    inr (inr (flag, Some-quiet comes f i Signaler.idle (ap comes e) come))
              ])
              going)
          v.phase;
  }
    where
      f : ℕ → Signaler
      f = s.signalers

      keep : Some (fires s.current) f → Some (fires s.current) (update f i Signaler.idle)
      keep = Some-quiet (fires s.current) f i Signaler.idle (ap (fires s.current) e)

      others :
          in_lock s.waiter ≡ false
          → Fired s ⊎ HasCell s
          → Some holds f
          → Fired s ⊎ Some holds (update f i Signaler.idle)
      others out cell claimed = elim (Some-or holds f i Signaler.idle claimed) [
        | inl still ↦ inr still
        | inr _ ↦
            on_right
              (λ (j, taking).
                let ne : i ≢ j = λ q. absurd (cc (e, taking, ap f q)) in
                (j, ap holds (update_ne f i j Signaler.idle ne ∙ taking)))
              (successor v out busy cell)
      ]
