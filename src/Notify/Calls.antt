-- ===== src/Notify/Calls.antt =====
-- The steps of a signaling thread from when it has the waker, and all its steps together.
use cynosure.Prelude.{
  ℕ, ◌≡◌, refl, sym, ap, ◌∙◌, ◌⊎◌, inl, inr, Bool, true, false, not, ◌&&◌, ◌||◌, Option, none, some,
  ◌==◌, eq→==, if◌then◌else◌, update, arith,
}
use cynosure.Notify
use cynosure.Notify.{AtomicWaker, WaiterSlot}
use cynosure.Notify.System.{System, Signaler, start_signal, signal_step, call_or_end}
use cynosure.Notify.Invariant.{
  locks, fires, holds, comes, Some, HasCell, Fired, Inv, Some-here, Some-or, Some-keep, Some-quiet,
}
use cynosure.Notify.Signals.{Phase-keep, Locks-quiet, Locks-empty, Locks-end}
use cynosure.Notify.Threads.{on_right, publish, load, claim}
use cynosure.Notify.Takes.{lock_free, lock_busy}

module _ (s : System) (i : ℕ) where
  take : Inv s → s.signalers i ≡ Signaler.taking → Inv (signal_step s i Signaler.taking)
  unfolding signal_step Notify.take_waker
  take v e = record {
    locked = v.locked;
    lock = Locks-empty s.slot.waker f s.owner i s.slot.waker.waker mine v.lock;
    phase =
        Phase-keep s (signal_step s i Signaler.taking) s.waiter refl (on_right keep)
          (λ held _.
            let (_, free, _) = v.lock.owner_at i (v.lock.owned i mine) in
            absurd (cc (held, free, v.locked)))
          (λ cell. inl (fire cell))
          (λ _ cell armed. elim armed [
            | inl flag ↦ inr (inl flag)
            | inr claimed ↦ on_right inr (others cell claimed)
          ])
          (λ _ cell _ going.
            on_right
              (λ z. elim z [
                | inl fired ↦ inl (on_right keep fired)
                | inr (inl claimed) ↦ on_right inl (others cell claimed)
                | inr (inr (flag, come)) ↦
                    inr (inr (flag, Some-quiet comes f i next (ap comes e) come))
              ])
              going)
          v.phase;
  }
    where
      f : ℕ → Signaler
      f = s.signalers

      next : Signaler
      next = Signaler.unlocking s.slot.waker.waker

      mine : locks (f i) ≡ true
      mine = ap locks e

      keep : Some (fires s.current) f → Some (fires s.current) (update f i next)
      keep = Some-quiet (fires s.current) f i next (ap (fires s.current) e)

      fire : HasCell s → (s.woken ≡ true) ⊎ Some (fires s.current) (update f i next)
      fire cell = inr (
          Some-here (fires s.current) f i next (
            ap (λ w. fires s.current (Signaler.unlocking w)) cell ∙ eq→== s.current s.current refl))

      others :
          Fired s ⊎ HasCell s
          → Some holds f
          → ((s.woken ≡ true) ⊎ Some (fires s.current) (update f i next))
            ⊎ Some holds (update f i next)
      others cell claimed = elim (Some-or holds f i next claimed) [
        | inl still ↦ inr still
        | inr _ ↦ elim cell [ inl fired ↦ inl (on_right keep fired) | inr there ↦ inl (fire there) ]
      ]

  -- A thread moves on and still calls the waker that it has, if it has one; the flag and the cell stay.
  unlock :
      (w : Option ℕ)
      → Inv s
      → s.signalers i ≡ Signaler.unlocking w
      → Inv (signal_step s i (Signaler.unlocking w))
  unfolding signal_step Notify.end_take
  unlock w v e = record {
    locked = v.locked;
    lock = Locks-end s.slot.waker f s.owner i (call_or_end w) (ap locks e) (unlocked w) v.lock;
    phase =
        Phase-keep s (signal_step s i (Signaler.unlocking w)) s.waiter refl (on_right keep)
          (λ _ cell. cell) inr
          (λ _ _ armed. inr (on_right (Some-quiet holds f i (call_or_end w) (ap holds e)) armed))
          (λ _ _ _ going.
            on_right
              (λ z. elim z [
                | inl fired ↦ inl (on_right keep fired)
                | inr (inl claimed) ↦
                    inr (inl (Some-quiet holds f i (call_or_end w) (ap holds e) claimed))
                | inr (inr (flag, come)) ↦
                    inr (inr (flag, Some-quiet comes f i (call_or_end w) (ap comes e) come))
              ])
              going)
          v.phase;
  }
    where
      f : ℕ → Signaler
      f = s.signalers

      unlocked : (w : Option ℕ) → locks (call_or_end w) ≡ false
      unlocked none = refl
      unlocked (some c) = refl

      same :
          (w : Option ℕ) → fires s.current (Signaler.unlocking w) ≡ fires s.current (call_or_end w)
      same none = refl
      same (some c) = refl

      keep : Some (fires s.current) f → Some (fires s.current) (update f i (call_or_end w))
      keep =
          Some-keep (fires s.current) f i (call_or_end w)
            (λ h. sym (same w) ∙ sym (ap (fires s.current) e) ∙ h)

  call :
      (w : ℕ)
      → Inv s
      → s.signalers i ≡ Signaler.calling w
      → Inv (signal_step s i (Signaler.calling w))
  unfolding signal_step
  call w v e = record {
    locked = v.locked;
    lock = Locks-quiet s.slot.waker f s.owner i Signaler.idle (ap locks e) refl v.lock;
    phase =
        Phase-keep s (signal_step s i (Signaler.calling w)) s.waiter refl fired (λ _ cell. cell) inr
          (λ _ _ armed. inr (on_right (Some-quiet holds f i Signaler.idle (ap holds e)) armed))
          (λ _ _ _ going.
            on_right
              (λ z. elim z [
                | inl done ↦ inl (fired done)
                | inr (inl claimed) ↦
                    inr (inl (Some-quiet holds f i Signaler.idle (ap holds e) claimed))
                | inr (inr (flag, come)) ↦
                    inr (inr (flag, Some-quiet comes f i Signaler.idle (ap comes e) come))
              ])
              going)
          v.phase;
  }
    where
      f : ℕ → Signaler
      f = s.signalers

      fired :
          Fired s
          → (s.woken || (w == s.current) ≡ true) ⊎ Some (fires s.current) (update f i Signaler.idle)
      fired (inl woken) = inl (ground (arith, woken))
      fired (inr going) = elim (Some-or (fires s.current) f i Signaler.idle going) [
        | inl still ↦ inr still
        | inr this ↦
            let it : w == s.current ≡ true = sym (ap (fires s.current) e) ∙ this in
            inl (ground (arith, it))
      ]

  -- `begin_take` finds a lock taken, or not.
  lock : Inv s → s.signalers i ≡ Signaler.locking → Inv (signal_step s i Signaler.locking)
  unfolding signal_step Notify.begin_take
  lock v e = go s.slot.waker.registering s.slot.waker.waking refl refl
    where
      go :
          (r k : Bool)
          → s.slot.waker.registering ≡ r
          → s.slot.waker.waking ≡ k
          → Inv (record s {
            slot = record s.slot { waker = record s.slot.waker { waking = true } };
            signalers =
                update s.signalers i (if not r && not k then Signaler.taking else Signaler.idle);
            owner = if not r && not k then some i else s.owner;
          })
      go false false p q = lock_free s i v e p q
      go false true p q = lock_busy s i v e (inr q)
      go true k p q = lock_busy s i v e (inl p)

  pub signal_step-Inv : (p : Signaler) → Inv s → s.signalers i ≡ p → Inv (signal_step s i p)
  unfolding signal_step
  signal_step-Inv Signaler.idle v e = v
  signal_step-Inv Signaler.loading v e = load s i v e
  signal_step-Inv Signaler.claiming v e = claim s i v e
  signal_step-Inv Signaler.locking v e = lock v e
  signal_step-Inv Signaler.taking v e = take v e
  signal_step-Inv (Signaler.unlocking w) v e = unlock w v e
  signal_step-Inv (Signaler.calling w) v e = call w v e

  pub start_signal-Inv : (p : Signaler) → Inv s → s.signalers i ≡ p → Inv (start_signal s i p)
  unfolding start_signal
  start_signal-Inv Signaler.idle v e = publish s i v e
  start_signal-Inv Signaler.loading v e = v
  start_signal-Inv Signaler.claiming v e = v
  start_signal-Inv Signaler.locking v e = v
  start_signal-Inv Signaler.taking v e = v
  start_signal-Inv (Signaler.unlocking w) v e = v
  start_signal-Inv (Signaler.calling w) v e = v
