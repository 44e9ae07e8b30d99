-- ===== src/Notify/Threads.antt =====
-- The publication, and the accesses of `signal` to the flag, keep the invariant.
use cynosure.Prelude.{ℕ, ◌≡◌, refl, ap, ◌⊎◌, inl, inr, Bool, true, false, if◌then◌else◌, update}
use cynosure.Notify
use cynosure.Notify.{AtomicWaker, WaiterSlot}
use cynosure.Notify.System.{System, Signaler, start_signal, signal_step}
use cynosure.Notify.Invariant.{locks, fires, holds, comes, Inv, Some-here, Some-quiet}
use cynosure.Notify.Signals.{Phase-keep, Locks-quiet}

pub on_right : {A B C : Type 0} → (B → C) → A ⊎ B → A ⊎ C
on_right f (inl a) = inl a
on_right f (inr b) = inr (f b)

either :
    {x y : Signaler} (p : Signaler → Bool) (b : Bool)
    → p x ≡ false
    → p y ≡ false
    → p (if b then x else y) ≡ false
either p true h k = h
either p false h k = k

module _ (s : System) (i : ℕ) where
  pub publish : Inv s → s.signalers i ≡ Signaler.idle → Inv (start_signal s i Signaler.idle)
  unfolding start_signal
  publish v e =
      let f = s.signalers in
      record {
        locked = v.locked;
        lock = Locks-quiet s.slot.waker f s.owner i Signaler.loading (ap locks e) refl v.lock;
        phase =
            Phase-keep s (start_signal s i Signaler.idle) s.waiter refl
              (on_right
                (Some-quiet (fires s.current) f i Signaler.loading (ap (fires s.current) e)))
              (λ _ cell. cell) inr
              (λ _ _ armed.
                inr (on_right (Some-quiet holds f i Signaler.loading (ap holds e)) armed))
              (λ _ _ arm _. inr (elim arm [
                | inl fired ↦ inl (
                    on_right
                      (Some-quiet (fires s.current) f i Signaler.loading (ap (fires s.current) e))
                      fired)
                | inr (inl flag) ↦ inr (inr (flag, Some-here comes f i Signaler.loading refl))
                | inr (inr claimed) ↦
                    inr (inl (Some-quiet holds f i Signaler.loading (ap holds e) claimed))
              ]))
              v.phase;
      }

  pub load : Inv s → s.signalers i ≡ Signaler.loading → Inv (signal_step s i Signaler.loading)
  unfolding signal_step
  load v e =
      go (if s.slot.armed then Signaler.claiming else Signaler.idle)
        (either locks s.slot.armed refl refl) (either holds s.slot.armed refl refl)
        (λ on. rw on refl)
    where
      f : ℕ → Signaler
      f = s.signalers

      go :
          (p : Signaler)
          → locks p ≡ false
          → holds p ≡ false
          → (s.slot.armed ≡ true → comes p ≡ true)
          → Inv (record s { signalers = update f i p })
      go p unlocked unheld coming = record {
        locked = v.locked;
        lock = Locks-quiet s.slot.waker f s.owner i p (ap locks e) unlocked v.lock;
        phase =
            Phase-keep s (record s { signalers = update f i p }) s.waiter refl
              (on_right (Some-quiet (fires s.current) f i p (ap (fires s.current) e)))
              (λ _ cell. cell) inr
              (λ _ _ armed. inr (on_right (Some-quiet holds f i p (ap holds e)) armed))
              (λ _ _ _ going.
                on_right
                  (λ z. elim z [
                    | inl fired ↦ inl (
                        on_right (Some-quiet (fires s.current) f i p (ap (fires s.current) e))
                          fired)
                    | inr (inl claimed) ↦ inr (inl (Some-quiet holds f i p (ap holds e) claimed))
                    | inr (inr (flag, _)) ↦ inr (inr (flag, Some-here comes f i p (coming flag)))
                  ])
                  going)
              v.phase;
      }

  pub claim : Inv s → s.signalers i ≡ Signaler.claiming → Inv (signal_step s i Signaler.claiming)
  unfolding signal_step Notify.claim
  claim v e =
      go (if s.slot.armed then Signaler.locking else Signaler.idle)
        (either locks s.slot.armed refl refl) (λ on. rw on refl)
    where
      f : ℕ → Signaler
      f = s.signalers

      slot : WaiterSlot
      slot = record s.slot { armed = false }

      go :
          (p : Signaler)
          → locks p ≡ false
          → (s.slot.armed ≡ true → holds p ≡ true)
          → Inv (record s { slot = slot; signalers = update f i p })
      go p unlocked claimed = record {
        locked = v.locked;
        lock = Locks-quiet s.slot.waker f s.owner i p (ap locks e) unlocked v.lock;
        phase =
            Phase-keep s (record s { slot = slot; signalers = update f i p }) s.waiter refl
              (on_right (Some-quiet (fires s.current) f i p (ap (fires s.current) e)))
              (λ _ cell. cell) inr
              (λ _ _ armed. inr (
                inr (elim armed [
                  | inl flag ↦ Some-here holds f i p (claimed flag)
                  | inr other ↦ Some-quiet holds f i p (ap holds e) other
                ])))
              (λ _ _ _ going.
                on_right
                  (λ z. elim z [
                    | inl fired ↦ inl (
                        on_right (Some-quiet (fires s.current) f i p (ap (fires s.current) e))
                          fired)
                    | inr (inl other) ↦ inr (inl (Some-quiet holds f i p (ap holds e) other))
                    | inr (inr (flag, _)) ↦ inr (inl (Some-here holds f i p (claimed flag)))
                  ])
                  going)
              v.phase;
      }
