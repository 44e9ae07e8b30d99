-- ===== src/Notify/Waits.antt =====
-- The steps of the task that waits keep the invariant.
use cynosure.Prelude.{
  ℕ, ◌≡◌, refl, sym, ap, ◌∙◌, subst, inl, inr, Bool, true, false, not, ◌&&◌, ◌||◌, Option, none,
  some, ◌==◌, eq→==, if◌then◌else◌, Bool-cases, arith, Exec, done, ◌>>=◌, Returns,
}
use cynosure.Notify
use cynosure.Notify.{AtomicWaker, WaiterSlot}
use cynosure.Notify.System.{
  System, Waiter, Signaler, with_waker, wake, start_arm, start_consume, wait_step,
}
use cynosure.Notify.Invariant.{Locks, in_lock, locks, HasCell, Phase, Inv}

module _ (a : AtomicWaker) (f : ℕ → Signaler) (owner : Option ℕ) (l : Locks a f owner) where
  -- The task gets its lock.
  Locks-register : a.waking ≡ false → Locks (record a { registering = true }) f owner
  Locks-register free = record {
    owned = l.owned;
    owner_at = λ j o. let (_, _, w) = l.owner_at j o in absurd (cc (w, free));
    emptied = l.emptied;
    held = λ _. inl refl;
  }

  Locks-refuse : a.registering ≡ false → Locks (record a { registering = false }) f owner
  Locks-refuse out = record {
    owned = l.owned;
    owner_at = λ j o. let (x, _, w) = l.owner_at j o in (x, refl, w);
    emptied = l.emptied;
    held = λ w. elim (l.held w) [ inl r ↦ absurd (cc (r, out)) | inr o ↦ inr o ];
  }

  module _ (mine : a.registering ≡ true) where
    -- While the task has its lock, no thread has the other one.
    no_thread : (j : ℕ) → locks (f j) ≡ true → ⊥
    no_thread j h = let (_, out, _) = l.owner_at j (l.owned j h) in absurd (cc (mine, out))

    no_owner : (j : ℕ) → owner ≡ some j → ⊥
    no_owner j o = let (_, out, _) = l.owner_at j o in absurd (cc (mine, out))

    Locks-store : (w : Option ℕ) → Locks (record a { waker = w }) f owner
    Locks-store w = record {
      owned = l.owned;
      owner_at = l.owner_at;
      emptied = λ j v e. absurd (no_thread j (ap locks e));
      held = l.held;
    }

    -- The task gives its lock back, with no bit set.
    Locks-release : Locks (record a { registering = false; waking = false }) f owner
    Locks-release = record {
      owned = λ j h. absurd (no_thread j h);
      owner_at = λ j o. absurd (no_owner j o);
      emptied = λ j v e. absurd (no_thread j (ap locks e));
      held = λ e. absurd (cc);
    }

module _ (s : System) (v : Inv s) where
  register : s.waiter ≡ Waiter.registering → Returns (wait_step s Waiter.registering) Inv
  unfolding wait_step Notify.begin_register
  register e = (_, refl, go s.slot.waker.registering s.slot.waker.waking refl refl)
    where
      go :
          (r k : Bool)
          → s.slot.waker.registering ≡ r
          → s.slot.waker.waking ≡ k
          → Inv (
              if not r && not k
              then record s {
                slot = with_waker s (record s.slot.waker { registering = not r && not k || r });
                waiter = Waiter.storing;
              }
              else record s {
                slot = with_waker s (record s.slot.waker { registering = not r && not k || r });
                waiter = Waiter.arming;
                woken = wake s s.current;
              })
      go true k p q = absurd (cc (p, v.locked, ap in_lock e))
      go false false p q = record {
        locked = refl;
        lock = Locks-register s.slot.waker s.signalers s.owner v.lock q;
        phase = tt;
      }
      go false true p q =
          let self : s.current == s.current ≡ true = eq→== s.current s.current refl in
          record {
            locked = refl;
            lock = Locks-refuse s.slot.waker s.signalers s.owner v.lock p;
            phase = inl (inl (ground (arith, self)));
          }

  store : s.waiter ≡ Waiter.storing → Returns (wait_step s Waiter.storing) Inv
  unfolding wait_step Notify.store_waker
  store e =
      let mine = v.locked ∙ ap in_lock e in
      (
        _,
        refl,
        record {
          locked = mine;
          lock = Locks-store s.slot.waker s.signalers s.owner v.lock mine (some s.current);
          phase = refl;
        },
      )

  unlock : s.waiter ≡ Waiter.unlocking → Returns (wait_step s Waiter.unlocking) Inv
  unfolding wait_step Notify.end_register
  unlock e =
      rw (passes s.slot.waker.registering s.slot.waker.waking (v.locked ∙ ap in_lock e))
        (_, refl, go s.slot.waker.registering s.slot.waker.waking refl refl)
    where
      -- the `debug_assert_eq!`: in the lock, only a wake can have changed the state.
      passes : (r k : Bool) → r ≡ true → ((r && not k) || (not (r && not k) && r) && k) ≡ true
      passes r k h = ground (arith, h)

      cell : HasCell s
      cell = subst (Phase s) e v.phase

      go :
          (r k : Bool)
          → s.slot.waker.registering ≡ r
          → s.slot.waker.waking ≡ k
          → Inv (record s {
            slot = with_waker s (record s.slot.waker { registering = not (r && not k) && r });
            waiter = if r && not k then Waiter.arming else Waiter.raced;
          })
      go false k p q = absurd (cc (p, v.locked, ap in_lock e))
      go true false p q = record {
        locked = refl;
        lock =
            subst
              (λ z.
                Locks (record s.slot.waker { registering = false; waking = z }) s.signalers s.owner)
              (sym q) (Locks-release s.slot.waker s.signalers s.owner v.lock p);
        phase = inr cell;
      }
      go true true p q = record {
        locked = refl;
        lock =
            subst (λ z. Locks (record s.slot.waker { registering = z }) s.signalers s.owner) p
              v.lock;
        phase = cell;
      }

  take_back : s.waiter ≡ Waiter.raced → Returns (wait_step s Waiter.raced) Inv
  unfolding wait_step Notify.take_raced
  take_back e =
      let cell : s.slot.waker.waker ≡ some s.current = subst (Phase s) e v.phase in
      let mine = v.locked ∙ ap in_lock e in
      let ran : Notify.take_raced s.slot.waker
          ≡ done (s.current, record s.slot.waker { waker = none }) =
        ap
          (λ w. elim w as (λ _. Exec (ℕ × AtomicWaker)) [
            | none ↦ Exec.panic
            | some w ↦ done (w, record s.slot.waker { waker = none })
          ])
          cell in
      (
        _,
        ap
            (λ r. r >>= (λ (w, a).
              done (record s { slot = with_waker s a; waiter = Waiter.releasing w })))
            ran,
        record {
          locked = mine;
          lock = Locks-store s.slot.waker s.signalers s.owner v.lock mine none;
          phase = refl;
        },
      )

  pub wait_step-Inv : (t : Waiter) → s.waiter ≡ t → Returns (wait_step s t) Inv
  unfolding wait_step Notify.release Notify.set_armed Notify.disarm
  wait_step-Inv Waiter.idle e = (s, refl, v)
  wait_step-Inv Waiter.parked e = (s, refl, v)
  wait_step-Inv Waiter.registering e = register e
  wait_step-Inv Waiter.storing e = store e
  wait_step-Inv Waiter.unlocking e = unlock e
  wait_step-Inv Waiter.raced e = take_back e
  wait_step-Inv (Waiter.releasing w) e =
      let mine = v.locked ∙ ap in_lock e in
      (
        _,
        refl,
        record {
          locked = refl;
          lock = Locks-release s.slot.waker s.signalers s.owner v.lock mine;
          phase = subst (Phase s) e v.phase;
        },
      )
  wait_step-Inv (Waiter.firing w) e =
      let same : w ≡ s.current = subst (Phase s) e v.phase in
      let it : w == s.current ≡ true = eq→== w s.current same in
      (
        _,
        refl,
        record {
          locked = v.locked ∙ ap in_lock e;
          lock = v.lock;
          phase = inl (inl (ground (arith, it)));
        },
      )
  wait_step-Inv Waiter.arming e = (
    _,
    refl,
    record {
      locked = v.locked ∙ ap in_lock e;
      lock = v.lock;
      phase = (subst (Phase s) e v.phase, inr (inl refl));
    },
  )
  wait_step-Inv Waiter.checking e =
      let (reg, arm) = subst (Phase s) e v.phase in
      (
        _,
        refl,
        elim (Bool-cases s.ready) [
          | inl yet ↦
              subst (λ z. Inv (record s { waiter = if z then Waiter.disarming else Waiter.parked }))
                (sym yet) (record { locked = v.locked ∙ ap in_lock e; lock = v.lock; phase = tt })
          | inr not_yet ↦
              subst (λ z. Inv (record s { waiter = if z then Waiter.disarming else Waiter.parked }))
                (sym not_yet)
                (record {
                  locked = v.locked ∙ ap in_lock e;
                  lock = v.lock;
                  phase = (reg, arm, inl not_yet);
                })
        ],
      )
  wait_step-Inv Waiter.disarming e =
      (_, refl, record { locked = v.locked ∙ ap in_lock e; lock = v.lock; phase = tt })

  pub start_arm-Inv : (t : Waiter) (w : ℕ) → s.waiter ≡ t → Inv (start_arm s t w)
  unfolding start_arm
  start_arm-Inv Waiter.idle w e = record {
    locked = v.locked ∙ ap in_lock e;
    lock = v.lock;
    phase = tt;
  }
  start_arm-Inv Waiter.parked w e = record {
    locked = v.locked ∙ ap in_lock e;
    lock = v.lock;
    phase = tt;
  }
  start_arm-Inv Waiter.registering w e = v
  start_arm-Inv Waiter.storing w e = v
  start_arm-Inv Waiter.unlocking w e = v
  start_arm-Inv Waiter.raced w e = v
  start_arm-Inv (Waiter.releasing c) w e = v
  start_arm-Inv (Waiter.firing c) w e = v
  start_arm-Inv Waiter.arming w e = v
  start_arm-Inv Waiter.checking w e = v
  start_arm-Inv Waiter.disarming w e = v

  pub start_consume-Inv : (t : Waiter) (more : Bool) → s.waiter ≡ t → Inv (start_consume s t more)
  unfolding start_consume
  start_consume-Inv Waiter.idle more e = record {
    locked = v.locked;
    lock = v.lock;
    phase = subst (Phase (record s { ready = s.ready && more })) (sym e) tt;
  }
  start_consume-Inv Waiter.parked more e = record {
    locked = v.locked ∙ ap in_lock e;
    lock = v.lock;
    phase = tt;
  }
  start_consume-Inv Waiter.registering more e = v
  start_consume-Inv Waiter.storing more e = v
  start_consume-Inv Waiter.unlocking more e = v
  start_consume-Inv Waiter.raced more e = v
  start_consume-Inv (Waiter.releasing c) more e = v
  start_consume-Inv (Waiter.firing c) more e = v
  start_consume-Inv Waiter.arming more e = v
  start_consume-Inv Waiter.checking more e = v
  start_consume-Inv Waiter.disarming more e = v
