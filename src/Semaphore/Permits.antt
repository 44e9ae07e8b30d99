-- ===== src/Semaphore/Permits.antt =====
-- What the calls of `LocalSemaphore` do to the number of permits.
use cynosure.Prelude.{
  ℕ, ◌+◌, ◌-◌, ◌≤◌, ◌≡◌, refl, ◌⊎◌, inl, inr, Bool, true, false, Option, none, some, leb,
  Bool-cases, Returns, le→leb,
}
use cynosure.Waiters.{WaitQueue}
use cynosure.Semaphore
use cynosure.Semaphore.{Semaphore, Request, id_of, max_permits}
use cynosure.Semaphore.Turns.{can_lem}

module _ {W : Type 0} (same : W → W → Bool) (d : WaitQueue (ℕ × Request W)) where
  open d use {Q, is_empty}

  pub new-eq :
      (n : ℕ) → Semaphore.new same d n ≡ record { permits = n; waiters = d.new; next_id = 0 }
  unfolding Semaphore.new
  new-eq n = refl

  pub try_acquire-some :
      (s : Semaphore Q) (n : ℕ)
      → leb n s.permits ≡ true
      → Semaphore.try_acquire_many same d s n ≡ (true, record s { permits = s.permits - n })
  unfolding Semaphore.try_acquire_many
  try_acquire-some s n e = rw e refl

  pub try_acquire-none :
      (s : Semaphore Q) (n : ℕ)
      → leb n s.permits ≡ false
      → Semaphore.try_acquire_many same d s n ≡ (false, s)
  unfolding Semaphore.try_acquire_many
  try_acquire-none s n e = rw e refl

  pub poll-permits :
      (s : Semaphore Q) (slot : Option (ℕ × Request W)) (n : ℕ) (w : W)
      → let (ready, s', slot', woken) = Semaphore.poll same d s slot n w in
        ((ready ≡ true) × (n ≤ s.permits) × (s'.permits ≡ s.permits - n))
        ⊎ ((ready ≡ false) × (s'.permits ≡ s.permits))
  unfolding Semaphore.poll Semaphore.grant Semaphore.register Semaphore.deregister
  poll-permits s slot n w = elim (Bool-cases (Semaphore.can_acquire_fair same d s n (id_of slot))) [
    | inl can ↦ rw can (inl (refl, (can_lem same d s n (id_of slot) can).0, refl))
    | inr wait ↦
        let (s1, slot1) = Semaphore.register same d s slot n w in
        rw wait (elim (Bool-cases (Semaphore.can_acquire_fair same d s1 n (id_of slot1))) [
          | inl can ↦ rw can (inl (refl, (can_lem same d s1 n (id_of slot1) can).0, refl))
          | inr still ↦ rw still (inr (refl, refl))
        ])
  ]

  pub drop_future-permits :
      (s : Semaphore Q) (slot : Option (ℕ × Request W))
      → (Semaphore.drop_future same d s slot).1.permits ≡ s.permits
  unfolding Semaphore.drop_future Semaphore.deregister
  drop_future-permits s none = refl
  drop_future-permits s (some e) = refl

  pub add_permits-permits :
      (s : Semaphore Q) (n : ℕ)
      → s.permits + n ≤ max_permits
      → Returns (Semaphore.add_permits same d s n) (λ (woken, s'). s'.permits ≡ s.permits + n)
  unfolding Semaphore.release Semaphore.bump_permits
  add_permits-permits s n room = elim (Bool-cases (is_empty s.waiters)) [
    | inl e ↦ rw (le→leb _ _ room, e) (_, refl, refl)
    | inr e ↦ rw (le→leb _ _ room, e) (_, refl, refl)
  ]
