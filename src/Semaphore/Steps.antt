-- ===== src/Semaphore/Steps.antt =====
-- The poll of `Acquire`, by whether it may go on.
use cynosure.Prelude.{
  ℕ, ◌≤◌, ◌≡◌, ◌≢◌, refl, ap, ◌∙◌, inl, inr, Bool, true, false, Option, none, some, List, [], ◌∷◌,
  ◌++◌, reject, arith, ltb, ne→==-false, Bool-cases,
}
use cynosure.Waiters.{WaitQueue}
use cynosure.Waiters.Entries.{In, has_id, In-append_end}
use cynosure.Waiters.Registry.{register_in, is_stale, token_of, next_of}
use cynosure.Waiters.Registry.Invariant.{with_wake}
use cynosure.Waiters.Registry.Keep.{to_list-enqueue}
use cynosure.Semaphore
use cynosure.Semaphore.{Semaphore, Request, first, is_front, is_turn, id_of, same_waker}

module _ {P : Type 0} where
  -- Who has somebody else ahead still has after joining at the back.
  first-rejoin :
      (l : List (ℕ × P)) (id : ℕ) (p : P)
      → is_turn (first l) (some id) ≡ false
      → is_turn (first (reject (has_id id) l ++ (id, p) ∷ [])) (some id) ≡ false
  first-rejoin [] id p h = absurd (cc)
  first-rejoin (f ∷ l) id p h = rw h h

  first-apart :
      (l : List (ℕ × P)) (id : ℕ)
      → is_turn (first l) none ≡ false
      → ((e : ℕ × P) → In e l → e.0 ≢ id)
      → is_turn (first l) (some id) ≡ false
  first-apart [] id h away = absurd (cc)
  first-apart (f ∷ l) id h away = ne→==-false f.0 id (away f (inl refl))

module _ {W : Type 0} (same : W → W → Bool) (d : WaitQueue (ℕ × Request W)) where
  open d use {Q, to_list}

  register-turn :
      (s : Semaphore Q) (slot : Option (ℕ × Request W)) (n : ℕ) (w : W)
      → ((e : ℕ × Request W) → In e (to_list s.waiters) → slot ≡ none → e.0 ≢ s.next_id)
      → is_turn (first (to_list s.waiters)) (id_of slot) ≡ false
      → let (s1, slot1) = Semaphore.register same d s slot n w in
        is_turn (first (to_list s1.waiters)) (id_of slot1) ≡ false
  unfolding Semaphore.register register_in is_stale token_of next_of
  register-turn s none n w away h =
      ap (λ l. is_turn (first l) (some s.next_id))
        (to_list-enqueue (same_waker same) d s.waiters s.next_id (record { n = n; waker = w }))
      ∙ first-rejoin (to_list s.waiters) s.next_id _
          (first-apart (to_list s.waiters) s.next_id h (λ e k. away e k refl))
  register-turn s (some e) n w away h =
      elim (Bool-cases
        (is_stale (same_waker same) d s.waiters (some e) (record { n = n; waker = w }))) [
          | inl t ↦ rw t (
              ap (λ l. is_turn (first l) (some e.0))
                (to_list-enqueue (same_waker same) d s.waiters e.0 (record { n = n; waker = w }))
              ∙ first-rejoin (to_list s.waiters) e.0 _ h)
          | inr t ↦ rw t h
        ]

  -- A future that could not go on before it registered cannot go on after it.
  recheck :
      (s : Semaphore Q) (slot : Option (ℕ × Request W)) (n : ℕ) (w : W)
      → ((e : ℕ × Request W) → In e (to_list s.waiters) → slot ≡ none → e.0 ≢ s.next_id)
      → Semaphore.can_acquire_fair same d s n (id_of slot) ≡ false
      → let (s1, slot1) = Semaphore.register same d s slot n w in
        Semaphore.can_acquire_fair same d s1 n (id_of slot1) ≡ false
  unfolding Semaphore.can_acquire_fair Semaphore.register
  recheck s slot n w away h = elim (Bool-cases (ltb s.permits n)) [
    | inl e ↦ rw e refl
    | inr e ↦ rw e (register-turn s slot n w away (rw e at h))
  ]

  pub poll_ready :
      (s : Semaphore Q) (slot : Option (ℕ × Request W)) (n : ℕ) (w : W)
      → Semaphore.can_acquire_fair same d s n (id_of slot) ≡ true
      → Semaphore.poll same d s slot n w ≡ Semaphore.grant same d s slot n
  unfolding Semaphore.poll
  poll_ready s slot n w h = rw h refl

  pub poll_pending :
      (s : Semaphore Q) (slot : Option (ℕ × Request W)) (n : ℕ) (w : W)
      → ((e : ℕ × Request W) → In e (to_list s.waiters) → slot ≡ none → e.0 ≢ s.next_id)
      → Semaphore.can_acquire_fair same d s n (id_of slot) ≡ false
      → Semaphore.poll same d s slot n w
        ≡ (let (s1, slot1) = Semaphore.register same d s slot n w in (false, s1, slot1, none))
  unfolding Semaphore.poll
  poll_pending s slot n w away h = rw (h, recheck s slot n w away h) refl

  -- If the waiter at the front of the list can be satisfied, it has been woken.
  abbrev pub Served : List (ℕ × Request W) → ℕ → List (ℕ × Request W) → Type 0
  Served l permits woken =
      (e : ℕ × Request W) (rest : List (ℕ × Request W))
      → l ≡ e ∷ rest
      → e.1.n ≤ permits
      → In e woken

  pub wake_next-Served :
      (s : Semaphore Q) (woken : List (ℕ × Request W))
      → Served (to_list s.waiters) s.permits (with_wake (Semaphore.wake_next same d s) woken)
  unfolding Semaphore.wake_next
  wake_next-Served s woken e rest at le =
      let enough : ltb s.permits e.1.n ≡ false = ground arith in
      rw (at, Semaphore.wake_next, enough) (In-append_end e woken)
