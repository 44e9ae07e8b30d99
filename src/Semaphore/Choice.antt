-- ===== src/Semaphore/Choice.antt =====
-- Whom `LocalSemaphore` lets in, and what becomes of a waiter that is polled again.
use cynosure.Prelude.{
  ℕ, ◌-◌, ◌≤◌, ◌<◌, ◌≡◌, ◌≢◌, refl, ◌⊎◌, inl, inr, Bool, true, false, Option, none, some, [], ◌∷◌,
  ◌++◌, reject, ltb, lt→ltb, ltb→lt, Bool-cases,
}
use cynosure.Waiters.{WaitQueue}
use cynosure.Waiters.Entries.{In, has_id, queued}
use cynosure.Waiters.Registry.{register_in, is_stale, token_of}
use cynosure.Waiters.Registry.Invariant.{drop_entry}
use cynosure.Waiters.Registry.Keep.{to_list-enqueue, to_list-deregister_in}
use cynosure.Waiters.Registry.Queued.{register_in-queued}
use cynosure.Semaphore
use cynosure.Semaphore.{Semaphore, Request, first, is_turn, id_of, same_waker}
use cynosure.Semaphore.Steps.{poll_ready, poll_pending}
use cynosure.Semaphore.Turns.{can_lem}

module _ {W : Type 0} (same : W → W → Bool) (d : WaitQueue (ℕ × Request W)) where
  open d use {Q, to_list}

  cannot_cases :
      (s : Semaphore Q) (n : ℕ) (id : Option ℕ)
      → Semaphore.can_acquire_fair same d s n id ≡ false
      → (s.permits < n) ⊎ (is_turn (first (to_list s.waiters)) id ≡ false)
  unfolding Semaphore.can_acquire_fair
  cannot_cases s n id h = elim (Bool-cases (ltb s.permits n)) [
    | inl e ↦ inl (ltb→lt s.permits n e)
    | inr e ↦ inr (rw e at h)
  ]

  -- Where no queued entry has the next token, a poll of a future that asks for `n` permits gets them
  -- exactly if they are there and nobody is queued ahead of it: then the semaphore has `n` fewer, and the
  -- future has left the queue. Otherwise the permits stay and the future stands in the queue.
  pub acquire_lem :
      (s : Semaphore Q) (slot : Option (ℕ × Request W)) (n : ℕ) (w : W)
      → ((e : ℕ × Request W) → In e (to_list s.waiters) → slot ≡ none → e.0 ≢ s.next_id)
      → let (ready, s', slot', woken) = Semaphore.poll same d s slot n w in
        ((ready ≡ true)
          × (n ≤ s.permits)
          × (is_turn (first (to_list s.waiters)) (id_of slot) ≡ true)
          × (s'.permits ≡ s.permits - n)
          × (slot' ≡ none)
          × (to_list s'.waiters ≡ drop_entry slot (to_list s.waiters)))
        ⊎ ((ready ≡ false)
            × ((s.permits < n) ⊎ (is_turn (first (to_list s.waiters)) (id_of slot) ≡ false))
            × (s'.permits ≡ s.permits)
            × ((e : ℕ × Request W) × (slot' ≡ some e) × (queued e.0 (to_list s'.waiters) ≡ true)))
  unfolding Semaphore.grant Semaphore.deregister Semaphore.register
  acquire_lem s slot n w away =
      elim (Bool-cases (Semaphore.can_acquire_fair same d s n (id_of slot))) [
        | inl can ↦
            let (le, turn) = can_lem same d s n (id_of slot) can in
            rw (poll_ready same d s slot n w can) (
              inl (
                refl,
                le,
                turn,
                refl,
                refl,
                to_list-deregister_in (same_waker same) d s.waiters slot,
              ))
        | inr wait ↦ rw (poll_pending same d s slot n w away wait) (
            inr (
              refl,
              cannot_cases s n (id_of slot) wait,
              refl,
              register_in-queued (same_waker same) d s.waiters s.next_id slot
                  (record { n = n; waker = w }),
            ))
      ]

  short_of_permits :
      (s : Semaphore Q) (n : ℕ) (id : Option ℕ)
      → s.permits < n
      → Semaphore.can_acquire_fair same d s n id ≡ false
  unfolding Semaphore.can_acquire_fair
  short_of_permits s n id few = rw (lt→ltb s.permits n few) refl

  renewed :
      (s : Semaphore Q) (e : ℕ × Request W) (n : ℕ) (w : W)
      → same e.1.waker w ≡ false
      → to_list (Semaphore.register same d s (some e) n w).0.waiters
        ≡ reject (has_id e.0) (to_list s.waiters) ++ (e.0, record { n = n; waker = w }) ∷ []
  unfolding Semaphore.register register_in is_stale token_of
  renewed s e n w other =
      rw other (to_list-enqueue (same_waker same) d s.waiters e.0 (record { n = n; waker = w }))

  -- A waiting future that is polled with a waker other than the one it is registered with, while fewer
  -- permits are available than it asks for, goes to the end of the queue, also from its front; the
  -- permits stay as they are, and nobody is woken, whether or not the new front can be satisfied.
  pub poll-requeues :
      (s : Semaphore Q) (e : ℕ × Request W) (n : ℕ) (w : W)
      → same e.1.waker w ≡ false
      → s.permits < n
      → let (ready, s', slot', woken) = Semaphore.poll same d s (some e) n w in
        (ready ≡ false)
        × (s'.permits ≡ s.permits)
        × (woken ≡ none)
        × (to_list s'.waiters
            ≡ reject (has_id e.0) (to_list s.waiters) ++ (e.0, record { n = n; waker = w }) ∷ [])
  unfolding Semaphore.register
  poll-requeues s e n w other few =
      rw
        (poll_pending same d s (some e) n w (λ f h z. absurd (cc))
          (short_of_permits s n (some e.0) few))
        (refl, refl, refl, renewed s e n w other)
