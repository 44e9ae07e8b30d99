-- ===== src/Semaphore/Promise.antt =====
-- What `LocalSemaphore` promises its users, in every state that calls can lead to.
use cynosure.Prelude.{
  ℕ, ◌+◌, ◌^◌, ◌≤◌, ◌<◌, ◌≡◌, refl, sym, ◌∙◌, subst, inl, inr, Bool, true, ◌&&◌, some, List, [],
  ◌∷◌, arith, length, done, ◌>>=◌, Returns, Returns-at,
}
use cynosure.Waiters.{WaitQueue}
use cynosure.Waiters.Entries.{In, Distinct}
use cynosure.Semaphore.{Request, max_permits}
use cynosure.Semaphore.System
use cynosure.Semaphore.System.{System, Event, added, added_by}
use cynosure.Semaphore.Safety.{
  Inv, Kept, init-Inv, try_acquire-Kept, forget-Kept, drop_permits-Kept, add_permits-Kept,
}
use cynosure.Semaphore.Futures.{poll-Kept, drop_future-Kept}

and_true : (a b : Bool) → a ≡ true → b ≡ true → a && b ≡ true
and_true a b h k = ground arith

module _ {W : Type 0} (same : W → W → Bool) (d : WaitQueue (ℕ × Request W)) (want : ℕ → ℕ) where
  open d use {Q, to_list}

  step-Kept :
      (b : Bool) (k total : ℕ) (s : System W Q) (e : Event W)
      → k + 1 < 2 ^ 64
      → total + added e ≤ max_permits
      → Inv same d want b k total s
      → Kept same d want b k total s e
  step-Kept b k total s (Event.try_acquire n) room most v =
      try_acquire-Kept same d want b k total s n v
  step-Kept b k total s (Event.poll i w) room most v = poll-Kept same d want b k total s i w room v
  step-Kept b k total s (Event.drop_future i) room most v =
      drop_future-Kept same d want b k total s i v
  step-Kept b k total s (Event.drop_permits n) room most v =
      drop_permits-Kept same d want b k total s n (omega (arith, most)) v
  step-Kept b k total s (Event.forget n) room most v = forget-Kept same d want b k total s n v
  step-Kept b k total s (Event.add_permits n) room most v =
      add_permits-Kept same d want b k total s n most v

  -- What is known of a state after a run, from what was known before it.
  Inv-weaken :
      (b c : Bool) (k l total sum : ℕ) (s : System W Q)
      → k ≡ l
      → total ≡ sum
      → (c ≡ true → b ≡ true)
      → Inv same d want b k total s
      → Inv same d want c l sum s
  Inv-weaken b c k l total sum s e f h v = record {
    tracks = v.tracks;
    sized = v.sized;
    counts = v.counts ∙ f;
    few_tokens = omega (arith, v.few_tokens, e);
    progress = λ t. v.progress (h t);
  }

  run-Kept :
      (b : Bool) (k total : ℕ) (s : System W Q) (es : List (Event W))
      → k + length es < 2 ^ 64
      → total + added_by es ≤ max_permits
      → Inv same d want b k total s
      → Returns (System.run same d want s es) (
          Inv same d want
            (b && System.steady_run same d want s es)
            (k + length es)
            (total + added_by es))
  unfolding System.run System.steady_run
  run-Kept b k total s [] room most v =
      (s, refl, Inv-weaken b _ k _ total _ s (omega arith) (omega arith) (λ h. ground arith) v)
  run-Kept b k total s (e ∷ es) room most v =
      let (s', f, u) = step-Kept b k total s e (omega arith) (omega arith) v in
      let (s'', g, t) =
        run-Kept (b && System.steady same d want s e) (k + 1) (total + added e) s' es (omega arith)
          (omega arith) u in
      rw (f, System.steady_run, ◌>>=◌)
        (s'', g, Inv-weaken _ _ _ _ _ _ s'' (omega arith) (omega arith) (λ h. ground (arith, h)) t)

  pub reached-Inv :
      (permits : ℕ) (es : List (Event W))
      → length es < 2 ^ 64
      → permits + added_by es ≤ max_permits
      → Returns (System.run same d want (System.init same d want permits) es) (
          Inv same d want
            (true && System.steady_run same d want (System.init same d want permits) es)
            (0 + length es)
            (permits + added_by es))
  reached-Inv permits es few most =
      run-Kept true 0 permits (System.init same d want permits) es (omega arith) most
        (init-Inv same d want permits)

  -- A run of fewer than 2 ^ 64 calls, in which all the permits that are ever given fit a `usize`, does
  -- not panic. No permit is made or lost in it: the available ones, those held and those forgotten are
  -- together the initial ones and those added.
  pub permits_conserved :
      (permits : ℕ) (es : List (Event W))
      → length es < 2 ^ 64
      → permits + added_by es ≤ max_permits
      → Returns
          (System.run same d want (System.init same d want permits) es)
          (λ s. s.sem.permits + s.held + s.forgotten ≡ permits + added_by es)
  permits_conserved permits es few most =
      let (s, e, v) = reached-Inv permits es few most in (s, e, v.counts)

  -- After a run of fewer than 2 ^ 64 calls in which all the permits that are ever given fit a `usize`: if
  -- every future that was polled again came with a waker equivalent to the one it is registered with,
  -- then the waiter at the front of the queue, once it can be satisfied, has been woken and not been
  -- polled since, and its future is alive.
  pub front_not_forgotten :
      (permits : ℕ) (es : List (Event W)) (s : System W Q) (e : ℕ × Request W)
      (rest : List (ℕ × Request W))
      → length es < 2 ^ 64
      → permits + added_by es ≤ max_permits
      → System.run same d want (System.init same d want permits) es ≡ done s
      → System.steady_run same d want (System.init same d want permits) es ≡ true
      → to_list s.sem.waiters ≡ e ∷ rest
      → e.1.n ≤ s.sem.permits
      → In e s.woken × ((i : ℕ) × (s.slots i ≡ some e))
  front_not_forgotten permits es s e rest few most ran steady front le =
      let v = Returns-at _ s (reached-Inv permits es few most) ran in
      (
        v.progress (and_true true _ refl steady) e rest front le,
        v.tracks.queue_owned e (subst (In e) (sym front) (inl refl)),
      )

  -- After a run of fewer than 2 ^ 64 calls in which all the permits that are ever given fit a `usize`, a
  -- future that waits stands in the queue, with the number of permits that it asked for; the queue has at
  -- most one entry for each future, and none of a future that is gone.
  pub waiters_queued :
      (permits : ℕ) (es : List (Event W)) (s : System W Q)
      → length es < 2 ^ 64
      → permits + added_by es ≤ max_permits
      → System.run same d want (System.init same d want permits) es ≡ done s
      → Distinct (to_list s.sem.waiters)
        × ((e : ℕ × Request W) → In e (to_list s.sem.waiters) → (i : ℕ) × (s.slots i ≡ some e))
        × ((i : ℕ) (e : ℕ × Request W)
            → s.slots i ≡ some e
            → In e (to_list s.sem.waiters) × (e.1.n ≡ want i))
  waiters_queued permits es s few most ran =
      let v = Returns-at _ s (reached-Inv permits es few most) ran in
      (
        v.tracks.distinct,
        v.tracks.queue_owned,
        (λ i e at.
            (elim (v.tracks.placed i e at) [ inl h ↦ h | inr h ↦ elim h [ ] ], v.sized i e at)),
      )
