-- ===== src/Semaphore/Futures.antt =====
-- A poll or a drop of an acquire future keeps the invariant of `LocalSemaphore`.
use cynosure.Prelude.{
  ℕ, ◌+◌, ◌-◌, ◌^◌, ◌≤◌, ◌<◌, ◌≡◌, ◌≢◌, update-none, update_self, update_ne, refl, sym, ap, ◌∙◌,
  subst, inl, inr, Bool, true, false, Option, none, some, List, [], some-injective, arith, ◌==◌,
  ==→eq, ==-false→ne, update, Bool-cases, Option-cases,
}
use cynosure.Waiters.{WaitQueue}
use cynosure.Waiters.Entries.{In}
use cynosure.Waiters.Registry.{register_in, deregister_in, is_stale}
use cynosure.Waiters.Registry.Invariant.{Tracks, Tracks-leave, drop_entry}
use cynosure.Waiters.Registry.Keep.{register_in-Joined, deregister_in-Tracks}
use cynosure.Semaphore
use cynosure.Semaphore.{Semaphore, Request, id_of, same_waker, max_permits}
use cynosure.Semaphore.System
use cynosure.Semaphore.System.{System, Event, added}
use cynosure.Semaphore.Steps.{wake_next-Served, poll_ready, poll_pending}
use cynosure.Semaphore.Turns.{drop_entry-nil, can_lem, pending-Served}
use cynosure.Semaphore.Safety.{Inv, Kept, left-true, right-true}

module _ {P : Type 0} where
  -- Nobody has been popped: all futures that wait are in the queue.
  leave :
      (q : List (ℕ × P)) (slots : ℕ → Option (ℕ × P)) (next i : ℕ) (o : Option (ℕ × P))
      → slots i ≡ o
      → Tracks q slots [] next
      → Tracks (drop_entry o q) (update slots i none) [] next
  leave q slots next i o at t =
      subst (λ z. Tracks (drop_entry o q) (update slots i none) z next) (drop_entry-nil o)
        (subst (λ z. Tracks (drop_entry z q) (update slots i none) (drop_entry z []) next) at
          (Tracks-leave q slots [] next i t))

module _ {W : Type 0} (want : ℕ → ℕ) where
  sized-none :
      (slots : ℕ → Option (ℕ × Request W)) (i : ℕ)
      → ((j : ℕ) (e : ℕ × Request W) → slots j ≡ some e → e.1.n ≡ want j)
      → (j : ℕ) (e : ℕ × Request W) → update slots i none j ≡ some e
      → e.1.n ≡ want j
  sized-none slots i v j e h = v j e (update-none slots i j e h).1

  sized-update :
      (slots : ℕ → Option (ℕ × Request W)) (i : ℕ) (o : Option (ℕ × Request W))
      → ((j : ℕ) (e : ℕ × Request W) → slots j ≡ some e → e.1.n ≡ want j)
      → ((e : ℕ × Request W) → o ≡ some e → e.1.n ≡ want i)
      → (j : ℕ) (e : ℕ × Request W) → update slots i o j ≡ some e
      → e.1.n ≡ want j
  sized-update slots i o v new j e h = elim (Bool-cases (i == j)) [
    | inl s ↦
        let one : i ≡ j = ==→eq i j s in
        let mine : o ≡ some e = sym (update_self slots i o) ∙ ap (update slots i o) one ∙ h in
        new e mine ∙ ap want one
    | inr s ↦ v j e (sym (update_ne slots i j o (==-false→ne i j s)) ∙ h)
  ]

module _ {W : Type 0} (same : W → W → Bool) (d : WaitQueue (ℕ × Request W)) where
  open d use {Q, to_list}

  register-sized :
      (s : Semaphore Q) (slot : Option (ℕ × Request W)) (n : ℕ) (w : W)
      → ((e : ℕ × Request W) → slot ≡ some e → e.1.n ≡ n)
      → (e : ℕ × Request W) → (Semaphore.register same d s slot n w).1 ≡ some e
      → e.1.n ≡ n
  unfolding Semaphore.register register_in
  register-sized s slot n w old e h =
      elim (Bool-cases
        (is_stale (same_waker same) d s.waiters slot (record { n = n; waker = w }))) [
          | inl t ↦ let k = rw t at h in sym (ap (λ (z : ℕ × Request W). z.1.n) (some-injective k))
          | inr t ↦ old e (rw t at h)
        ]

module _ {W : Type 0} (same : W → W → Bool) (d : WaitQueue (ℕ × Request W)) (want : ℕ → ℕ) where
  open d use {Q, to_list}

  pub drop_future-Kept :
      (b : Bool) (k total : ℕ) (s : System W Q) (i : ℕ)
      → Inv same d want b k total s
      → Kept same d want b k total s (Event.drop_future i)
  unfolding System.step System.steady Semaphore.drop_future Semaphore.deregister
  drop_future-Kept b k total s i v = elim (Option-cases (s.slots i)) [
    | inl at ↦
        rw (at, Semaphore.drop_future)
          (
            _,
            refl,
            record {
              tracks = leave (to_list s.sem.waiters) s.slots s.sem.next_id i none at v.tracks;
              sized = sized-none want s.slots i v.sized;
              counts = omega (arith, v.counts);
              few_tokens = omega (arith, v.few_tokens);
              progress = λ t. v.progress (left-true b true t);
            },
          )
    | inr (e, at) ↦
        let gone =
          deregister_in-Tracks (same_waker same) d s.sem.waiters s.slots [] s.sem.next_id i
            v.tracks in
        rw (at, Semaphore.drop_future)
          (
            _,
            refl,
            record {
              tracks =
                  subst
                    (λ o.
                      Tracks (to_list (deregister_in (same_waker same) d s.sem.waiters o))
                        (update s.slots i none) [] s.sem.next_id)
                    at
                    (subst
                      (λ z.
                        Tracks
                          (to_list (deregister_in (same_waker same) d s.sem.waiters (s.slots i)))
                          (update s.slots i none) z s.sem.next_id)
                      (drop_entry-nil (s.slots i)) gone);
              sized = sized-none want s.slots i v.sized;
              counts = omega (arith, v.counts);
              few_tokens = omega (arith, v.few_tokens);
              progress = λ _.
                  wake_next-Served same d (Semaphore.deregister same d s.sem (some e))
                    (drop_entry (some e) s.woken);
            },
          )
  ]

  poll_ready-Kept :
      (b : Bool) (k total : ℕ) (s : System W Q) (i : ℕ) (w : W)
      → Semaphore.can_acquire_fair same d s.sem (want i) (id_of (s.slots i)) ≡ true
      → Inv same d want b k total s
      → Kept same d want b k total s (Event.poll i w)
  unfolding System.step Semaphore.grant Semaphore.deregister
  poll_ready-Kept b k total s i w can v =
      let le : want i ≤ s.sem.permits = (can_lem same d s.sem (want i) (id_of (s.slots i)) can).0 in
      rw (poll_ready same d s.sem (s.slots i) (want i) w can) (
        _,
        refl,
        record {
          tracks =
              subst
                (λ z.
                  Tracks (to_list (deregister_in (same_waker same) d s.sem.waiters (s.slots i)))
                    (update s.slots i none) z s.sem.next_id)
                (drop_entry-nil (s.slots i))
                (deregister_in-Tracks (same_waker same) d s.sem.waiters s.slots [] s.sem.next_id i
                  v.tracks);
          sized = sized-none want s.slots i v.sized;
          counts = omega (arith, v.counts, le);
          few_tokens = omega (arith, v.few_tokens);
          progress = λ _.
              wake_next-Served same d
                (Semaphore.deregister same d (record s.sem { permits = s.sem.permits - want i })
                  (s.slots i))
                (drop_entry (s.slots i) s.woken);
        },
      )

  kept_waker :
      (s : System W Q) (i : ℕ) (w : W) (e : ℕ × Request W)
      → System.steady same d want s (Event.poll i w) ≡ true
      → s.slots i ≡ some e
      → same e.1.waker w ≡ true
  unfolding System.steady
  kept_waker s i w e h at = rw (at, System.steady) at h

  poll_pending-Kept :
      (b : Bool) (k total : ℕ) (s : System W Q) (i : ℕ) (w : W)
      → k + 1 < 2 ^ 64
      → Semaphore.can_acquire_fair same d s.sem (want i) (id_of (s.slots i)) ≡ false
      → Inv same d want b k total s
      → Kept same d want b k total s (Event.poll i w)
  unfolding System.step Semaphore.register
  poll_pending-Kept b k total s i w room wait v =
      rw (poll_pending same d s.sem (s.slots i) (want i) w away wait) (
        _,
        refl,
        record {
          tracks =
              subst
                (λ z.
                  Tracks
                    (to_list (Semaphore.register same d s.sem (s.slots i) (want i) w).0.waiters)
                    (update s.slots i (Semaphore.register same d s.sem (s.slots i) (want i) w).1) z
                    (Semaphore.register same d s.sem (s.slots i) (want i) w).0.next_id)
                (drop_entry-nil (s.slots i)) joined.0;
          sized =
              sized-update want s.slots i _ v.sized
                (register-sized same d s.sem (s.slots i) (want i) w (v.sized i));
          counts = omega (arith, v.counts);
          few_tokens = omega (arith, v.few_tokens, joined.2);
          progress = λ t.
              pending-Served same d s.sem s.slots s.woken i (want i) w v.tracks
                (λ e at. (v.sized i e at, kept_waker s i w e (right-true b _ t) at)) wait
                (v.progress (left-true b _ t));
        },
      )
    where
      away :
          (e : ℕ × Request W)
          → In e (to_list s.sem.waiters)
          → s.slots i ≡ none
          → e.0 ≢ s.sem.next_id
      away e h _ z =
          let (j, own) = v.tracks.queue_owned e h in omega (arith, v.tracks.fresh j e own, z)

      joined :
          let r =
            register_in
              (same_waker same)
              d
              s.sem.waiters
              s.sem.next_id
              (s.slots i)
              (record { n = want i; waker = w }) in
          Tracks (to_list r.queue) (update s.slots i r.slot) (drop_entry (s.slots i) []) r.next_id
          × (s.sem.next_id ≤ r.next_id)
          × (r.next_id ≤ s.sem.next_id + 1)
      joined =
          register_in-Joined (same_waker same) d s.sem.waiters s.slots [] s.sem.next_id i
            (record { n = want i; waker = w }) (omega (arith, v.few_tokens, room)) v.tracks

  pub poll-Kept :
      (b : Bool) (k total : ℕ) (s : System W Q) (i : ℕ) (w : W)
      → k + 1 < 2 ^ 64
      → Inv same d want b k total s
      → Kept same d want b k total s (Event.poll i w)
  poll-Kept b k total s i w room v =
      elim (Bool-cases (Semaphore.can_acquire_fair same d s.sem (want i) (id_of (s.slots i)))) [
        | inl can ↦ poll_ready-Kept b k total s i w can v
        | inr wait ↦ poll_pending-Kept b k total s i w room wait v
      ]
