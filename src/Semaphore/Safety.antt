-- ===== src/Semaphore/Safety.antt =====
-- The invariant of a `LocalSemaphore` and its users, and that every event keeps it and does not panic.
use cynosure.Prelude.{
  ℕ, ◌+◌, ◌-◌, ◌≤◌, ◌≡◌, refl, sym, ap, ◌∙◌, inl, inr, Bool, true, false, ◌&&◌, some, List, [], ◌∷◌,
  is_nil, arith, leb, Bool-cases, Returns, leb→le, le→leb,
}
use cynosure.Waiters.{WaitQueue}
use cynosure.Waiters.Registry.Invariant.{Tracks, Tracks-empty, with_wake}
use cynosure.Semaphore
use cynosure.Semaphore.{Semaphore, Request, id_of, same_waker, max_permits}
use cynosure.Semaphore.System
use cynosure.Semaphore.System.{System, Event, added}
use cynosure.Semaphore.Steps.{Served, wake_next-Served}

pub left-true : (a b : Bool) → a && b ≡ true → a ≡ true
left-true a b h = ground arith

pub right-true : (a b : Bool) → a && b ≡ true → b ≡ true
right-true a b h = ground arith

module _ {W : Type 0} (same : W → W → Bool) (d : WaitQueue (ℕ × Request W)) (want : ℕ → ℕ) where
  open d use {Q, to_list, is_empty}

  -- What is true of a semaphore and its users after at most `k` events, with `total` permits given to it.
  -- The front of the queue is not forgotten, if `b` says that the futures kept their wakers.
  pub record Inv (b : Bool) (k total : ℕ) (s : System W Q) : Type 0 where
    pub tracks : Tracks (to_list s.sem.waiters) s.slots [] s.sem.next_id
    pub sized : (i : ℕ) (e : ℕ × Request W) → s.slots i ≡ some e → e.1.n ≡ want i
    pub counts : s.sem.permits + s.held + s.forgotten ≡ total
    pub few_tokens : s.sem.next_id ≤ k
    pub progress : b ≡ true → Served same d (to_list s.sem.waiters) s.sem.permits s.woken

  pub init-Inv : (permits : ℕ) → Inv true 0 permits (System.init same d want permits)
  unfolding System.init Semaphore.new
  init-Inv permits = record {
    tracks = rw d.to_list-new (Tracks-empty 0);
    sized = λ i e h. absurd (cc);
    counts = omega arith;
    few_tokens = omega arith;
    progress = λ _ e rest at. let r : [] ≡ e ∷ rest = sym d.to_list-new ∙ at in absurd (cc);
  }

  -- One event: no panic, and the invariant with one more event and the permits that it adds.
  abbrev pub Kept : Bool → ℕ → ℕ → System W Q → Event W → Type 0
  Kept b k total s e =
      Returns (System.step same d want s e)
        (Inv (b && System.steady same d want s e) (k + 1) (total + added e))

  Served-less :
      (l : List (ℕ × Request W)) (p p' : ℕ) (woken : List (ℕ × Request W))
      → p' ≤ p
      → Served same d l p woken
      → Served same d l p' woken
  Served-less l p p' woken le v e rest at h = v e rest at (omega (arith, le, h))

  -- An event that takes no part in the waiting and takes permits from the semaphore, if any.
  quiet :
      (b c : Bool) (k total : ℕ) (s : System W Q) (p held forgotten : ℕ)
      → p ≤ s.sem.permits
      → p + held + forgotten ≡ total
      → Inv b k total s
      → Inv
          (b && c)
          (k + 1)
          (total + 0)
          (record s { sem = record s.sem { permits = p }; held = held; forgotten = forgotten })
  quiet b c k total s p held forgotten le sum v = record {
    tracks = v.tracks;
    sized = v.sized;
    counts = omega (arith, sum);
    few_tokens = omega (arith, v.few_tokens);
    progress = λ t. Served-less _ _ _ _ le (v.progress (left-true b c t));
  }

  pub try_acquire-Kept :
      (b : Bool) (k total : ℕ) (s : System W Q) (n : ℕ)
      → Inv b k total s
      → Kept b k total s (Event.try_acquire n)
  unfolding System.step System.steady Semaphore.try_acquire_many
  try_acquire-Kept b k total s n v = elim (Bool-cases (leb n s.sem.permits)) [
    | inl e ↦
        let le : n ≤ s.sem.permits = leb→le n _ e in
        rw e (
          _,
          refl,
          quiet b true k total s (s.sem.permits - n) (s.held + n) s.forgotten (omega arith)
              (omega (arith, v.counts, le)) v,
        )
    | inr e ↦
        rw e (
          _,
          refl,
          quiet b true k total s s.sem.permits s.held s.forgotten (omega arith) v.counts v,
        )
  ]

  pub forget-Kept :
      (b : Bool) (k total : ℕ) (s : System W Q) (n : ℕ)
      → Inv b k total s
      → Kept b k total s (Event.forget n)
  unfolding System.step System.steady
  forget-Kept b k total s n v = elim (Bool-cases (leb n s.held)) [
    | inl e ↦
        let le : n ≤ s.held = leb→le n _ e in
        rw e (
          _,
          refl,
          quiet b true k total s s.sem.permits (s.held - n) (s.forgotten + n) (omega arith)
              (omega (arith, v.counts, le)) v,
        )
    | inr e ↦
        rw e (
          _,
          refl,
          quiet b true k total s s.sem.permits s.held s.forgotten (omega arith) v.counts v,
        )
  ]

  -- What a release returns: the permits are back, and the front of the queue is woken if it can go on.
  release-Served :
      (s : Semaphore Q) (n : ℕ) (woken : List (ℕ × Request W))
      → s.permits + n ≤ max_permits
      → Returns (Semaphore.release same d s n) (λ (next, s').
        (s' ≡ record s { permits = s.permits + n })
        × Served same d (to_list s.waiters) (s.permits + n) (with_wake next woken))
  unfolding Semaphore.release Semaphore.bump_permits
  release-Served s n woken room = elim (Bool-cases (is_empty s.waiters)) [
    | inr e ↦
        rw (le→leb _ _ room, e)
          (_, refl, (refl, wake_next-Served same d (record s { permits = s.permits + n }) woken))
    | inl e ↦
        rw (le→leb _ _ room, e)
          (
            _,
            refl,
            (
              refl,
              λ f rest at le.
                  let r : false ≡ true = sym (d.is_empty-is_nil s.waiters ∙ ap is_nil at) ∙ e in
                  absurd (cc),
            ),
          )
  ]

  pub drop_permits-Kept :
      (b : Bool) (k total : ℕ) (s : System W Q) (n : ℕ)
      → total ≤ max_permits
      → Inv b k total s
      → Kept b k total s (Event.drop_permits n)
  unfolding System.step System.steady
  drop_permits-Kept b k total s n room v = elim (Bool-cases (leb n s.held)) [
    | inl e ↦
        let le : n ≤ s.held = leb→le n _ e in
        let ((next, s'), f, (g, served)) =
          release-Served s.sem n s.woken (omega (arith, v.counts, le, room)) in
        rw (e, f, g)
          (
            _,
            refl,
            record {
              tracks = v.tracks;
              sized = v.sized;
              counts = omega (arith, v.counts, le);
              few_tokens = omega (arith, v.few_tokens);
              progress = λ _. served;
            },
          )
    | inr e ↦
        rw e (
          _,
          refl,
          quiet b true k total s s.sem.permits s.held s.forgotten (omega arith) v.counts v,
        )
  ]

  pub add_permits-Kept :
      (b : Bool) (k total : ℕ) (s : System W Q) (n : ℕ)
      → total + n ≤ max_permits
      → Inv b k total s
      → Kept b k total s (Event.add_permits n)
  unfolding System.step System.steady
  add_permits-Kept b k total s n room v =
      let ((next, s'), f, (g, served)) =
        release-Served s.sem n s.woken (omega (arith, v.counts, room)) in
      rw (f, g)
        (
          _,
          refl,
          record {
            tracks = v.tracks;
            sized = v.sized;
            counts = omega (arith, v.counts);
            few_tokens = omega (arith, v.few_tokens);
            progress = λ _. served;
          },
        )
