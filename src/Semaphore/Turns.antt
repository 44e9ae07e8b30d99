-- ===== src/Semaphore/Turns.antt =====
-- Who may go on, and what a poll that has to wait does to the others.
use cynosure.Prelude.{
  ℕ, ◌≤◌, ◌≡◌, ◌≢◌, refl, sym, ap, ◌∙◌, subst, ◌⊎◌, inl, inr, Bool, true, false, Option, none, some,
  List, [], ◌∷◌, ◌++◌, reject, some-injective, arith, ◌==◌, eq→==, ne→==-false, Option-cases,
}
use cynosure.Waiters.{WaitQueue}
use cynosure.Waiters.Entries.{In, has_id, queued}
use cynosure.Waiters.Registry.{register_in, is_stale, token_of, next_of}
use cynosure.Waiters.Registry.Invariant.{Tracks, drop_entry, In-drop_of}
use cynosure.Waiters.Registry.Keep.{to_list-enqueue}
use cynosure.Semaphore
use cynosure.Semaphore.{
  Semaphore, Request, first, is_front, is_turn, id_of, same_waker, max_permits,
}
use cynosure.Semaphore.Steps.{Served}

module _ {P : Type 0} where
  pub drop_entry-nil : (o : Option (ℕ × P)) → ◌≡◌ {A = List (ℕ × P)} (drop_entry o []) []
  drop_entry-nil none = refl
  drop_entry-nil (some e) = refl

  In-queued : (e : ℕ × P) (l : List (ℕ × P)) → In e l → queued e.0 l ≡ true
  In-queued e [] h = elim h [ ]
  In-queued e (x ∷ l) (inl h) =
      let k : x.0 ≡ e.0 = ap (λ (z : ℕ × P). z.0) h in rw (eq→== x.0 e.0 k) refl
  In-queued e (x ∷ l) (inr h) = ground (arith, In-queued e l h)

  cons-injective : (x y : ℕ × P) (l m : List (ℕ × P)) → x ∷ l ≡ y ∷ m → x ≡ y
  cons-injective x y l m h = ap (λ (z : List (ℕ × P)). elim z [ [] ↦ x | e ∷ rest ↦ e ]) h

-- The front of a queue that a new entry joins.
front_of_join :
    {P : Type 0} (l rest : List (ℕ × P)) (id : ℕ) (p : P) (e : ℕ × P)
    → ((f : ℕ × P) → In f l → f.0 ≢ id)
    → reject (has_id id) l ++ (id, p) ∷ [] ≡ e ∷ rest
    → ((l ≡ []) × ((id, p) ≡ e)) ⊎ ((m : List (ℕ × P)) × (l ≡ e ∷ m))
front_of_join [] rest id p e away h = inl (refl, cons-injective (id, p) e [] rest h)
front_of_join (f ∷ l) rest id p e away h =
    let apart : (f.0 == id) ≡ false = ne→==-false f.0 id (away f (inl refl)) in
    let same : f ≡ e = cons-injective f e _ rest (rw apart at h) in inr (l, ap (λ z. z ∷ l) same)

module _ {W : Type 0} (same : W → W → Bool) (d : WaitQueue (ℕ × Request W)) where
  open d use {Q, to_list}

  -- Who may go on: enough permits, and nobody ahead.
  pub can_lem :
      (s : Semaphore Q) (n : ℕ) (id : Option ℕ)
      → Semaphore.can_acquire_fair same d s n id ≡ true
      → (n ≤ s.permits) × (is_turn (first (to_list s.waiters)) id ≡ true)
  unfolding Semaphore.can_acquire_fair
  can_lem s n id h = ground arith

  pub cannot_lem :
      (s : Semaphore Q) (n : ℕ) (id : Option ℕ)
      → Semaphore.can_acquire_fair same d s n id ≡ false
      → n ≤ s.permits
      → is_turn (first (to_list s.waiters)) id ≡ false
  unfolding Semaphore.can_acquire_fair
  cannot_lem s n id h le = ground arith

  not_stale :
      (q : Q) (e : ℕ × Request W) (p : Request W)
      → same e.1.waker p.waker ≡ true
      → queued e.0 (to_list q) ≡ true
      → is_stale (same_waker same) d q (some e) p ≡ false
  unfolding is_stale
  not_stale q e p t k = ground arith

  pending_new :
      (s : Semaphore Q) (slots : ℕ → Option (ℕ × Request W)) (woken : List (ℕ × Request W)) (n : ℕ)
      (w : W)
      → Tracks (to_list s.waiters) slots [] s.next_id
      → Semaphore.can_acquire_fair same d s n none ≡ false
      → Served same d (to_list s.waiters) s.permits woken
      → Served same d (to_list (Semaphore.register same d s none n w).0.waiters) s.permits woken
  unfolding Semaphore.register register_in is_stale token_of next_of
  pending_new s slots woken n w t wait served e rest at le =
      let p : Request W = record { n = n; waker = w } in
      elim (front_of_join (to_list s.waiters) rest s.next_id p e new_id
        (sym (to_list-enqueue (same_waker same) d s.waiters s.next_id p) ∙ at)) [
          | inl (empty, this) ↦
              let need : n ≡ e.1.n = ap (λ (z : ℕ × Request W). z.1.n) this in
              let ahead : is_turn (first (to_list s.waiters)) none ≡ false =
                cannot_lem s n none wait (omega (arith, need)) in
              let clash : true ≡ false = rw empty at ahead in absurd (cc)
          | inr (m, front) ↦ served e m front le
        ]
    where
      new_id : (f : ℕ × Request W) → In f (to_list s.waiters) → f.0 ≢ s.next_id
      new_id f k z = let (j, own) = t.queue_owned f k in omega (arith, t.fresh j f own, z)

  pending_again :
      (s : Semaphore Q) (slots : ℕ → Option (ℕ × Request W)) (woken : List (ℕ × Request W))
      (i n : ℕ) (w : W) (e : ℕ × Request W)
      → slots i ≡ some e
      → e.1.n ≡ n
      → same e.1.waker w ≡ true
      → Tracks (to_list s.waiters) slots [] s.next_id
      → Semaphore.can_acquire_fair same d s n (some e.0) ≡ false
      → Served same d (to_list s.waiters) s.permits woken
      → Served same d
          (to_list (Semaphore.register same d s (some e) n w).0.waiters)
          s.permits
          (drop_entry (some e) woken)
  unfolding Semaphore.register register_in
  pending_again s slots woken i n w e own need equivalent t wait served =
      rw (not_stale s.waiters e (record { n = n; waker = w }) equivalent there) (λ f rest at le.
        In-drop_of (some e) f woken (served f rest at le) (λ g r z.
          not_front f rest at le (z ∙ sym (ap (λ (v : ℕ × Request W). v.0) (some-injective r)))))
    where
      there : queued e.0 (to_list s.waiters) ≡ true
      there = elim (t.placed i e own) [
        | inl k ↦ In-queued e (to_list s.waiters) k
        | inr k ↦ elim k [ ]
      ]

      not_front :
          (f : ℕ × Request W) (rest : List (ℕ × Request W))
          → to_list s.waiters ≡ f ∷ rest
          → f.1.n ≤ s.permits
          → f.0 ≢ e.0
      not_front f rest at le z =
          let (j, owner) = t.queue_owned f (subst (In f) (sym at) (inl refl)) in
          let one : j ≡ i = t.unique j i f e owner own z in
          let entry : some f ≡ some e = sym owner ∙ ap slots one ∙ own in
          let amount : f.1.n ≡ e.1.n = ap (λ (v : ℕ × Request W). v.1.n) (some-injective entry) in
          let ahead : is_turn (first (to_list s.waiters)) (some e.0) ≡ false =
            cannot_lem s n (some e.0) wait (omega (arith, amount, need)) in
          let other : (f.0 == e.0) ≡ false = rw at at ahead in
          let clash : true ≡ false = sym (eq→== f.0 e.0 z) ∙ other in absurd (cc)

  -- A future that has to wait does not keep a front that can be satisfied from being woken, as long as
  -- it keeps its waker.
  pub pending-Served :
      (s : Semaphore Q) (slots : ℕ → Option (ℕ × Request W)) (woken : List (ℕ × Request W))
      (i n : ℕ) (w : W)
      → Tracks (to_list s.waiters) slots [] s.next_id
      → ((e : ℕ × Request W) → slots i ≡ some e → (e.1.n ≡ n) × (same e.1.waker w ≡ true))
      → Semaphore.can_acquire_fair same d s n (id_of (slots i)) ≡ false
      → Served same d (to_list s.waiters) s.permits woken
      → Served same d
          (to_list (Semaphore.register same d s (slots i) n w).0.waiters)
          s.permits
          (drop_entry (slots i) woken)
  pending-Served s slots woken i n w t steady wait served = elim (Option-cases (slots i)) [
    | inl at ↦ rw at (pending_new s slots woken n w t (rw at at wait) served)
    | inr (e, at) ↦ rw at (
        pending_again s slots woken i n w e at (steady e at).0 (steady e at).1 t (rw at at wait)
          served)
  ]
