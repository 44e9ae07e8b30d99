-- ===== src/Waiters/Registry/Queued.antt =====
-- After registration the future stands in the queue, under the token that its slot keeps.
use cynosure.Prelude.{
  ℕ, ◌≡◌, refl, ap, ◌∙◌, inl, inr, Bool, true, Option, none, some, List, [], ◌∷◌, ◌++◌, reject,
  arith, Bool-cases, eq→==,
}
use cynosure.Waiters.{WaitQueue}
use cynosure.Waiters.Entries.{has_id, queued}
use cynosure.Waiters.Registry.{is_stale, token_of, enqueue, register_in}
use cynosure.Waiters.Registry.Keep.{to_list-enqueue, not_stale-queued}

module _ {P : Type 0} where
  queued-append_end : (id : ℕ) (p : P) (l : List (ℕ × P)) → queued id (l ++ (id, p) ∷ []) ≡ true
  queued-append_end id p [] = rw (eq→== id id refl)
  queued-append_end id p (x ∷ l) = ground (arith, queued-append_end id p l)

module _ {P : Type 0} (same : P → P → Bool) (d : WaitQueue (ℕ × P)) where
  open d use {Q, to_list}

  queued-enqueue : (q : Q) (id : ℕ) (p : P) → queued id (to_list (enqueue same d q id p)) ≡ true
  queued-enqueue q id p =
      ap (queued id) (to_list-enqueue same d q id p)
      ∙ queued-append_end id p (reject (has_id id) (to_list q))

  pub register_in-queued :
      (q : Q) (next : ℕ) (slot : Option (ℕ × P)) (p : P)
      → let r = register_in same d q next slot p in
        (e : ℕ × P) × (r.slot ≡ some e) × (queued e.0 (to_list r.queue) ≡ true)
  unfolding register_in is_stale token_of
  register_in-queued q next none p = ((next, p), refl, queued-enqueue q next p)
  register_in-queued q next (some e) p = elim (Bool-cases (is_stale same d q (some e) p)) [
    | inl s ↦ rw s ((e.0, p), refl, queued-enqueue q e.0 p)
    | inr s ↦ rw s (e, refl, not_stale-queued same d q e p s)
  ]
