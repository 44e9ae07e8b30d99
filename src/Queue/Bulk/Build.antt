-- ===== src/Queue/Bulk/Build.antt =====
-- Queues built element by element, emptied into a vector, copied, compared and filtered.
use cynosure.Prelude.{
  ℕ, ◌≡◌, refl, sym, ap, ◌∙◌, subst, inl, inr, Bool, Option, List, [], ◌∷◌, ◌++◌, map, append-nil,
  append_assoc, arith, length, filter, reject, Bool-cases, done, Returns,
}
use cynosure.Queue.{Queue, inline, heap, new, into_vec, iter, len, walk_slots}
use cynosure.Queue.Holds.{Holds, Repr}
use cynosure.Queue.Drain.{walk_slots_lem}
use cynosure.Queue.Moves.{new-Repr, drain_Holds}
use cynosure.Queue.Ends.{push_back_lem}
use cynosure.Queue.Bulk.{
  extend, from_vec, clone_into, clone, retain_loop, retain, take_loop, take_where,
}

module _ {ℓ} {A : Type ℓ} (n : ℕ) where
  pub empty_Holds : (t : List (Option A)) → length t ≡ n → Holds n t 0 0 0 []
  empty_Holds t e = record {
    size = e;
    count = refl;
    fits = omega arith;
    head_in = omega arith;
    tail_at = ground arith;
    live = λ i h. elim h [ ];
  }

  pub into_vec_lem :
      (q : Queue A) (xs : List A)
      → Repr n q xs
      → Returns (into_vec n q) (λ r. (r.0 ≡ xs) × Repr n r.1 [])
  unfolding into_vec
  into_vec_lem (heap vec) xs e = ((vec, heap []), refl, (e, refl))
  into_vec_lem (inline buf head tail k) xs h =
      let (t, d, e) = drain_Holds n buf head tail k xs [] h in
      rw d ((xs, inline t 0 0 0), refl, (refl, empty_Holds t e))

  pub iter_lem : (q : Queue A) (xs : List A) → Repr n q xs → iter n q ≡ done xs
  unfolding iter
  iter_lem (heap vec) xs e = ap done e
  iter_lem (inline buf head tail k) xs h =
      ap (λ j. walk_slots n buf head j []) h.count
      ∙ walk_slots_lem n buf head xs [] h.head_in (omega (arith, h.count, h.fits)) h.live

  pub len_lem : (q : Queue A) (xs : List A) → Repr n q xs → len q ≡ length xs
  unfolding len
  len_lem (heap vec) xs e = ap length e
  len_lem (inline buf head tail k) xs h = h.count

  pub extend_lem :
      (q : Queue A) (xs ys : List A)
      → Repr n q xs
      → Returns (extend n q ys) (λ q'. Repr n q' (xs ++ ys))
  unfolding extend
  extend_lem q xs [] h = (q, refl, subst (Repr n q) (sym (append-nil xs)) h)
  extend_lem q xs (y ∷ ys) h =
      let (q', e, r) = push_back_lem n q xs y h in
      let (q'', f, s) = extend_lem q' (xs ++ y ∷ []) ys r in
      rw e (q'', f, subst (Repr n q'') (append_assoc xs (y ∷ []) ys) s)

  -- A queue built from a vector holds its elements in order.
  pub from_vec_lem : (ys : List A) → Returns (from_vec n ys) (λ q. Repr n q ys)
  unfolding from_vec
  from_vec_lem ys = extend_lem (new n) [] ys (new-Repr A n)

  clone_into_lem :
      (copy : A → A) (q : Queue A) (xs ys : List A)
      → Repr n q xs
      → Returns (clone_into n copy q ys) (λ q'. Repr n q' (xs ++ map copy ys))
  unfolding clone_into
  clone_into_lem copy q xs [] h = (q, refl, subst (Repr n q) (sym (append-nil xs)) h)
  clone_into_lem copy q xs (y ∷ ys) h =
      let (q', e, r) = push_back_lem n q xs (copy y) h in
      let (q'', f, s) = clone_into_lem copy q' (xs ++ copy y ∷ []) ys r in
      rw e (q'', f, subst (Repr n q'') (append_assoc xs (copy y ∷ []) (map copy ys)) s)

  -- The clone of a queue that stands for a list returns a queue that stands for the list of the copies.
  pub clone_lem :
      (copy : A → A) (q : Queue A) (xs : List A)
      → Repr n q xs
      → Returns (clone n copy q) (λ q'. Repr n q' (map copy xs))
  unfolding clone
  clone_lem copy q xs h = rw (iter_lem q xs h) (clone_into_lem copy (new n) [] xs (new-Repr A n))

  retain_loop_lem :
      (keep : A → Bool) (q : Queue A) (xs ys : List A)
      → Repr n q xs
      → Returns (retain_loop n keep q ys) (λ q'. Repr n q' (xs ++ filter keep ys))
  unfolding retain_loop
  retain_loop_lem keep q xs [] h = (q, refl, subst (Repr n q) (sym (append-nil xs)) h)
  retain_loop_lem keep q xs (y ∷ ys) h = elim (Bool-cases (keep y)) [
    | inl t ↦
        let (q', e, r) = push_back_lem n q xs y h in
        let (q'', f, s) = retain_loop_lem keep q' (xs ++ y ∷ []) ys r in
        rw (t, e) (q'', f, subst (Repr n q'') (append_assoc xs (y ∷ []) (filter keep ys)) s)
    | inr t ↦ rw t (retain_loop_lem keep q xs ys h)
  ]

  pub retain_lem :
      (keep : A → Bool) (q : Queue A) (xs : List A)
      → Repr n q xs
      → Returns (retain n keep q) (λ q'. Repr n q' (filter keep xs))
  unfolding retain
  retain_lem keep q xs h =
      let ((items, q'), e, (p, r)) = into_vec_lem q xs h in
      rw (e, p) (retain_loop_lem keep q' [] xs r)

  take_loop_lem :
      (remove : A → Bool) (q : Queue A) (xs out ys : List A)
      → Repr n q xs
      → Returns
          (take_loop n remove q out ys)
          (λ r. (r.0 ≡ out ++ filter remove ys) × Repr n r.1 (xs ++ reject remove ys))
  unfolding take_loop
  take_loop_lem remove q xs out [] h =
      ((out, q), refl, (sym (append-nil out), subst (Repr n q) (sym (append-nil xs)) h))
  take_loop_lem remove q xs out (y ∷ ys) h = elim (Bool-cases (remove y)) [
    | inl t ↦
        let (r, f, (p, s)) = take_loop_lem remove q xs (out ++ y ∷ []) ys h in
        rw t (r, f, (p ∙ append_assoc out (y ∷ []) (filter remove ys), s))
    | inr t ↦
        let (q', e, k) = push_back_lem n q xs y h in
        let (r, f, (p, s)) = take_loop_lem remove q' (xs ++ y ∷ []) out ys k in
        rw (t, e) (r, f, (p, subst (Repr n r.1) (append_assoc xs (y ∷ []) (reject remove ys)) s))
  ]

  pub take_where_lem :
      (remove : A → Bool) (q : Queue A) (xs : List A)
      → Repr n q xs
      → Returns
          (take_where n remove q)
          (λ r. (r.0 ≡ filter remove xs) × Repr n r.1 (reject remove xs))
  unfolding take_where
  take_where_lem remove q xs h =
      let ((all, q'), e, (p, r)) = into_vec_lem q xs h in
      rw (e, p) (take_loop_lem remove q' [] [] xs r)
