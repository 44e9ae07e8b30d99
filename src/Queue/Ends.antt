-- ===== src/Queue/Ends.antt =====
-- The operations at the two ends of `Queue` (push_back, push_front, pop_front, pop_back) refine those of
-- a list: they neither panic nor fault, and keep the representation.
use cynosure.Prelude.{
  ℕ, suc, ◌<◌, ◌≡◌, refl, sym, ap, ◌∙◌, subst, inl, inr, Option, none, some, List, [], ◌∷◌, ◌++◌,
  arith, length, get_elem?, get_elem?-append_end, length-append, unsnoc, ltb→lt, ltb, ne→==-false,
  Bool-cases, Returns,
}
use cynosure.Queue.{
  Queue, inline, heap, step_down, push_back, push_front, pop_front, pop_back, split_last,
}
use cynosure.Queue.Slots.{step_down-le}
use cynosure.Queue.Holds.{Holds, Repr, write_slot_lem, read_slot_lem}
use cynosure.Queue.Drain.{get_elem?-head}
use cynosure.Queue.Moves.{
  drain_Holds, push_back_Holds, push_front_Holds, pop_front_Holds, pop_back_Holds,
}

module _ {ℓ} {A : Type ℓ} (n : ℕ) where
  pub tail_in :
      (buf : List (Option A)) (head tail k : ℕ) (xs : List A)
      → k < n
      → Holds n buf head tail k xs
      → tail < length buf
  tail_in buf head tail k xs room h = ground (arith, h.tail_at, h.head_in, h.size)

  push_back-inline :
      (buf : List (Option A)) (head tail k : ℕ) (xs : List A) (v : A)
      → Holds n buf head tail k xs
      → Returns (push_back n (inline buf head tail k) v) (λ q. Repr n q (xs ++ v ∷ []))
  unfolding push_back
  push_back-inline buf head tail k xs v h = elim (Bool-cases (ltb k n)) [
    | inl e ↦
        let room : k < n = ltb→lt k n e in
        rw (e, write_slot_lem buf tail v (tail_in buf head tail k xs room h))
          (_, refl, push_back_Holds n buf head tail k xs v room h)
    | inr e ↦
        let (t, d, _) = drain_Holds n buf head tail k xs [] h in
        rw (e, d) (heap (xs ++ v ∷ []), refl, refl)
  ]

  pub push_back_lem :
      (q : Queue A) (xs : List A) (v : A)
      → Repr n q xs
      → Returns (push_back n q v) (λ q'. Repr n q' (xs ++ v ∷ []))
  unfolding push_back
  push_back_lem (heap vec) xs v e = (heap (vec ++ v ∷ []), refl, ap (λ l. l ++ v ∷ []) e)
  push_back_lem (inline buf head tail k) xs v h = push_back-inline buf head tail k xs v h

  push_front-inline :
      (buf : List (Option A)) (head tail k : ℕ) (xs : List A) (v : A)
      → Holds n buf head tail k xs
      → Returns (push_front n (inline buf head tail k) v) (λ q. Repr n q (v ∷ xs))
  unfolding push_front
  push_front-inline buf head tail k xs v h = elim (Bool-cases (ltb k n)) [
    | inl e ↦
        let room : k < n = ltb→lt k n e in
        rw
          (
            e,
            write_slot_lem buf (step_down n head) v
                (omega (arith, step_down-le n head h.head_in, h.size)),
          )
          (_, refl, push_front_Holds n buf head tail k xs v room h)
    | inr e ↦
        let (t, d, _) = drain_Holds n buf head tail k xs (v ∷ []) h in
        rw (e, d) (heap (v ∷ xs), refl, refl)
  ]

  pub push_front_lem :
      (q : Queue A) (xs : List A) (v : A)
      → Repr n q xs
      → Returns (push_front n q v) (λ q'. Repr n q' (v ∷ xs))
  unfolding push_front
  push_front_lem (heap vec) xs v e = (heap (v ∷ vec), refl, ap (◌∷◌ v) e)
  push_front_lem (inline buf head tail k) xs v h = push_front-inline buf head tail k xs v h

  -- The list's own removal from the front.
  abbrev pub Popped : Option A × Queue A → List A → Type ℓ
  Popped (none, q) xs = (xs ≡ []) × Repr n q []
  Popped (some x, q) xs = (ys : List A) × (xs ≡ x ∷ ys) × Repr n q ys

  pop_front-inline :
      (buf : List (Option A)) (head tail k : ℕ) (xs : List A)
      → Holds n buf head tail k xs
      → Returns (pop_front n (inline buf head tail k)) (λ r. Popped r xs)
  unfolding pop_front
  pop_front-inline buf head tail k [] h =
      rw h.count (_, refl, (refl, subst (λ j. Holds n buf head tail j []) h.count h))
  pop_front-inline buf head tail k (x ∷ xs) h =
      rw
        (
          ne→==-false k 0 (omega (arith, h.count)),
          read_slot_lem buf head x
              (get_elem?-head n buf head x xs h.head_in (omega (arith, h.count, h.fits)) h.live),
        )
        (_, refl, (xs, refl, pop_front_Holds n buf head tail k x xs h))

  pub pop_front_lem :
      (q : Queue A) (xs : List A) → Repr n q xs → Returns (pop_front n q) (λ r. Popped r xs)
  unfolding pop_front
  pop_front_lem (heap []) xs e = ((none, heap []), refl, (sym e, refl))
  pop_front_lem (heap (x ∷ vec)) xs e = ((some x, heap vec), refl, (vec, sym e, refl))
  pop_front_lem (inline buf head tail k) xs h = pop_front-inline buf head tail k xs h

  split_last_lem :
      (x : A) (vec : List A) → x ∷ vec ≡ (split_last x vec).1 ++ (split_last x vec).0 ∷ []
  unfolding split_last
  split_last_lem x [] = refl
  split_last_lem x (y ∷ vec) = ap (◌∷◌ x) (split_last_lem y vec)

  -- The list's own removal from the back.
  abbrev pub PoppedBack : Option A × Queue A → List A → Type ℓ
  PoppedBack (none, q) xs = (xs ≡ []) × Repr n q []
  PoppedBack (some x, q) xs = (ys : List A) × (xs ≡ ys ++ x ∷ []) × Repr n q ys

  pop_back-inline :
      (buf : List (Option A)) (head tail k : ℕ) (xs : List A) (x : A)
      → Holds n buf head tail k (xs ++ x ∷ [])
      → Returns (pop_back n (inline buf head tail k)) (λ r. PoppedBack r (xs ++ x ∷ []))
  unfolding pop_back
  pop_back-inline buf head tail k xs x h =
      rw (ne→==-false k 0 (omega (arith, count)), read_slot_lem buf (step_down n tail) x stands)
        (_, refl, (xs, refl, pop_back_Holds n buf head tail k xs x h))
    where
      count : k ≡ suc (length xs)
      count = omega (arith, h.count, length-append xs (x ∷ []))

      stands : get_elem? buf (step_down n tail) ≡ some (some x)
      stands =
          ap (get_elem? buf) (ground (arith, count, h.tail_at, h.head_in, h.fits))
          ∙ h.live (length xs) (omega (arith, length-append xs (x ∷ [])))
          ∙ ap some (get_elem?-append_end xs x (length xs) refl)

  pop_back-inline_empty :
      (buf : List (Option A)) (head tail k : ℕ)
      → Holds n buf head tail k []
      → Returns (pop_back n (inline buf head tail k)) (λ r. PoppedBack r [])
  unfolding pop_back
  pop_back-inline_empty buf head tail k h =
      rw h.count (_, refl, (refl, subst (λ j. Holds n buf head tail j []) h.count h))

  pub pop_back_lem :
      (q : Queue A) (xs : List A) → Repr n q xs → Returns (pop_back n q) (λ r. PoppedBack r xs)
  unfolding pop_back
  pop_back_lem (heap []) xs e = ((none, heap []), refl, (sym e, refl))
  pop_back_lem (heap (x ∷ vec)) xs e =
      (_, refl, ((split_last x vec).1, sym e ∙ split_last_lem x vec, refl))
  pop_back_lem (inline buf head tail k) [] h = pop_back-inline_empty buf head tail k h
  pop_back_lem (inline buf head tail k) (x ∷ xs) h =
      let (ys, y, e) = unsnoc x xs in
      rw e (pop_back-inline buf head tail k ys y (subst (Holds n buf head tail k) e h))
