-- ===== src/Queue/Drain.antt =====
-- The loops over the ring: the one that moves the elements out, and the one of the borrowing iterator.
use cynosure.Prelude.{
  ℕ, ◌-◌, ◌≤◌, ◌<◌, ◌≡◌, refl, sym, ap, ◌∙◌, Option, none, some, List, [], ◌∷◌, ◌++◌, arith, length,
  get_elem?, set, length-set, append-nil, append_assoc, done, ◌>>=◌, Returns,
}
use cynosure.Queue.{step_up, drain_slots, walk_slots}
use cynosure.Queue.Slots.{slot-zero, step_up-le}
use cynosure.Queue.Holds.{Live, read_slot_lem, peek_slot_lem}
use cynosure.Queue.Live.{Live-pop_front, Live-tail}

module _ {ℓ} {A : Type ℓ} where
  -- The first element stands at the head.
  pub get_elem?-head :
      (n : ℕ) (buf : List (Option A)) (head : ℕ) (x : A) (xs : List A)
      → head ≤ n - 1
      → 0 < n
      → Live n buf head (x ∷ xs)
      → get_elem? buf head ≡ some (some x)
  get_elem?-head n buf head x xs hh p live =
      ap (get_elem? buf) (sym (slot-zero n head hh p)) ∙ live 0 (omega arith)

  -- The draining loop returns all the elements in order, behind those that it started with.
  pub drain_slots_lem :
      (n : ℕ) (buf : List (Option A)) (idx : ℕ) (xs out : List A)
      → idx ≤ n - 1
      → length xs ≤ n
      → Live n buf idx xs
      → Returns
          (drain_slots n buf idx (length xs) out)
          (λ r. (r.0 ≡ out ++ xs) × (length r.1 ≡ length buf))
  unfolding drain_slots
  drain_slots_lem n buf idx [] out hh fits live = ((out, buf), refl, (sym (append-nil out), refl))
  drain_slots_lem n buf idx (x ∷ xs) out hh fits live =
      rw (read_slot_lem buf idx x (get_elem?-head n buf idx x xs hh (omega arith) live), ◌>>=◌)
        (let (r, e, (f, g)) =
            drain_slots_lem n (set buf idx none) (step_up n idx) xs (out ++ x ∷ [])
              (step_up-le n idx (omega arith) hh) (omega arith)
              (Live-pop_front n buf idx x xs hh (omega arith) live) in
          (r, e, (f ∙ append_assoc out (x ∷ []) xs, g ∙ length-set buf idx none)))

  -- The iterator yields all the elements in order.
  pub walk_slots_lem :
      (n : ℕ) (buf : List (Option A)) (head : ℕ) (xs out : List A)
      → head ≤ n - 1
      → length xs ≤ n
      → Live n buf head xs
      → walk_slots n buf head (length xs) out ≡ done (out ++ xs)
  unfolding walk_slots
  walk_slots_lem n buf head [] out hh fits live = ap done (sym (append-nil out))
  walk_slots_lem n buf head (x ∷ xs) out hh fits live =
      rw (peek_slot_lem buf head x (get_elem?-head n buf head x xs hh (omega arith) live), ◌>>=◌)
        (walk_slots_lem n buf (step_up n head) xs (out ++ x ∷ [])
            (step_up-le n head (omega arith) hh) (omega arith)
            (Live-tail n buf head x xs hh (omega arith) live)
          ∙ ap done (append_assoc out (x ∷ []) xs))
