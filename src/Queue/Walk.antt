-- ===== src/Queue/Walk.antt =====
-- src/site_c/queue.rs: the mutable iterator, and the destructor.
use cynosure.Prelude.{
  ℕ, zero, suc, ◌-◌, ◌≤◌, ◌<◌, ◌≡◌, refl, sym, ap, ◌∙◌, subst, Option, some, List, [], ◌∷◌, ◌++◌,
  map, append_assoc, arith, length, get_elem?, set, length-set, length-append, Exec, done, ◌>>=◌,
  Returns,
}
use cynosure.Queue.{Queue, inline, heap, step_up, peek_slot, drain_slots}
use cynosure.Queue.Slots.{slot, slot-zero, step_up-slot}
use cynosure.Queue.Holds.{Live, Repr, peek_slot_lem}
use cynosure.Queue.Moves.{drain_Holds}
use cynosure.Queue.Bulk.Swap.{Live-write}

module _ {ℓ} {A : Type ℓ} where
  -- `IterMut::next`, as often as there are elements, where the caller replaces each one by `f`.
  pub update_slots : ℕ → (A → A) → List (Option A) → ℕ → ℕ → Exec (List (Option A))
  update_slots n f buf head zero = done buf
  update_slots n f buf head (suc remaining) = do
    x ← peek_slot buf head
    update_slots n f (set buf head (some (f x))) (step_up n head) remaining

  -- A loop over `iter_mut`.
  pub iter_mut : ℕ → (A → A) → Queue A → Exec (Queue A)
  iter_mut n f (inline buf head tail len) = do
    buf' ← update_slots n f buf head len
    done (inline buf' head tail len)
  iter_mut n f (heap vec) = done (heap (map f vec))

  -- `Drop`: the elements that are dropped, in order; the storage is gone.
  pub drop_elements : ℕ → Queue A → Exec (List A)
  drop_elements n (inline buf head tail len) = do
    (dropped, _) ← drain_slots n buf head len []
    done dropped
  drop_elements n (heap vec) = done vec

  get_elem?-middle :
      (pre : List A) (x : A) (xs : List A) → get_elem? (pre ++ x ∷ xs) (length pre) ≡ some x
  get_elem?-middle [] x xs = refl
  get_elem?-middle (y ∷ pre) x xs = get_elem?-middle pre x xs

  set-middle :
      (pre : List A) (x y : A) (xs : List A) → set (pre ++ x ∷ xs) (length pre) y ≡ pre ++ y ∷ xs
  set-middle [] x y xs = refl
  set-middle (z ∷ pre) x y xs = ap (λ l. z ∷ l) (set-middle pre x y xs)

  length-middle : (pre : List A) (x : A) (xs : List A) → length pre < length (pre ++ x ∷ xs)
  length-middle [] x xs = omega arith
  length-middle (z ∷ pre) x xs = omega (arith, length-middle pre x xs)

  -- The loop replaces the elements behind `pre`, each in its slot.
  update_slots_lem :
      (n : ℕ) (f : A → A) (buf : List (Option A)) (head : ℕ) (pre xs : List A)
      → length buf ≡ n
      → head ≤ n - 1
      → length (pre ++ xs) ≤ n
      → Live n buf head (pre ++ xs)
      → Returns
          (update_slots n f buf (slot n head (length pre)) (length xs))
          (λ buf'. (length buf' ≡ n) × Live n buf' head (pre ++ map f xs))
  unfolding update_slots
  update_slots_lem n f buf head pre [] size hh fits live = (buf, refl, (size, live))
  update_slots_lem n f buf head pre (x ∷ xs) size hh fits live =
      let room : length pre < n = omega (arith, length-middle pre x xs, fits) in
      let here = live (length pre) (length-middle pre x xs) ∙ ap some (get_elem?-middle pre x xs) in
      let next : pre ++ f x ∷ xs ≡ (pre ++ f x ∷ []) ++ xs = sym (append_assoc pre (f x ∷ []) xs) in
      let written =
        subst (Live n (set buf (slot n head (length pre)) (some (f x))) head)
          (set-middle pre x (f x) xs ∙ next)
          (Live-write n buf head (pre ++ x ∷ xs) (length pre) (f x) size hh fits
            (length-middle pre x xs) live) in
      let (b, e, (g, l)) =
        update_slots_lem n f (set buf (slot n head (length pre)) (some (f x))) head
          (pre ++ f x ∷ []) xs (length-set buf _ _ ∙ size) hh
          (omega
            (arith, fits, ap length next, length-append pre (f x ∷ xs), length-append pre (x ∷ xs)))
          written in
      let onward : step_up n (slot n head (length pre)) ≡ slot n head (length (pre ++ f x ∷ [])) =
        step_up-slot n head (length pre) hh room
        ∙ ap (slot n head) (omega (arith, length-append pre (f x ∷ []))) in
      rw (peek_slot_lem buf (slot n head (length pre)) x here, ◌>>=◌, onward)
        (b, e, (g, subst (Live n b head) (append_assoc pre (f x ∷ []) (map f xs)) l))

  length-map : (f : A → A) (xs : List A) → length (map f xs) ≡ length xs
  length-map f [] = refl
  length-map f (x ∷ xs) = ap suc (length-map f xs)

  -- A loop over `iter_mut` of a queue that stands for a list returns, and replaces each element of the
  -- list, in place; the queue stands for the list of the new elements.
  pub iter_mut_lem :
      (n : ℕ) (f : A → A) (q : Queue A) (xs : List A)
      → Repr n q xs
      → Returns (iter_mut n f q) (λ q'. Repr n q' (map f xs))
  unfolding iter_mut update_slots
  iter_mut_lem n f (heap vec) xs e = (_, refl, ap (map f) e)
  iter_mut_lem n f (inline buf head tail k) [] h = rw h.count (
    _,
    refl,
    record {
      size = h.size;
      count = refl;
      fits = omega (arith, h.fits, h.count);
      head_in = h.head_in;
      tail_at = h.tail_at ∙ ap (slot n head) h.count;
      live = λ i j. elim j [ ];
    },
  )
  iter_mut_lem n f (inline buf head tail k) (x ∷ xs) h =
      let (b, e, (g, l)) =
        update_slots_lem n f buf head [] (x ∷ xs) h.size h.head_in (omega (arith, h.count, h.fits))
          h.live in
      let start : slot n head 0 ≡ head =
        slot-zero n head h.head_in (omega (arith, h.count, h.fits)) in
      rw (h.count, subst (λ i. update_slots n f buf i (length (x ∷ xs)) ≡ done b) start e)
        (
          _,
          refl,
          record {
            size = g;
            count = sym (length-map f (x ∷ xs));
            fits = omega (arith, h.count, h.fits);
            head_in = h.head_in;
            tail_at = h.tail_at ∙ ap (slot n head) h.count;
            live = l;
          },
        )

  -- The destructor of a queue that stands for a list drops each element of the list once, in order, and
  -- nothing else.
  pub drop_elements_lem :
      (n : ℕ) (q : Queue A) (xs : List A) → Repr n q xs → drop_elements n q ≡ done xs
  unfolding drop_elements
  drop_elements_lem n (heap vec) xs e = ap done e
  drop_elements_lem n (inline buf head tail k) xs h =
      let (t, d, g) = drain_Holds n buf head tail k xs [] h in rw d refl
