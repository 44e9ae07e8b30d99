-- ===== src/Queue/Bulk/Sweep.antt =====
-- `make_contiguous` and `clear`: the queue is moved, and holds the same elements, or none.
use cynosure.Prelude.{
  ℕ, zero, suc, ◌+◌, ◌-◌, ◌≤◌, ◌<◌, ◌≡◌, refl, sym, ap, ◌∙◌, subst, inl, inr, Option, none, some,
  List, [], ◌∷◌, ◌++◌, append-nil, append_assoc, arith, length, get_elem?, set, length-set,
  get_elem?-set_self, get_elem?-set_ne, Bool-cases, ne→==-false, and-false, ltb, ◌==◌, done, ◌>>=◌,
  Returns,
}
use cynosure.Queue.{Queue, inline, heap, step_up}
use cynosure.Queue.Slots.{step_up-le}
use cynosure.Queue.Holds.{Live, Holds, Repr, write_slot_lem, read_slot_lem, peek_slot_lem}
use cynosure.Queue.Live.{Live-pop_front}
use cynosure.Queue.Drain.{get_elem?-head}
use cynosure.Queue.Moves.{drain_Holds}
use cynosure.Queue.Bulk.{write_back, raw_slice, rotate, make_contiguous, clear_slots, clear}
use cynosure.Queue.Bulk.Build.{empty_Holds}

module _ {ℓ} {A : Type ℓ} where
  -- From slot `i` on, `buf` holds `xs` in adjacent slots.
  abbrev pub Adjacent : List (Option A) → ℕ → List A → Type ℓ
  Adjacent buf i xs = (j : ℕ) → j < length xs → get_elem? buf (i + j) ≡ some (get_elem? xs j)

  raw_slice_lem :
      (buf : List (Option A)) (i : ℕ) (xs out : List A)
      → Adjacent buf i xs
      → raw_slice buf i (length xs) out ≡ done (out ++ xs)
  unfolding raw_slice
  raw_slice_lem buf i [] out h = ap done (sym (append-nil out))
  raw_slice_lem buf i (x ∷ xs) out h =
      rw (peek_slot_lem buf i x (ap (get_elem? buf) (omega arith) ∙ h 0 (omega arith)), ◌>>=◌)
        (raw_slice_lem buf (i + 1) xs (out ++ x ∷ [])
            (λ j p. ap (get_elem? buf) (omega arith) ∙ h (suc j) (omega arith))
          ∙ ap done (append_assoc out (x ∷ []) xs))

  -- What the loop that writes back leaves: the slots below `i` as they were, then `xs`.
  record WroteBack (buf : List (Option A)) (i : ℕ) (xs : List A) (b : List (Option A))
      : Type ℓ where
    size : length b ≡ length buf
    below : (j : ℕ) → j < i → get_elem? b j ≡ get_elem? buf j
    there : Adjacent b i xs

  write_back_lem :
      (buf : List (Option A)) (i : ℕ) (xs : List A)
      → i + length xs ≤ length buf
      → Returns (write_back buf i xs) (WroteBack buf i xs)
  unfolding write_back
  write_back_lem buf i [] h =
      (buf, refl, record { size = refl; below = λ j p. refl; there = λ j p. elim p [ ] })
  write_back_lem buf i (x ∷ xs) h =
      let (b, e, w) =
        write_back_lem (set buf i (some x)) (i + 1) xs (omega (arith, length-set buf i (some x))) in
      rw (write_slot_lem buf i x (omega arith), ◌>>=◌)
        (
          b,
          e,
          record {
            size = w.size ∙ length-set buf i (some x);
            below =
                λ j p. w.below j (omega arith) ∙ get_elem?-set_ne buf i j (some x) (omega arith);
            there = written b w;
          },
        )
    where
      written :
          (b : List (Option A))
          → WroteBack (set buf i (some x)) (i + 1) xs b
          → Adjacent b i (x ∷ xs)
      written b w zero p =
          ap (get_elem? b) (omega arith)
          ∙ w.below i (omega arith)
          ∙ get_elem?-set_self buf i (some x) (omega arith)
      written b w (suc j) p = ap (get_elem? b) (omega arith) ∙ w.there j (omega arith)

module _ {ℓ} {A : Type ℓ} (n : ℕ) where
  clear_slots_lem :
      (buf : List (Option A)) (head : ℕ) (xs out : List A)
      → head ≤ n - 1
      → length xs ≤ n
      → Live n buf head xs
      → Returns
          (clear_slots n buf head (length xs) out)
          (λ r. (r.0 ≡ out ++ xs) × (length r.1 ≡ length buf))
  unfolding clear_slots
  clear_slots_lem buf head [] out hh fits live = ((out, buf), refl, (sym (append-nil out), refl))
  clear_slots_lem buf head (x ∷ xs) out hh fits live =
      let (r, e, (f, g)) =
        clear_slots_lem (set buf head none) (step_up n head) xs (out ++ x ∷ [])
          (step_up-le n head (omega arith) hh) (omega arith)
          (Live-pop_front n buf head x xs hh (omega arith) live) in
      rw (read_slot_lem buf head x (get_elem?-head n buf head x xs hh (omega arith) live), ◌>>=◌)
        (r, e, (f ∙ append_assoc out (x ∷ []) xs, g ∙ length-set buf head none))

  clear-inline :
      (buf : List (Option A)) (head tail k : ℕ) (xs : List A)
      → Holds n buf head tail k xs
      → Returns (clear n (inline buf head tail k)) (λ r. (r.0 ≡ xs) × Repr n r.1 [])
  unfolding clear
  clear-inline buf head tail k xs h =
      let ((ys, t), e, (f, g)) =
        clear_slots_lem buf head xs [] h.head_in (omega (arith, h.count, h.fits)) h.live in
      rw (ap (λ j. clear_slots n buf head j []) h.count ∙ e)
        ((ys, inline t 0 0 0), refl, (f, empty_Holds n t (g ∙ h.size)))

  pub clear_lem :
      (q : Queue A) (xs : List A)
      → Repr n q xs
      → Returns (clear n q) (λ r. (r.0 ≡ xs) × Repr n r.1 [])
  unfolding clear
  clear_lem (heap vec) xs e = ((vec, heap []), refl, (e, refl))
  clear_lem (inline buf head tail k) xs h = clear-inline buf head tail k xs h

  rotate_lem :
      (buf : List (Option A)) (head tail k : ℕ) (xs : List A)
      → 0 < k
      → Holds n buf head tail k xs
      → Returns (rotate n buf head k) (λ r. (r.0 ≡ xs) × Repr n r.1 xs)
  unfolding rotate
  rotate_lem buf head tail k xs pos h =
      let (t, d, g) = drain_Holds n buf head tail k xs [] h in
      let (b, e, w) = write_back_lem t 0 xs (omega (arith, h.count, h.fits, g)) in
      rw (d, e, h.count, raw_slice_lem b 0 xs [] w.there)
        (
          _,
          refl,
          (
            refl,
            record {
              size = w.size ∙ g;
              count = refl;
              fits = omega (arith, h.count, h.fits);
              head_in = omega arith;
              tail_at = ground (arith, h.count, h.fits);
              live = λ i p. ap (get_elem? b) (ground (arith, h.count, h.fits)) ∙ w.there i p;
            },
          ),
        )

  make_contiguous-inline :
      (buf : List (Option A)) (head tail k : ℕ) (xs : List A)
      → Holds n buf head tail k xs
      → Returns (make_contiguous n (inline buf head tail k)) (λ r. (r.0 ≡ xs) × Repr n r.1 xs)
  unfolding make_contiguous
  make_contiguous-inline buf head tail k [] h =
      rw h.count (_, refl, (refl, subst (λ j. Holds n buf head tail j []) h.count h))
  make_contiguous-inline buf head tail k (x ∷ xs) h = elim (Bool-cases (ltb head tail)) [
    | inl e ↦
        let adjacent : Adjacent buf head (x ∷ xs) = λ j p.
          ap (get_elem? buf) (ground (arith, h.count, h.fits, h.tail_at, h.head_in)) ∙ h.live j p in
        rw
          (
            ne→==-false k 0 (omega (arith, h.count)),
            e,
            ap (λ j. raw_slice buf head j []) h.count ∙ raw_slice_lem buf head (x ∷ xs) [] adjacent,
          )
          (_, refl, (refl, h))
    | inr e ↦
        let (r, f, g) = rotate_lem buf head tail k (x ∷ xs) (omega (arith, h.count)) h in
        rw (ne→==-false k 0 (omega (arith, h.count)), e, and-false (head == tail)) (r, f, g)
  ]

  -- On a queue that stands for a list, `make_contiguous` returns, shows exactly the elements of the list
  -- in order as one slice of adjacent slots, and leaves a queue that stands for the same list.
  pub make_contiguous_lem :
      (q : Queue A) (xs : List A)
      → Repr n q xs
      → Returns (make_contiguous n q) (λ r. (r.0 ≡ xs) × Repr n r.1 xs)
  unfolding make_contiguous
  make_contiguous_lem (heap vec) xs e = ((vec, heap vec), refl, (e, e))
  make_contiguous_lem (inline buf head tail k) xs h = make_contiguous-inline buf head tail k xs h
