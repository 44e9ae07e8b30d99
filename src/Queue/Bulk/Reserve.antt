-- ===== src/Queue/Bulk/Reserve.antt =====
-- `reserve`: the queue is moved if it must be, and holds the same elements, or the code panics.
use cynosure.Prelude.{
  ℕ, ◌+◌, ◌%◌, ◌^◌, ◌≤◌, ◌<◌, ◌≡◌, refl, sym, ap, ◌∙◌, ◌⊎◌, inl, inr, Bool, true, false, ◌&&◌,
  Option, List, [], arith, length, Bool-cases, and-false, ltb, lt→ltb, leb, le→leb, lt→leb-false,
  done, panic, ◌>>=◌, Returns,
}
use cynosure.Queue.{Queue, inline, heap, drain_slots, len}
use cynosure.Queue.Holds.{Holds, Repr}
use cynosure.Queue.Moves.{drain_Holds}
use cynosure.Queue.Bulk.{reserve, reserve_storage}
use cynosure.Queue.Bulk.Build.{len_lem}

module _ {ℓ} {A : Type ℓ} (n : ℕ) where
  pub spill_lem :
      (buf : List (Option A)) (head tail k : ℕ) (xs : List A)
      → Holds n buf head tail k xs
      → Returns (drain_slots n buf head k [] >>= λ r. done (heap r.0)) (λ q'. Repr n q' xs)
  spill_lem buf head tail k xs h =
      let (t, d, _) = drain_Holds n buf head tail k xs [] h in rw d (heap xs, refl, refl)

  -- It panics or leaves the elements as they are.
  pub reserve_storage-safe :
      (most : ℕ) (q : Queue A) (xs : List A) (required additional : ℕ)
      → Repr n q xs
      → (reserve_storage n most q required additional ≡ panic)
        ⊎ Returns (reserve_storage n most q required additional) (λ q'. Repr n q' xs)
  unfolding reserve_storage
  reserve_storage-safe most (heap vec) xs required additional e =
      elim (Bool-cases (leb (length vec + additional) most)) [
        | inl f ↦ rw f (inr (heap vec, refl, e))
        | inr f ↦ rw f (inl refl)
      ]
  reserve_storage-safe most (inline buf head tail k) xs required additional h =
      elim (Bool-cases (ltb n required)) [
        | inr e ↦ rw e (inr (inline buf head tail k, refl, h))
        | inl e ↦ elim (Bool-cases (leb required most)) [
          | inl f ↦ rw (e, f) (inr (spill_lem buf head tail k xs h))
          | inr f ↦ rw (e, f) (inl refl)
        ]
      ]

  pub reserve-safe :
      (most : ℕ) (checks : Bool) (q : Queue A) (xs : List A) (additional : ℕ)
      → Repr n q xs
      → (reserve n most checks q additional ≡ panic)
        ⊎ Returns (reserve n most checks q additional) (λ q'. Repr n q' xs)
  unfolding reserve
  reserve-safe most checks q xs additional h =
      elim (Bool-cases (checks && leb (2 ^ 64) (len q + additional))) [
        | inl e ↦ rw e (inl refl)
        | inr e ↦ rw e (reserve_storage-safe most q xs _ additional h)
      ]

  reserve_storage-room :
      (most : ℕ) (q : Queue A) (xs : List A) (additional : ℕ)
      → n ≤ most
      → Repr n q xs
      → length xs + additional ≤ most
      → Returns (reserve_storage n most q (length xs + additional) additional) (λ q'. Repr n q' xs)
  unfolding reserve_storage
  reserve_storage-room most (heap vec) xs additional fits e room =
      rw (le→leb (length vec + additional) most (omega (arith, room, ap length e)))
        (heap vec, refl, e)
  reserve_storage-room most (inline buf head tail k) xs additional fits h room =
      elim (Bool-cases (ltb n (length xs + additional))) [
        | inr e ↦ rw e (inline buf head tail k, refl, h)
        | inl e ↦ rw (e, le→leb _ most room) (spill_lem buf head tail k xs h)
      ]

  reserve_storage-excess :
      (most : ℕ) (q : Queue A) (xs : List A) (additional : ℕ)
      → n ≤ most
      → Repr n q xs
      → most < length xs + additional
      → reserve_storage n most q (length xs + additional) additional ≡ panic
  unfolding reserve_storage
  reserve_storage-excess most (heap vec) xs additional fits e excess =
      rw (lt→leb-false (length vec + additional) most (omega (arith, excess, ap length e)))
  reserve_storage-excess most (inline buf head tail k) xs additional fits h excess =
      rw (
        lt→ltb n (length xs + additional) (omega (arith, fits, excess)),
        lt→leb-false _ most excess,
      )

  -- Where the sum is above a `usize`, a queue with `n + additional` in range is on the heap.
  reserve_storage-heap :
      (most : ℕ) (q : Queue A) (xs : List A) (required additional : ℕ)
      → most < length xs + additional
      → n + additional < length xs + additional
      → Repr n q xs
      → reserve_storage n most q required additional ≡ panic
  unfolding reserve_storage
  reserve_storage-heap most (heap vec) xs required additional excess many e =
      rw (lt→leb-false (length vec + additional) most (omega (arith, excess, ap length e)))
  reserve_storage-heap most (inline buf head tail k) xs required additional excess many h =
      absurd (omega (arith, many, h.count, h.fits))

  -- If overflow checks are on, or the sum does not wrap around for an inline queue, then `reserve` panics
  -- exactly where the list does not fit `most`.
  pub reserve_lem :
      (most : ℕ) (checks : Bool) (q : Queue A) (xs : List A) (additional : ℕ)
      → n ≤ most
      → most < 2 ^ 64
      → (checks ≡ true) ⊎ (n + additional < 2 ^ 64)
      → Repr n q xs
      → ((length xs + additional ≤ most)
          × Returns (reserve n most checks q additional) (λ q'. Repr n q' xs))
        ⊎ ((most < length xs + additional) × (reserve n most checks q additional ≡ panic))
  unfolding reserve
  reserve_lem most checks q xs additional fits word sums h =
      let count : len q ≡ length xs = len_lem n q xs h in
      elim (Bool-cases (leb (2 ^ 64) (length xs + additional))) [
        | inl e ↦
            let excess : most < length xs + additional = ground (arith, e, word) in
            inr (
              excess,
              elim (Bool-cases checks) [
                | inl on ↦ rw (count, on, e)
                | inr off ↦
                    let bound : n + additional < 2 ^ 64 = (elim sums [
                      | inl on ↦ let clash : true ≡ false = sym on ∙ off in absurd (cc)
                      | inr small ↦ small
                    ]) in
                    rw (count, off)
                      (reserve_storage-heap most q xs _ additional excess (ground (arith, e, bound))
                        h)
              ],
            )
        | inr e ↦
            let small : length xs + additional < 2 ^ 64 = ground (arith, e) in
            let id : (length xs + additional) % 2 ^ 64 ≡ length xs + additional =
              omega (arith, small) in
            let same : reserve n most checks q additional
                ≡ reserve_storage n most q (length xs + additional) additional =
              rw (count, e, and-false checks, id) in
            elim (Bool-cases (leb (length xs + additional) most)) [
              | inl f ↦
                  let room : length xs + additional ≤ most = ground (arith, f) in
                  inl (room, rw same (reserve_storage-room most q xs additional fits h room))
              | inr f ↦
                  let excess : most < length xs + additional = ground (arith, f) in
                  inr (excess, same ∙ reserve_storage-excess most q xs additional fits h excess)
            ]
      ]
