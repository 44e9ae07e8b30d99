-- ===== src/Queue/Spill.antt =====
-- When a queue leaves its inline storage.
use cynosure.Prelude.{
  ℕ, ◌≤◌, ◌<◌, ◌≡◌, ◌↔◌, refl, inl, inr, Bool, true, false, Option, List, [], ◌∷◌, arith, length,
  ltb, ltb→lt, ltb-false→le, Bool-cases, Returns,
}
use cynosure.Queue.{Queue, inline, heap, push_back, push_front, step_down}
use cynosure.Queue.Slots.{step_down-le}
use cynosure.Queue.Holds.{Holds, Repr, write_slot_lem}
use cynosure.Queue.Moves.{drain_Holds}
use cynosure.Queue.Ends.{tail_in}

module _ {ℓ} {A : Type ℓ} where
  abbrev pub is_inline : Queue A → Bool
  is_inline (inline buf head tail k) = true
  is_inline (heap vec) = false

  -- The queue that a push of an inline queue leaves is inline exactly if there was room.
  abbrev StaysInline : ℕ → List A → Queue A → Type 0
  StaysInline n xs q = (is_inline q ≡ true) ↔ (length xs < n)

  push_back_spills :
      (n : ℕ) (buf : List (Option A)) (head tail k : ℕ) (xs : List A) (v : A)
      → Holds n buf head tail k xs
      → Returns (push_back n (inline buf head tail k) v) (StaysInline n xs)
  unfolding push_back
  push_back_spills n buf head tail k xs v h = elim (Bool-cases (ltb k n)) [
    | inl e ↦
        let room : k < n = ltb→lt k n e in
        rw (e, write_slot_lem buf tail v (tail_in n buf head tail k xs room h))
          (_, refl, ((λ _. omega (arith, h.count)), (λ _. refl)))
    | inr e ↦
        let full : n ≤ k = ltb-false→le k n e in
        let (t, d, _) = drain_Holds n buf head tail k xs [] h in
        rw (e, d) (_, refl, ((λ q. absurd (cc)), (λ q. absurd (omega (arith, h.count)))))
  ]

  push_front_spills :
      (n : ℕ) (buf : List (Option A)) (head tail k : ℕ) (xs : List A) (v : A)
      → Holds n buf head tail k xs
      → Returns (push_front n (inline buf head tail k) v) (StaysInline n xs)
  unfolding push_front
  push_front_spills n buf head tail k xs v h = elim (Bool-cases (ltb k n)) [
    | inl e ↦
        let room : k < n = ltb→lt k n e in
        rw
          (
            e,
            write_slot_lem buf (step_down n head) v
                (omega (arith, step_down-le n head h.head_in, h.size)),
          )
          (_, refl, ((λ _. omega (arith, h.count)), (λ _. refl)))
    | inr e ↦
        let full : n ≤ k = ltb-false→le k n e in
        let (t, d, _) = drain_Holds n buf head tail k xs (v ∷ []) h in
        rw (e, d) (_, refl, ((λ q. absurd (cc)), (λ q. absurd (omega (arith, h.count)))))
  ]

  -- A push at either end of an inline queue that holds `xs` leaves it inline exactly if fewer than `n`
  -- elements were there: nothing is allocated before the `n` inline places are used up.
  pub spills_when_full :
      (n : ℕ) (buf : List (Option A)) (head tail k : ℕ) (xs : List A) (v : A)
      → Repr n (inline buf head tail k) xs
      → Returns
          (push_back n (inline buf head tail k) v)
          (λ q. (is_inline q ≡ true) ↔ (length xs < n))
        × Returns
            (push_front n (inline buf head tail k) v)
            (λ q. (is_inline q ≡ true) ↔ (length xs < n))
  spills_when_full n buf head tail k xs v h =
      (push_back_spills n buf head tail k xs v h, push_front_spills n buf head tail k xs v h)
