-- ===== src/Waiters/Registry/Wake.antt =====
-- Waking the waiter at the front of a queue.
use cynosure.Prelude.{
  ℕ, ◌≡◌, ◌≢◌, refl, ap, ◌∙◌, subst, ◌⊎◌, inl, inr, Option, none, some, List, [], ◌∷◌, ◌++◌,
}
use cynosure.Waiters.{WaitQueue}
use cynosure.Queue.Spec.{pop_head}
use cynosure.Waiters.Registry.Invariant.{Tracks, Tracks-wake, with_wake}

module _ {P : Type 0} where
  pub append-ne-nil : (l : List (ℕ × P)) (e : ℕ × P) → l ++ e ∷ [] ≢ []
  append-ne-nil [] e h = cc
  append-ne-nil (x ∷ l) e h = cc

module _ {P : Type 0} (d : WaitQueue (ℕ × P)) where
  open d use {Q, to_list, pop_front}

  -- What a removal from the front of the queue does, by whether there is a waiter.
  pub pop_front_cases :
      (q : Q)
      → ((to_list q ≡ []) × ((pop_front q).0 ≡ none) × (to_list (pop_front q).1 ≡ []))
        ⊎ ((e : ℕ × P) × (l : List (ℕ × P)) × (to_list q ≡ e ∷ l)
            × ((pop_front q).0 ≡ some e)
            × (to_list (pop_front q).1 ≡ l))
  unfolding pop_head
  pop_front_cases q = split (to_list q) refl
    where
      split :
          (l : List (ℕ × P))
          → to_list q ≡ l
          → ((to_list q ≡ []) × ((pop_front q).0 ≡ none) × (to_list (pop_front q).1 ≡ []))
            ⊎ ((e : ℕ × P) × (l : List (ℕ × P)) × (to_list q ≡ e ∷ l)
                × ((pop_front q).0 ≡ some e)
                × (to_list (pop_front q).1 ≡ l))
      split [] at = inl (
        at,
        d.value-pop_front q ∙ ap (λ l. (pop_head l).0) at,
        d.to_list-pop_front q ∙ ap (λ l. (pop_head l).1) at,
      )
      split (e ∷ l) at = inr (
        e,
        l,
        at,
        d.value-pop_front q ∙ ap (λ l. (pop_head l).0) at,
        d.to_list-pop_front q ∙ ap (λ l. (pop_head l).1) at,
      )

  -- After waking the front, everything still belongs together, and if anybody waited a wake is under way.
  pub wake_front :
      (q : Q) (slots : ℕ → Option (ℕ × P)) (w : List (ℕ × P)) (next : ℕ)
      → Tracks (to_list q) slots w next
      → Tracks (to_list (pop_front q).1) slots (with_wake (pop_front q).0 w) next
        × ((to_list (pop_front q).1 ≡ []) ⊎ (with_wake (pop_front q).0 w ≢ []))
  wake_front q slots w next t = elim (pop_front_cases q) [
    | inl (at, none_left, rest) ↦
        rw (none_left, rest) (subst (λ l. Tracks l slots w next) at t, inl refl)
    | inr (e, l, at, front, rest) ↦
        rw (front, rest)
          (
            Tracks-wake e l slots w next (subst (λ k. Tracks k slots w next) at t),
            inr (append-ne-nil w e),
          )
  ]
