-- ===== src/Queue/Bulk/Compare.antt =====
-- Equality of queues is equality of the lists that they stand for.
use cynosure.Prelude.{
  ℕ, ◌≡◌, refl, sym, ap, ◌∙◌, ◌↔◌, inl, inr, Bool, true, false, List, [], ◌∷◌, arith, length, ◌==◌,
  Bool-cases, ==→eq, ==-false→ne, Returns,
}
use cynosure.Queue.{Queue, len}
use cynosure.Queue.Holds.{Repr}
use cynosure.Queue.Bulk.{all_eq, queue_eq}
use cynosure.Queue.Bulk.Build.{iter_lem, len_lem}

module _ {ℓ} {A : Type ℓ} (same : A → A → Bool)
    (decides : (a b : A) → (same a b ≡ true) ↔ (a ≡ b)) where
  all_eq_iff : (xs ys : List A) → length xs ≡ length ys → (all_eq same xs ys ≡ true) ↔ (xs ≡ ys)
  unfolding all_eq
  all_eq_iff [] [] h = ((λ _. refl), (λ _. refl))
  all_eq_iff [] (y ∷ ys) h = absurd (omega arith)
  all_eq_iff (x ∷ xs) [] h = absurd (omega arith)
  all_eq_iff (x ∷ xs) (y ∷ ys) h =
      let ih = all_eq_iff xs ys (omega arith) in
      let here = decides x y in ((λ t. ground (arith, ih, here)), (λ e. ground (arith, ih, here)))

  -- Two queues, each inline or spilled, compare as equal exactly if they hold the same elements in the
  -- same order, where `same` decides equality of elements; the comparison does not fail.
  pub queue_eq_iff :
      (n : ℕ) (q r : Queue A) (xs ys : List A)
      → Repr n q xs
      → Repr n r ys
      → Returns (queue_eq n same q r) (λ b. (b ≡ true) ↔ (xs ≡ ys))
  unfolding queue_eq
  queue_eq_iff n q r xs ys h k = elim (Bool-cases (len q == len r)) [
    | inl e ↦
        let sizes : length xs ≡ length ys =
          sym (len_lem n q xs h) ∙ ==→eq _ _ e ∙ len_lem n r ys k in
        rw (e, iter_lem n q xs h, iter_lem n r ys k) (_, refl, all_eq_iff xs ys sizes)
    | inr e ↦
        let sizes : length xs ≡ length ys → ⊥ =
          λ s. ==-false→ne _ _ e (len_lem n q xs h ∙ s ∙ sym (len_lem n r ys k)) in
        rw e (false, refl, ((λ t. absurd (cc)), (λ s. absurd (sizes (ap length s)))))
  ]
