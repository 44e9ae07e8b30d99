-- ===== src/Queue/Live.antt =====
-- What a write or a move out of one slot does to the list that a ring holds.
use cynosure.Prelude.{
  ℕ, zero, suc, ◌-◌, ◌≤◌, ◌<◌, ◌≡◌, sym, ap, ◌∙◌, ◌≢◌, inl, inr, Option, none, some, List, [], ◌∷◌,
  ◌++◌, arith, length, get_elem?, set, length-append, get_elem?-set_self, get_elem?-set_ne,
  get_elem?-append_left, get_elem?-append_end, Bool-cases, ◌==◌, ==→eq, ==-false→ne,
}
use cynosure.Queue.{step_up, step_down}
use cynosure.Queue.Slots.{
  slot, slot-lt, slot-zero, slot-injective, slot-step_up, slot-step_down, step_down-le,
  step_down-ne-slot, ne-slot-suc,
}
use cynosure.Queue.Holds.{Live}

module _ {ℓ} {A : Type ℓ} where
  -- A change of another slot than those of `xs` keeps them.
  Live-set :
      (n : ℕ) (buf : List (Option A)) (head j : ℕ) (v : Option A) (xs : List A)
      → ((i : ℕ) → i < length xs → j ≢ slot n head i)
      → Live n buf head xs
      → Live n (set buf j v) head xs
  Live-set n buf head j v xs away live i h =
      get_elem?-set_ne buf j (slot n head i) v (away i h) ∙ live i h

  pub Live-push_back :
      (n : ℕ) (buf : List (Option A)) (head : ℕ) (xs : List A) (v : A)
      → length buf ≡ n
      → head ≤ n - 1
      → length xs < n
      → Live n buf head xs
      → Live n (set buf (slot n head (length xs)) (some v)) head (xs ++ v ∷ [])
  Live-push_back n buf head xs v size hh room live i h = elim (Bool-cases (i == length xs)) [
    | inl e ↦
        let at : i ≡ length xs = ==→eq _ _ e in
        rw (get_elem?-append_end xs v i at, at)
          (get_elem?-set_self buf _ _ (omega (arith, slot-lt n head (length xs) hh room)))
    | inr e ↦
        let ne : i ≢ length xs = ==-false→ne _ _ e in
        let lt : i < length xs = omega (arith, length-append xs (v ∷ [])) in
        rw (get_elem?-append_left xs (v ∷ []) i lt) (
          get_elem?-set_ne buf _ _ _
            (slot-injective n head _ i hh room (omega arith) (λ q. ne (sym q)))
          ∙ live i lt)
  ]

  pub Live-push_front :
      (n : ℕ) (buf : List (Option A)) (head : ℕ) (xs : List A) (v : A)
      → length buf ≡ n
      → head ≤ n - 1
      → length xs < n
      → Live n buf head xs
      → Live n (set buf (step_down n head) (some v)) (step_down n head) (v ∷ xs)
  Live-push_front n buf head xs v size hh room live zero h =
      ap (get_elem? (set buf (step_down n head) (some v)))
        (slot-zero n (step_down n head) (step_down-le n head hh) (omega arith))
      ∙ get_elem?-set_self buf (step_down n head) (some v) (omega (arith, step_down-le n head hh))
  Live-push_front n buf head xs v size hh room live (suc i) h =
      ap (get_elem? (set buf (step_down n head) (some v)))
        (slot-step_down n head i hh (omega arith))
      ∙ get_elem?-set_ne buf (step_down n head) (slot n head i) (some v)
          (step_down-ne-slot n head i hh (omega arith))
      ∙ live i (omega arith)

  pub Live-tail :
      (n : ℕ) (buf : List (Option A)) (head : ℕ) (x : A) (xs : List A)
      → head ≤ n - 1
      → length xs < n
      → Live n buf head (x ∷ xs)
      → Live n buf (step_up n head) xs
  Live-tail n buf head x xs hh room live i h =
      ap (get_elem? buf) (slot-step_up n head i hh (omega arith)) ∙ live (suc i) (omega arith)

  pub Live-pop_front :
      (n : ℕ) (buf : List (Option A)) (head : ℕ) (x : A) (xs : List A)
      → head ≤ n - 1
      → length xs < n
      → Live n buf head (x ∷ xs)
      → Live n (set buf head none) (step_up n head) xs
  Live-pop_front n buf head x xs hh room live i h =
      ap (get_elem? (set buf head none)) (slot-step_up n head i hh (omega arith))
      ∙ get_elem?-set_ne buf head (slot n head (suc i)) none (ne-slot-suc n head i hh (omega arith))
      ∙ live (suc i) (omega arith)

  pub Live-pop_back :
      (n : ℕ) (buf : List (Option A)) (head : ℕ) (xs : List A) (x : A)
      → head ≤ n - 1
      → length xs < n
      → Live n buf head (xs ++ x ∷ [])
      → Live n (set buf (slot n head (length xs)) none) head xs
  Live-pop_back n buf head xs x hh room live i h =
      get_elem?-set_ne buf (slot n head (length xs)) (slot n head i) none
        (slot-injective n head (length xs) i hh room (omega arith) (omega arith))
      ∙ live i (omega (arith, length-append xs (x ∷ [])))
      ∙ ap some (get_elem?-append_left xs (x ∷ []) i h)
