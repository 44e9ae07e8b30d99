-- ===== src/Queue/Refine.antt =====
-- A queue, inline or spilled, cannot be told from the list that it stands for.
use cynosure.Prelude.{
  ℕ, ◌+◌, ◌^◌, ◌≤◌, ◌<◌, ◌≡◌, refl, ◌≢◌, Bool, true, ap, inl, inr, none, some, List, [], ◌∷◌, arith,
  le→leb, lt→leb-false, get_elem?, get_elem?-none, Option-cases, ◌⊎◌, Exec, done, panic, fault,
  ◌>>=◌, Returns,
}
use cynosure.Queue
use cynosure.Queue.{Queue}
use cynosure.Queue.Holds.{Repr}
use cynosure.Queue.Moves.{new-Repr}
use cynosure.Queue.Ends.{
  push_back_lem, push_front_lem, pop_front_lem, pop_back_lem, Popped, PoppedBack,
}
use cynosure.Queue.Bulk
use cynosure.Queue.Bulk.Build.{into_vec_lem, retain_lem, take_where_lem}
use cynosure.Queue.Bulk.Sweep.{make_contiguous_lem, clear_lem}
use cynosure.Queue.Bulk.Reserve.{reserve_lem, reserve-safe}
use cynosure.Queue.Bulk.Swap.{swap_lem, swap-eq-panic}
use cynosure.Queue.Spec
use cynosure.Queue.Spec.{Call, Reply, value, items, pop_head, pop_last, pop_last-append}

module _ {ℓ} {A : Type ℓ} (n most : ℕ) (checks : Bool) where
  -- A call of the operations of `Queue`.
  pub step : Queue A → Call A → Exec (Reply A × Queue A)
  step q (Call.push_back v) = do q' ← Queue.push_back n q v; done (value none, q')
  step q (Call.push_front v) = do q' ← Queue.push_front n q v; done (value none, q')
  step q Call.pop_front = do (x, q') ← Queue.pop_front n q; done (value x, q')
  step q Call.pop_back = do (x, q') ← Queue.pop_back n q; done (value x, q')
  step q Call.into_vec = do (xs, q') ← Queue.into_vec n q; done (items xs, q')
  step q Call.clear = do (xs, q') ← Bulk.clear n q; done (items xs, q')
  step q Call.make_contiguous = do (xs, q') ← Bulk.make_contiguous n q; done (items xs, q')
  step q (Call.reserve k) = do q' ← Bulk.reserve n most checks q k; done (value none, q')
  step q (Call.retain keep) = do q' ← Bulk.retain n keep q; done (value none, q')
  step q (Call.take_where remove) = do (xs, q') ← Bulk.take_where n remove q; done (items xs, q')
  step q (Call.swap a b) = do q' ← Bulk.swap n q a b; done (value none, q')

  pub run : Queue A → List (Call A) → Exec (List (Reply A))
  run q [] = done []
  run q (c ∷ cs) = do (o, q') ← step q c; os ← run q' cs; done (o ∷ os)

  -- The queue's outcome is the list's: the same reply and a queue that stands for the list after the
  -- call, or the same
  -- failure of both.
  abbrev pub Agrees : Exec (Reply A × Queue A) → Exec (Reply A × List A) → Type ℓ
  Agrees r (done (o, ys)) = Returns r (λ p. (p.0 ≡ o) × Repr n p.1 ys)
  Agrees r panic = r ≡ panic
  Agrees r fault = r ≡ fault

  pop_front-Agrees :
      (q : Queue A) (xs : List A)
      → Repr n q xs
      → Agrees (step q Call.pop_front) (Spec.step most xs Call.pop_front)
  unfolding step Spec.step
  pop_front-Agrees q xs h = split (pop_front_lem n q xs h)
    where
      split :
          Returns (Queue.pop_front n q) (λ r. Popped n r xs)
          → Agrees (step q Call.pop_front) (Spec.step most xs Call.pop_front)
      split ((none, q'), e, (p, k)) = rw (e, p) (_, refl, (refl, k))
      split ((some x, q'), e, (ys, p, k)) = rw (e, p) (_, refl, (refl, k))

  pop_back-Agrees :
      (q : Queue A) (xs : List A)
      → Repr n q xs
      → Agrees (step q Call.pop_back) (Spec.step most xs Call.pop_back)
  unfolding step Spec.step
  pop_back-Agrees q xs h = split (pop_back_lem n q xs h)
    where
      split :
          Returns (Queue.pop_back n q) (λ r. PoppedBack n r xs)
          → Agrees (step q Call.pop_back) (Spec.step most xs Call.pop_back)
      split ((none, q'), e, (p, k)) = rw (e, p) (_, refl, (refl, k))
      split ((some x, q'), e, (ys, p, k)) = rw (e, p, pop_last-append ys x) (_, refl, (refl, k))

  swap-Agrees :
      (q : Queue A) (xs : List A) (a b : ℕ)
      → Repr n q xs
      → Agrees (step q (Call.swap a b)) (Spec.step most xs (Call.swap a b))
  unfolding step Spec.step Spec.exchange
  swap-Agrees q xs a b h = split (Option-cases (get_elem? xs a)) (Option-cases (get_elem? xs b))
    where
      split :
          (get_elem? xs a ≡ none) ⊎ ((x : A) × (get_elem? xs a ≡ some x))
          → (get_elem? xs b ≡ none) ⊎ ((y : A) × (get_elem? xs b ≡ some y))
          → Agrees (step q (Call.swap a b)) (Spec.step most xs (Call.swap a b))
      split (inl e) o =
          rw (e, Spec.exchange, swap-eq-panic n q xs a b h (inl (get_elem?-none xs a e)))
      split (inr (x, e)) (inl f) =
          rw (e, Spec.exchange, f, swap-eq-panic n q xs a b h (inr (get_elem?-none xs b f)))
      split (inr (x, e)) (inr (y, f)) =
          let (q', g, k) = swap_lem n q xs a b x y e f h in
          rw (e, Spec.exchange, f, g) (_, refl, (refl, k))

  -- The allocations of `most` hold the inline capacity, and `most` is a `usize`. Overflow checks are on, or
  -- no sum of these calls wraps around.
  abbrev Fitting : List (Call A) → Type 0
  Fitting cs = (n ≤ most) × ((most < 2 ^ 64) × ((checks ≡ true) ⊎ (Spec.sums_fit n cs ≡ true)))

  reserve-Agrees :
      (q : Queue A) (xs : List A) (k : ℕ) (cs : List (Call A))
      → Fitting (Call.reserve k ∷ cs)
      → Repr n q xs
      → Agrees (step q (Call.reserve k)) (Spec.step most xs (Call.reserve k))
  unfolding step Spec.step Spec.sums_fit
  reserve-Agrees q xs k cs (fits, (word, sums)) h =
      let bound : (checks ≡ true) ⊎ (n + k < 2 ^ 64) = (elim sums [
        | inl on ↦ inl on
        | inr e ↦ inr (ground (arith, e))
      ]) in
      elim (reserve_lem n most checks q xs k fits word bound h) [
        | inl (room, (q', e, r)) ↦ rw (le→leb _ most room, e) (_, refl, (refl, r))
        | inr (excess, e) ↦ rw (lt→leb-false _ most excess, e)
      ]

  -- Each call does to the queue what the specification does to the list.
  pub step-Agrees :
      (q : Queue A) (xs : List A) (c : Call A) (cs : List (Call A))
      → Fitting (c ∷ cs)
      → Repr n q xs
      → Agrees (step q c) (Spec.step most xs c)
  unfolding step Spec.step
  step-Agrees q xs (Call.push_back v) cs fit h =
      let (q', e, k) = push_back_lem n q xs v h in rw e (_, refl, (refl, k))
  step-Agrees q xs (Call.push_front v) cs fit h =
      let (q', e, k) = push_front_lem n q xs v h in rw e (_, refl, (refl, k))
  step-Agrees q xs Call.pop_front cs fit h = pop_front-Agrees q xs h
  step-Agrees q xs Call.pop_back cs fit h = pop_back-Agrees q xs h
  step-Agrees q xs Call.into_vec cs fit h =
      let (r, e, (p, k)) = into_vec_lem n q xs h in rw e (_, refl, (ap items p, k))
  step-Agrees q xs Call.clear cs fit h =
      let (r, e, (p, k)) = clear_lem n q xs h in rw e (_, refl, (ap items p, k))
  step-Agrees q xs Call.make_contiguous cs fit h =
      let (r, e, (p, k)) = make_contiguous_lem n q xs h in rw e (_, refl, (ap items p, k))
  step-Agrees q xs (Call.reserve j) cs fit h = reserve-Agrees q xs j cs fit h
  step-Agrees q xs (Call.retain keep) cs fit h =
      let (q', e, k) = retain_lem n keep q xs h in rw e (_, refl, (refl, k))
  step-Agrees q xs (Call.take_where remove) cs fit h =
      let (r, e, (p, k)) = take_where_lem n remove q xs h in rw e (_, refl, (ap items p, k))
  step-Agrees q xs (Call.swap a b) cs fit h = swap-Agrees q xs a b h

  later-Fitting : (c : Call A) (cs : List (Call A)) → Fitting (c ∷ cs) → Fitting cs
  unfolding Spec.sums_fit
  later-Fitting c cs (fits, (word, inl on)) = (fits, (word, inl on))
  later-Fitting (Call.reserve k) cs (fits, (word, inr e)) = (fits, (word, inr (ground (arith, e))))
  later-Fitting (Call.push_back v) cs (fits, (word, inr e)) = (fits, (word, inr e))
  later-Fitting (Call.push_front v) cs (fits, (word, inr e)) = (fits, (word, inr e))
  later-Fitting Call.pop_front cs (fits, (word, inr e)) = (fits, (word, inr e))
  later-Fitting Call.pop_back cs (fits, (word, inr e)) = (fits, (word, inr e))
  later-Fitting Call.into_vec cs (fits, (word, inr e)) = (fits, (word, inr e))
  later-Fitting Call.clear cs (fits, (word, inr e)) = (fits, (word, inr e))
  later-Fitting Call.make_contiguous cs (fits, (word, inr e)) = (fits, (word, inr e))
  later-Fitting (Call.retain keep) cs (fits, (word, inr e)) = (fits, (word, inr e))
  later-Fitting (Call.take_where remove) cs (fits, (word, inr e)) = (fits, (word, inr e))
  later-Fitting (Call.swap a b) cs (fits, (word, inr e)) = (fits, (word, inr e))

  bind-Agrees :
      (q : Queue A) (xs : List A) (cs : List (Call A)) (r : Exec (Reply A × Queue A))
      (s : Exec (Reply A × List A))
      → ((q' : Queue A) (ys : List A) → Repr n q' ys → run q' cs ≡ Spec.run most ys cs)
      → Agrees r s
      → (r >>= λ p. run p.1 cs >>= λ os. done (p.0 ∷ os))
        ≡ (s >>= λ p. Spec.run most p.1 cs >>= λ os. done (p.0 ∷ os))
  bind-Agrees q xs cs r (done (o, ys)) ih ((o', q'), e, (p, k)) = rw (e, ih q' ys k, p)
  bind-Agrees q xs cs r panic ih e = rw e
  bind-Agrees q xs cs r fault ih e = rw e

  pub run_refines :
      (q : Queue A) (xs : List A) (cs : List (Call A))
      → Fitting cs
      → Repr n q xs
      → run q cs ≡ Spec.run most xs cs
  unfolding run Spec.run
  run_refines q xs [] fit h = refl
  run_refines q xs (c ∷ cs) fit h =
      bind-Agrees q xs cs (step q c) (Spec.step most xs c)
        (λ q' ys k. run_refines q' ys cs (later-Fitting c cs fit) k) (step-Agrees q xs c cs fit h)

  -- Let `most` be the largest capacity of an allocation, a `usize` at least the inline capacity, and let
  -- overflow checks be on, or no `reserve` wrap around with as many elements as the inline capacity. From
  -- a new queue, every sequence of calls gives the replies of the list, whatever the inline capacity is
  -- and whenever the queue spills. It panics exactly where a `swap` is out of the list's range or a
  -- `reserve` wants more than `most` for the list.
  pub run-new :
      (cs : List (Call A))
      → n ≤ most
      → most < 2 ^ 64
      → (checks ≡ true) ⊎ (Spec.sums_fit n cs ≡ true)
      → run (Queue.new n) cs ≡ Spec.run most [] cs
  run-new cs fits word sums = run_refines (Queue.new n) [] cs (fits, (word, sums)) (new-Repr A n)

  -- A call panics, or returns a queue that stands for some list.
  abbrev Sound : Exec (Reply A × Queue A) → Type ℓ
  Sound r = (r ≡ panic) ⊎ Returns r (λ p. (xs : List A) × Repr n p.1 xs)

  Agrees-Sound :
      (r : Exec (Reply A × Queue A)) (s : Exec (Reply A × List A))
      → s ≢ fault
      → Agrees r s
      → Sound r
  Agrees-Sound r (done (o, ys)) ne (p, e, (same, h)) = inr (p, e, (ys, h))
  Agrees-Sound r panic ne e = inl e
  Agrees-Sound r fault ne e = absurd (ne refl)

  reserve-Sound :
      (q : Queue A) (xs : List A) (k : ℕ) → Repr n q xs → Sound (step q (Call.reserve k))
  unfolding step
  reserve-Sound q xs k h = elim (reserve-safe n most checks q xs k h) [
    | inl e ↦ rw e (inl refl)
    | inr (q', e, r) ↦ rw e (inr (_, refl, (xs, r)))
  ]

  exchange-ne-fault : (xs : List A) (a b : ℕ) → Spec.exchange xs a b ≢ fault
  unfolding Spec.exchange
  exchange-ne-fault xs a b = ground arith

  spec_swap-ne-fault : (xs : List A) (a b : ℕ) → Spec.step most xs (Call.swap a b) ≢ fault
  unfolding Spec.step
  spec_swap-ne-fault xs a b = ground (arith, exchange-ne-fault xs a b)

  done-ne-fault : (r : Reply A × List A) → done r ≢ fault
  done-ne-fault r e = cc

  step-Sound : (q : Queue A) (xs : List A) (c : Call A) → Repr n q xs → Sound (step q c)
  unfolding step Spec.step
  step-Sound q xs (Call.push_back v) h =
      let (q', e, k) = push_back_lem n q xs v h in rw e (inr (_, refl, (_, k)))
  step-Sound q xs (Call.push_front v) h =
      let (q', e, k) = push_front_lem n q xs v h in rw e (inr (_, refl, (_, k)))
  step-Sound q xs Call.pop_front h = Agrees-Sound _ _ (done-ne-fault _) (pop_front-Agrees q xs h)
  step-Sound q xs Call.pop_back h = Agrees-Sound _ _ (done-ne-fault _) (pop_back-Agrees q xs h)
  step-Sound q xs Call.into_vec h =
      let (r, e, (p, k)) = into_vec_lem n q xs h in rw e (inr (_, refl, (_, k)))
  step-Sound q xs Call.clear h =
      let (r, e, (p, k)) = clear_lem n q xs h in rw e (inr (_, refl, (_, k)))
  step-Sound q xs Call.make_contiguous h =
      let (r, e, (p, k)) = make_contiguous_lem n q xs h in rw e (inr (_, refl, (_, k)))
  step-Sound q xs (Call.reserve j) h = reserve-Sound q xs j h
  step-Sound q xs (Call.retain keep) h =
      let (q', e, k) = retain_lem n keep q xs h in rw e (inr (_, refl, (_, k)))
  step-Sound q xs (Call.take_where remove) h =
      let (r, e, (p, k)) = take_where_lem n remove q xs h in rw e (inr (_, refl, (_, k)))
  step-Sound q xs (Call.swap a b) h =
      Agrees-Sound _ _ (spec_swap-ne-fault xs a b) (swap-Agrees q xs a b h)

  cons-ne-fault :
      (o : Reply A) (r : Exec (List (Reply A))) → r ≢ fault → (r >>= λ os. done (o ∷ os)) ≢ fault
  cons-ne-fault o (done os) ne = λ e. cc
  cons-ne-fault o panic ne = λ e. cc
  cons-ne-fault o fault ne = absurd (ne refl)

  run_sound : (q : Queue A) (xs : List A) (cs : List (Call A)) → Repr n q xs → run q cs ≢ fault
  unfolding run
  run_sound q xs [] h = λ e. cc
  run_sound q xs (c ∷ cs) h = elim (step-Sound q xs c h) [
    | inl e ↦ rw e (λ f. cc)
    | inr ((o, q'), e, (ys, k)) ↦ rw e (cons-ne-fault o (run q' cs) (run_sound q' ys cs k))
  ]

  -- From a new queue, no sequence of calls reads a slot that holds no value.
  pub run-ne-fault : (cs : List (Call A)) → run (Queue.new n) cs ≢ fault
  run-ne-fault cs = run_sound (Queue.new n) [] cs (new-Repr A n)
