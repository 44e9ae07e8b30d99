-- ===== src/Queue/Spec.antt =====
-- What a client of `Queue` sees: a list, front first. A call gives a reply and the list after it.
use cynosure.Prelude.{
  ℕ, ◌+◌, ◌^◌, ◌≡◌, refl, Bool, true, ◌&&◌, Option, none, some, List, [], ◌∷◌, ◌++◌, length, filter,
  reject, get_elem?, set, ltb, leb, if◌then◌else◌, Exec, done, panic, ◌>>=◌,
}

pub data Call {ℓ} (A : Type ℓ) : Type ℓ where
  push_back : A → Call A
  push_front : A → Call A
  pop_front : Call A
  pop_back : Call A
  into_vec : Call A
  clear : Call A
  make_contiguous : Call A
  reserve : ℕ → Call A
  retain : (A → Bool) → Call A
  take_where : (A → Bool) → Call A
  swap : ℕ → ℕ → Call A

-- The value that a pop returns, or the elements that leave the queue or are shown.
pub data Reply {ℓ} (A : Type ℓ) : Type ℓ where
  value : Option A → Reply A
  items : List A → Reply A

module _ {ℓ} {A : Type ℓ} where
  unfoldable pub pop_head : List A → Option A × List A
  pop_head [] = (none, [])
  pop_head (x ∷ xs) = (some x, xs)

  last_of : A → List A → A × List A
  last_of x [] = (x, [])
  last_of x (y ∷ ys) = let (z, rest) = last_of y ys in (z, x ∷ rest)

  unfoldable pub pop_last : List A → Option A × List A
  unfolding last_of
  pop_last [] = (none, [])
  pop_last (x ∷ xs) = let (z, rest) = last_of x xs in (some z, rest)

  last_of-append : (x y : A) (ys : List A) → last_of x (ys ++ y ∷ []) ≡ (y, x ∷ ys)
  unfolding last_of
  last_of-append x y [] = refl
  last_of-append x y (z ∷ ys) = rw (last_of-append z y ys)

  pub pop_last-append : (ys : List A) (y : A) → pop_last (ys ++ y ∷ []) ≡ (some y, ys)
  unfolding pop_last
  pop_last-append [] y = refl
  pop_last-append (x ∷ ys) y = rw (last_of-append x y ys)

  -- An index out of range panics.
  unfoldable pub exchange : List A → ℕ → ℕ → Exec (List A)
  exchange xs a b = elim (get_elem? xs a) [
    | none ↦ panic
    | some x ↦ elim (get_elem? xs b) [ none ↦ panic | some y ↦ done (set (set xs a y) b x) ]
  ]

module _ {ℓ} {A : Type ℓ} (most : ℕ) where
  -- `most` is the largest capacity that an allocation can have: to reserve more panics.
  unfoldable pub step : List A → Call A → Exec (Reply A × List A)
  unfolding pop_head pop_last
  step xs (push_back v) = done (value none, xs ++ v ∷ [])
  step xs (push_front v) = done (value none, v ∷ xs)
  step xs pop_front = let (x, ys) = pop_head xs in done (value x, ys)
  step xs pop_back = let (x, ys) = pop_last xs in done (value x, ys)
  step xs into_vec = done (items xs, [])
  step xs clear = done (items xs, [])
  step xs make_contiguous = done (items xs, xs)
  step xs (reserve k) = if leb (length xs + k) most then done (value none, xs) else panic
  step xs (retain keep) = done (value none, filter keep xs)
  step xs (take_where remove) = done (items (filter remove xs), reject remove xs)
  step xs (swap a b) = do ys ← exchange xs a b; done (value none, ys)

  unfoldable pub run : List A → List (Call A) → Exec (List (Reply A))
  run xs [] = done []
  run xs (c ∷ cs) = do (o, ys) ← step xs c; os ← run ys cs; done (o ∷ os)

module _ {ℓ} {A : Type ℓ} (n : ℕ) where
  -- With `n` elements, no `reserve` of these calls goes beyond a `usize`.
  unfoldable pub sums_fit : List (Call A) → Bool
  sums_fit [] = true
  sums_fit (reserve k ∷ cs) = ltb (n + k) (2 ^ 64) && sums_fit cs
  sums_fit (c ∷ cs) = sums_fit cs
