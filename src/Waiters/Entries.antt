-- ===== src/Waiters/Entries.antt =====
-- Entries of a waiter queue: a future's token with what it waits with.
use cynosure.Prelude.{
  ℕ, ◌≡◌, ◌≢◌, refl, sym, ap, ◌∙◌, ◌⊎◌, inl, inr, Bool, true, List, [], ◌∷◌, ◌++◌, reject, any,
  Bool-cases, ◌==◌, ==→eq, ==-false→ne, ne→==-false,
}

module _ {P : Type 0} where
  -- `e` stands in the list.
  abbrev pub In : ℕ × P → List (ℕ × P) → Type 0
  In e [] = ⊥
  In e (x ∷ xs) = (x ≡ e) ⊎ In e xs

  -- No two entries of the list have one token.
  abbrev pub Distinct : List (ℕ × P) → Type 0
  Distinct [] = Unit {0}
  Distinct (x ∷ xs) = ((e : ℕ × P) → In e xs → e.0 ≢ x.0) × Distinct xs

  -- `|(qid, _)| *qid == id`
  abbrev pub has_id : ℕ → ℕ × P → Bool
  has_id id e = e.0 == id

  -- `waiters.iter().any(|(qid, _)| qid == id)`
  abbrev pub queued : ℕ → List (ℕ × P) → Bool
  queued id xs = any (has_id id) xs

  pub In-append_left : (e : ℕ × P) (xs ys : List (ℕ × P)) → In e xs → In e (xs ++ ys)
  In-append_left e (x ∷ xs) ys (inl h) = inl h
  In-append_left e (x ∷ xs) ys (inr h) = inr (In-append_left e xs ys h)
  In-append_left e [] ys h = elim h [ ]

  pub In-append_end : (e : ℕ × P) (xs : List (ℕ × P)) → In e (xs ++ e ∷ [])
  In-append_end e [] = inl refl
  In-append_end e (x ∷ xs) = inr (In-append_end e xs)

  pub In-append_cases : (e f : ℕ × P) (xs : List (ℕ × P)) → In e (xs ++ f ∷ []) → In e xs ⊎ (f ≡ e)
  In-append_cases e f [] (inl h) = inr h
  In-append_cases e f [] (inr h) = elim h [ ]
  In-append_cases e f (x ∷ xs) (inl h) = inl (inl h)
  In-append_cases e f (x ∷ xs) (inr h) = elim (In-append_cases e f xs h) [
    | inl k ↦ inl (inr k)
    | inr k ↦ inr k
  ]

  -- What a removal by token leaves.
  pub In-reject :
      (id : ℕ) (e : ℕ × P) (xs : List (ℕ × P)) → In e (reject (has_id id) xs) → In e xs × (e.0 ≢ id)
  In-reject id e [] h = elim h [ ]
  In-reject id e (x ∷ xs) h = elim (Bool-cases (x.0 == id)) [
    | inl t ↦
        let k : In e (reject (has_id id) xs) = rw t at h in
        let (i, ne) = In-reject id e xs k in (inr i, ne)
    | inr t ↦ kept (==-false→ne _ _ t) (rw t at h) (In-reject id e xs)
  ]
    where
      kept :
          x.0 ≢ id
          → In e (x ∷ reject (has_id id) xs)
          → (In e (reject (has_id id) xs) → In e xs × (e.0 ≢ id))
          → In e (x ∷ xs) × (e.0 ≢ id)
      kept ne (inl p) ih = (inl p, λ q. ne (ap (λ (z : ℕ × P). z.0) p ∙ q))
      kept ne (inr k) ih = let (i, away) = ih k in (inr i, away)

  pub In-reject_of :
      (id : ℕ) (e : ℕ × P) (xs : List (ℕ × P)) → In e xs → e.0 ≢ id → In e (reject (has_id id) xs)
  In-reject_of id e [] h ne = h
  In-reject_of id e (x ∷ xs) (inl p) ne =
      let other : x.0 ≢ id = λ q. ne (sym (ap (λ (z : ℕ × P). z.0) p) ∙ q) in
      rw (ne→==-false x.0 id other) (inl p)
  In-reject_of id e (x ∷ xs) (inr h) ne =
      let rest = In-reject_of id e xs h ne in
      elim (Bool-cases (x.0 == id)) [ inl t ↦ rw t rest | inr t ↦ rw t (inr rest) ]

  pub Distinct-reject :
      (id : ℕ) (xs : List (ℕ × P)) → Distinct xs → Distinct (reject (has_id id) xs)
  Distinct-reject id [] h = tt
  Distinct-reject id (x ∷ xs) h =
      let rest = Distinct-reject id xs h.1 in
      elim (Bool-cases (x.0 == id)) [
        | inl t ↦ rw t rest
        | inr t ↦ rw t ((λ e k. h.0 e (In-reject id e xs k).0), rest)
      ]

  pub Distinct-append :
      (f : ℕ × P) (xs : List (ℕ × P))
      → Distinct xs
      → ((e : ℕ × P) → In e xs → e.0 ≢ f.0)
      → Distinct (xs ++ f ∷ [])
  Distinct-append f [] h away = (λ e k. elim k [ ], tt)
  Distinct-append f (x ∷ xs) h away = (apart, Distinct-append f xs h.1 (λ e k. away e (inr k)))
    where
      apart : (e : ℕ × P) → In e (xs ++ f ∷ []) → e.0 ≢ x.0
      apart e k = elim (In-append_cases e f xs k) [
        | inl i ↦ h.0 e i
        | inr p ↦ λ q. away x (inl refl) (sym q ∙ sym (ap (λ (z : ℕ × P). z.0) p))
      ]

  pub queued-In :
      (id : ℕ) (xs : List (ℕ × P)) → queued id xs ≡ true → (e : ℕ × P) × In e xs × (e.0 ≡ id)
  queued-In id [] h = cc
  queued-In id (x ∷ xs) h = elim (Bool-cases (x.0 == id)) [
    | inl t ↦ (x, inl refl, ==→eq _ _ t)
    | inr t ↦ let (e, i, p) = queued-In id xs (rw t at h) in (e, inr i, p)
  ]

  -- A token that no entry has removes nothing.
  pub reject-absent :
      (id : ℕ) (xs : List (ℕ × P)) → ((e : ℕ × P) → In e xs → e.0 ≢ id) → reject (has_id id) xs ≡ xs
  reject-absent id [] away = refl
  reject-absent id (x ∷ xs) away =
      rw (ne→==-false x.0 id (away x (inl refl)))
        (ap (◌∷◌ x) (reject-absent id xs (λ e k. away e (inr k))))
