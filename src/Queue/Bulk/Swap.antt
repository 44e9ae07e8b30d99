-- ===== src/Queue/Bulk/Swap.antt =====
-- `swap` exchanges two elements, and panics exactly outside of the queue.
use cynosure.Prelude.{
  ℕ, ◌+◌, ◌-◌, ◌%◌, ◌≤◌, ◌<◌, ◌≡◌, ◌≢◌, refl, sym, ap, ◌∙◌, subst, inl, inr, Option, some, List,
  arith, length, get_elem?, set, length-set, get_elem?-set_self, get_elem?-set_ne, Bool-cases,
  lt→ltb, eq→==, set-get_elem?, get_elem?-lt, ◌⊎◌, ◌==◌, ==→eq, ==-false→ne, done, panic, Returns,
}
use native.Mathlib.Nat.{mod-eq_of_lt, mod-eq-sub-mod}
use native.Mathlib.Decide.{dec_lt}
use cynosure.Queue.{Queue, inline, heap, len}
use cynosure.Queue.Slots.{slot, slot-lt, slot-injective}
use cynosure.Queue.Holds.{Live, Holds, Repr}
use cynosure.Queue.Bulk.{swap_slots, swap_vec, swap_storage, swap}
use cynosure.Queue.Bulk.Build.{len_lem}

-- The remainder in the code is the slot of the ring.
mod-slot : (n head i : ℕ) → head ≤ n - 1 → i < n → (head + i) % n ≡ slot n head i
mod-slot n head i h k = elim (dec_lt (head + i) n) [
  | yes p ↦ ground (arith, mod-eq_of_lt p)
  | no p ↦ ground (
    arith,
    mod-eq-sub-mod {n = head + i} {m = n} (omega arith),
    mod-eq_of_lt {n = head + i - n} {m = n} (omega arith),
  )
]

module _ {ℓ} {A : Type ℓ} where
  -- the list with two elements exchanged
  abbrev pub exchanged : List A → ℕ → A → ℕ → A → List A
  exchanged xs a x b y = set (set xs a y) b x

  -- Overwriting one element in its slot.
  pub Live-write :
      (n : ℕ) (buf : List (Option A)) (head : ℕ) (xs : List A) (a : ℕ) (y : A)
      → length buf ≡ n
      → head ≤ n - 1
      → length xs ≤ n
      → a < length xs
      → Live n buf head xs
      → Live n (set buf (slot n head a) (some y)) head (set xs a y)
  Live-write n buf head xs a y size hh fits la live i h = elim (Bool-cases (a == i)) [
    | inl e ↦
        let at : a ≡ i = ==→eq a i e in
        subst
          (λ j.
            get_elem? (set buf (slot n head a) (some y)) (slot n head j)
            ≡ some (get_elem? (set xs a y) j))
          at
          (get_elem?-set_self buf _ _ (omega (arith, slot-lt n head a hh (omega arith)))
            ∙ ap some (sym (get_elem?-set_self xs a y la)))
    | inr e ↦
        let ne : a ≢ i = ==-false→ne a i e in
        let lt : i < length xs = omega (arith, length-set xs a y) in
        get_elem?-set_ne buf _ _ (some y)
          (slot-injective n head a i hh (omega arith) (omega arith) ne)
        ∙ live i lt
        ∙ ap some (sym (get_elem?-set_ne xs a i y ne))
  ]

  swap_slots_lem :
      (buf : List (Option A)) (i j : ℕ) (x y : A)
      → get_elem? buf i ≡ some (some x)
      → get_elem? buf j ≡ some (some y)
      → swap_slots buf i j ≡ done (set (set buf i (some y)) j (some x))
  unfolding swap_slots
  swap_slots_lem buf i j x y p q = rw (p, swap_slots, q)

  swap_vec_lem :
      (vec : List A) (i j : ℕ) (x y : A)
      → get_elem? vec i ≡ some x
      → get_elem? vec j ≡ some y
      → swap_vec vec i j ≡ done (exchanged vec i x j y)
  unfolding swap_vec
  swap_vec_lem vec i j x y p q = rw (p, swap_vec, q)

module _ {ℓ} {A : Type ℓ} (n : ℕ) where
  exchanged-Holds :
      (buf : List (Option A)) (head tail k : ℕ) (xs : List A) (a b : ℕ) (x y : A)
      → a < length xs
      → b < length xs
      → Holds n buf head tail k xs
      → Holds n
          (set (set buf (slot n head a) (some y)) (slot n head b) (some x))
          head
          tail
          k
          (exchanged xs a x b y)
  exchanged-Holds buf head tail k xs a b x y la lb h = record {
    size =
        length-set (set buf (slot n head a) (some y)) _ (some x)
        ∙ length-set buf (slot n head a) (some y)
        ∙ h.size;
    count = h.count ∙ sym (length-set (set xs a y) b x ∙ length-set xs a y);
    fits = h.fits;
    head_in = h.head_in;
    tail_at = h.tail_at;
    live =
        Live-write n _ head (set xs a y) b x (length-set buf (slot n head a) (some y) ∙ h.size)
          h.head_in (omega (arith, length-set xs a y, h.count, h.fits))
          (omega (arith, length-set xs a y))
          (Live-write n buf head xs a y h.size h.head_in (omega (arith, h.count, h.fits)) la
            h.live);
  }

  swap_storage_lem :
      (q : Queue A) (xs : List A) (a b : ℕ) (x y : A)
      → get_elem? xs a ≡ some x
      → get_elem? xs b ≡ some y
      → a < length xs
      → b < length xs
      → Repr n q xs
      → Returns (swap_storage n q a b) (λ q'. Repr n q' (exchanged xs a x b y))
  unfolding swap_storage
  swap_storage_lem (heap vec) xs a b x y p q la lb e =
      rw (swap_vec_lem vec a b x y (ap (λ l. get_elem? l a) e ∙ p) (ap (λ l. get_elem? l b) e ∙ q))
        (_, refl, ap (λ l. exchanged l a x b y) e)
  swap_storage_lem (inline buf head tail k) xs a b x y p q la lb h =
      rw
        (
          mod-slot n head a h.head_in (omega (arith, h.count, h.fits)),
          mod-slot n head b h.head_in (omega (arith, h.count, h.fits)),
          swap_slots_lem buf (slot n head a) (slot n head b) x y (h.live a la ∙ ap some p)
              (h.live b lb ∙ ap some q),
        )
        (_, refl, exchanged-Holds buf head tail k xs a b x y la lb h)

  swap_one : (q : Queue A) (a : ℕ) → a < len q → swap n q a a ≡ done q
  unfolding swap
  swap_one q a h = rw (lt→ltb a (len q) h, eq→== a a refl)

  exchanged_one :
      (xs : List A) (a : ℕ) (x y : A)
      → get_elem? xs a ≡ some x
      → get_elem? xs a ≡ some y
      → xs ≡ exchanged xs a x a y
  exchanged_one xs a x y p r =
      sym (ap (λ l. set l a x) (set-get_elem? xs a y r) ∙ set-get_elem? xs a x p)

  -- In range, `swap` exchanges the elements at the two places.
  pub swap_lem :
      (q : Queue A) (xs : List A) (a b : ℕ) (x y : A)
      → get_elem? xs a ≡ some x
      → get_elem? xs b ≡ some y
      → Repr n q xs
      → Returns (swap n q a b) (λ q'. Repr n q' (exchanged xs a x b y))
  unfolding swap
  swap_lem q xs a b x y p r h = elim (Bool-cases (a == b)) [
    | inl e ↦
        let same : a ≡ b = ==→eq a b e in
        subst (λ c. Returns (swap n q a c) (λ q'. Repr n q' (exchanged xs a x c y))) same
          (q, swap_one q a la, subst (Repr n q) (exchanged_one xs a x y p (rw same r)) h)
    | inr e ↦
        rw (lt→ltb a (len q) la, lt→ltb b (len q) lb, e)
          (swap_storage_lem q xs a b x y p r (get_elem?-lt xs a x p) (get_elem?-lt xs b y r) h)
  ]
    where
      la : a < len q
      la = omega (arith, get_elem?-lt xs a x p, len_lem n q xs h)

      lb : b < len q
      lb = omega (arith, get_elem?-lt xs b y r, len_lem n q xs h)

  -- Out of range it panics.
  pub swap-eq-panic :
      (q : Queue A) (xs : List A) (a b : ℕ)
      → Repr n q xs
      → (length xs ≤ a) ⊎ (length xs ≤ b)
      → swap n q a b ≡ panic
  unfolding swap
  swap-eq-panic q xs a b h out = ground (arith, len_lem n q xs h)
