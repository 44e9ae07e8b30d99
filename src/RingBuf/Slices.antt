-- ===== src/RingBuf/Slices.antt =====
-- The bulk copies: which slots they write and read.
use cynosure.Prelude.{
  ℕ, zero, suc, ◌+◌, ◌-◌, ◌%◌, min, ◌≤◌, ◌<◌, ◌≡◌, ◌≢◌, refl, sym, ap, ◌∙◌, ◌⊎◌, inl, inr, Option,
  some, List, [], ◌∷◌, ◌++◌, take, drop, length, get_elem?, get_elem?-lt, ltb, lt→ltb, update,
  update_self, update_ne, arith, Bool-cases, done, ◌>>=◌, Returns, length-take, length-drop,
  take-append-drop,
}
use native.Mathlib.Nat.{mod-eq_of_lt, mod-eq-sub-mod, mod-add-mod, mod-lt}
use native.Mathlib.Decide.{dec_lt}
use cynosure.Queue.Slots.{slot, slot-injective}
use cynosure.RingBuf.{write_slot, read_slot, copy_in, copy_out, write_slice, read_slice}

-- Where a counter stands in the ring.
pub mod-slot : (n a j : ℕ) → 0 < n → j < n → (a + j) % n ≡ slot n (a % n) j
mod-slot n a j h k = sym (mod-add-mod a n j) ∙ elim (dec_lt (a % n + j) n) [
  | yes p ↦ ground (arith, mod-eq_of_lt p)
  | no p ↦ ground (
    arith,
    mod-lt a h,
    mod-eq-sub-mod {n = a % n + j} {m = n} (omega arith),
    mod-eq_of_lt {n = a % n + j - n} {m = n} (omega (arith, mod-lt a h)),
  )
]

-- Counters less than `n` apart stand in different slots.
pub mod-apart : (n a b : ℕ) → 0 < n → a < b → b < a + n → a % n ≢ b % n
mod-apart n a b h k l e =
    slot-injective n (a % n) 0 (b - a) (omega (arith, mod-lt a h)) (omega arith) (omega arith)
      (omega arith)
      (sym (mod-slot n a 0 h h)
        ∙ ap (λ z. z % n) (omega arith)
        ∙ e
        ∙ ap (λ z. z % n) (omega arith)
        ∙ mod-slot n a (b - a) h (omega arith))

module _ {T : Type 0} where
  get_elem?-take : (xs : List T) (c j : ℕ) → j < c → get_elem? (take c xs) j ≡ get_elem? xs j
  get_elem?-take xs zero j h = absurd (omega arith)
  get_elem?-take [] (suc c) j h = refl
  get_elem?-take (x ∷ xs) (suc c) zero h = refl
  get_elem?-take (x ∷ xs) (suc c) (suc j) h = get_elem?-take xs c j (omega arith)

  get_elem?-drop : (xs : List T) (c j : ℕ) → get_elem? (drop c xs) j ≡ get_elem? xs (c + j)
  get_elem?-drop xs zero j = ap (get_elem? xs) (omega arith)
  get_elem?-drop [] (suc c) j = refl
  get_elem?-drop (x ∷ xs) (suc c) j =
      let e : suc c + j ≡ suc (c + j) = omega arith in
      get_elem?-drop xs c j ∙ sym (ap (get_elem? (x ∷ xs)) e)

  copy_in_lem :
      (n : ℕ) (slots : ℕ → Option T) (i : ℕ) (vs : List T)
      → i + length vs ≤ n
      → Returns (copy_in n slots i vs) (λ slots'.
        ((j : ℕ) (x : T) → get_elem? vs j ≡ some x → slots' (i + j) ≡ some x)
        × ((k : ℕ) → (k < i) ⊎ (i + length vs ≤ k) → slots' k ≡ slots k))
  unfolding copy_in write_slot
  copy_in_lem n slots i [] h = (slots, refl, ((λ j x e. absurd (cc)), (λ k _. refl)))
  copy_in_lem n slots i (v ∷ vs) h =
      let (s, e, (put, keep)) = copy_in_lem n (update slots i (some v)) (i + 1) vs (omega arith) in
      let low : i < n = omega arith in
      rw (lt→ltb i n low, e) (s, refl, (there s put keep, others s keep))
    where
      there :
          (s : ℕ → Option T)
          → ((j : ℕ) (x : T) → get_elem? vs j ≡ some x → s (i + 1 + j) ≡ some x)
          → ((k : ℕ) → (k < i + 1) ⊎ (i + 1 + length vs ≤ k) → s k ≡ update slots i (some v) k)
          → (j : ℕ) (x : T) → get_elem? (v ∷ vs) j ≡ some x
          → s (i + j) ≡ some x
      there s put keep zero x e =
          let z : i + 0 ≡ i = omega arith in
          ap s z ∙ keep i (inl (omega arith)) ∙ update_self slots i (some v) ∙ e
      there s put keep (suc j) x e =
          let z : i + suc j ≡ i + 1 + j = omega arith in ap s z ∙ put j x e

      others :
          (s : ℕ → Option T)
          → ((k : ℕ) → (k < i + 1) ⊎ (i + 1 + length vs ≤ k) → s k ≡ update slots i (some v) k)
          → (k : ℕ) → (k < i) ⊎ (i + length (v ∷ vs) ≤ k)
          → s k ≡ slots k
      others s keep k (inl p) =
          keep k (inl (omega arith)) ∙ update_ne slots i k (some v) (omega arith)
      others s keep k (inr p) =
          keep k (inr (omega arith)) ∙ update_ne slots i k (some v) (omega arith)

  copy_out_lem :
      (n : ℕ) (slots : ℕ → Option T) (i : ℕ) (vs : List T)
      → i + length vs ≤ n
      → ((j : ℕ) (x : T) → get_elem? vs j ≡ some x → slots (i + j) ≡ some x)
      → copy_out n slots i (length vs) ≡ done vs
  unfolding copy_out read_slot
  copy_out_lem n slots i [] h at = refl
  copy_out_lem n slots i (v ∷ vs) h at =
      let low : i < n = omega arith in
      let z : i ≡ i + 0 = omega arith in
      let here : slots i ≡ some v = ap slots z ∙ at 0 v refl in
      rw
        (
          lt→ltb i n low,
          here,
          read_slot,
          copy_out_lem n slots (i + 1) vs (omega arith)
              (λ j x e. let z : i + 1 + j ≡ i + suc j = omega arith in ap slots z ∙ at (suc j) x e),
        )
        refl

  -- The two copies put element `j` into the slot `j` places on, and change no other slot.
  pub write_slice_lem :
      (n : ℕ) (slots : ℕ → Option T) (i : ℕ) (vs : List T)
      → i < n
      → length vs ≤ n
      → Returns (write_slice n slots i vs) (λ slots'.
        ((j : ℕ) (x : T) → get_elem? vs j ≡ some x → slots' (slot n i j) ≡ some x)
        × ((k : ℕ) → ((j : ℕ) → j < length vs → k ≢ slot n i j) → slots' k ≡ slots k))
  unfolding write_slice
  write_slice_lem n slots i vs hi fits = elim (Bool-cases (ltb c (length vs))) [
    | inr e ↦
        let all : length vs ≤ n - i = ground arith in
        let (s, f, (put, keep)) =
          copy_in_lem n slots i (take c vs) (omega (arith, length-take c vs)) in
        rw (f, e)
          (
            s,
            refl,
            (
              (λ j x h.
                  let l = get_elem?-lt vs j x h in
                  let z : slot n i j ≡ i + j = ground (arith, l) in
                  ap s z ∙ put j x (get_elem?-take vs c j (omega (arith, l)) ∙ h)),
              (λ k away. keep k (outside k away all)),
            ),
          )
    | inl e ↦
        let wrap : n - i < length vs = ground arith in
        let (s, f, (put, keep)) =
          copy_in_lem n slots i (take c vs) (omega (arith, length-take c vs)) in
        let (t, g, (put2, keep2)) =
          copy_in_lem n s 0 (drop c vs) (omega (arith, length-drop c vs)) in
        rw (f, e)
          (
            t,
            g,
            (
              (λ j x h. elim (dec_lt j (n - i)) [
                | yes l ↦
                    let z : slot n i j ≡ i + j = ground (arith, l) in
                    ap t z
                    ∙ keep2 (i + j) (inr (omega (arith, length-drop c vs)))
                    ∙ put j x (get_elem?-take vs c j (omega arith) ∙ h)
                | no l ↦
                    let m = get_elem?-lt vs j x h in
                    let z : slot n i j ≡ 0 + (j - c) = ground (arith, l, m) in
                    let y : c + (j - c) ≡ j = omega arith in
                    ap t z ∙ put2 (j - c) x (get_elem?-drop vs c (j - c) ∙ ap (get_elem? vs) y ∙ h)
              ]),
              (λ k away. keep2 k (inr (past k away wrap)) ∙ keep k (before k away wrap)),
            ),
          )
  ]
    where
      c : ℕ
      c = min (n - i) (length vs)

      outside :
          (k : ℕ)
          → ((j : ℕ) → j < length vs → k ≢ slot n i j)
          → length vs ≤ n - i
          → (k < i) ⊎ (i + length (take c vs) ≤ k)
      outside k away all = elim (dec_lt k i) [
        | yes l ↦ inl l
        | no l ↦ elim (dec_lt k (i + length vs)) [
          | yes m ↦ absurd (away (k - i) (omega arith) (ground arith))
          | no m ↦ inr (omega (arith, length-take c vs))
        ]
      ]

      past :
          (k : ℕ)
          → ((j : ℕ) → j < length vs → k ≢ slot n i j)
          → n - i < length vs
          → 0 + length (drop c vs) ≤ k
      past k away wrap = elim (dec_lt k (length vs - (n - i))) [
        | yes l ↦ absurd (away (n - i + k) (omega arith) (ground arith))
        | no l ↦ omega (arith, length-drop c vs)
      ]

      before :
          (k : ℕ)
          → ((j : ℕ) → j < length vs → k ≢ slot n i j)
          → n - i < length vs
          → (k < i) ⊎ (i + length (take c vs) ≤ k)
      before k away wrap = elim (dec_lt k i) [
        | yes l ↦ inl l
        | no l ↦ elim (dec_lt k n) [
          | yes m ↦ absurd (away (k - i) (omega arith) (ground arith))
          | no m ↦ inr (omega (arith, length-take c vs))
        ]
      ]

  -- The two copies out return the elements of the slots from the `i`-th on.
  pub read_slice_lem :
      (n : ℕ) (slots : ℕ → Option T) (i : ℕ) (vs : List T)
      → i < n
      → length vs ≤ n
      → ((j : ℕ) (x : T) → get_elem? vs j ≡ some x → slots (slot n i j) ≡ some x)
      → read_slice n slots i (length vs) ≡ done vs
  unfolding read_slice
  read_slice_lem n slots i vs hi fits at = elim (Bool-cases (ltb c (length vs))) [
    | inr e ↦
        let all : length vs ≤ n - i = ground arith in
        let z : c ≡ length vs = omega arith in
        rw
          (
            e,
            z,
            copy_out_lem n slots i vs (omega arith) (λ j x h.
                let l = get_elem?-lt vs j x h in
                let y : i + j ≡ slot n i j = ground (arith, l) in ap slots y ∙ at j x h),
          )
          refl
    | inl e ↦
        let wrap : n - i < length vs = ground arith in
        let z : c ≡ length (take c vs) = omega (arith, length-take c vs) in
        let z2 : length vs - c ≡ length (drop c vs) = omega (arith, length-drop c vs) in
        rw e (
          ap
            (λ m. copy_out n slots i m >>= λ first.
              copy_out n slots 0 (length vs - c) >>= λ rest. done (first ++ rest))
            z
          ∙ ap
              (λ r.
                r >>= λ first. copy_out n slots 0 (length vs - c) >>= λ rest. done (first ++ rest))
              (copy_out_lem n slots i (take c vs) (omega (arith, length-take c vs)) (λ j x h.
                let l = get_elem?-lt (take c vs) j x h in
                let y : i + j ≡ slot n i j = ground (arith, l, length-take c vs) in
                ap slots y
                ∙ at j x (sym (get_elem?-take vs c j (omega (arith, l, length-take c vs))) ∙ h)))
          ∙ ap (λ m. copy_out n slots 0 m >>= λ rest. done (take c vs ++ rest)) z2
          ∙ ap (λ r. r >>= λ rest. done (take c vs ++ rest))
              (copy_out_lem n slots 0 (drop c vs) (omega (arith, length-drop c vs)) (λ j x h.
                let l = get_elem?-lt (drop c vs) j x h in
                let y : 0 + j ≡ slot n i (c + j) = ground (arith, l, length-drop c vs) in
                ap slots y ∙ at (c + j) x (sym (get_elem?-drop vs c j) ∙ h)))
          ∙ ap done (take-append-drop c vs))
  ]
    where
      c : ℕ
      c = min (n - i) (length vs)
