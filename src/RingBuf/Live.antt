-- ===== src/RingBuf/Live.antt =====
-- The slots that hold the elements between the two indices, and what the accesses do to them.
use cynosure.Prelude.{
  ℕ, zero, suc, ◌+◌, ◌-◌, ◌%◌, ◌≤◌, ◌<◌, ◌≡◌, ◌≢◌, refl, sym, ap, ◌∙◌, Option, none, some, List, [],
  ◌∷◌, ◌++◌, length, get_elem?, get_elem?-lt, get_elem?-append_left, get_elem?-append_right, lt→ltb,
  update, update_self, update_ne, arith, done, Returns,
}
use native.Mathlib.Nat.{mod-lt}
use native.Mathlib.Decide.{dec_lt}
use cynosure.Queue.Slots.{slot}
use cynosure.RingBuf.{write_slot, read_slot, write_slice, read_slice}
use cynosure.RingBuf.Slices.{mod-slot, mod-apart, write_slice_lem, read_slice_lem}

module _ {T : Type 0} (n : ℕ) where
  -- The slots from that of the counter `a` on hold the list.
  abbrev pub Live : (ℕ → Option T) → ℕ → List T → Type 0
  Live slots a l = (j : ℕ) (x : T) → get_elem? l j ≡ some x → slots ((a + j) % n) ≡ some x

  pub Live-tail :
      (slots : ℕ → Option T) (a : ℕ) (vs l : List T)
      → Live slots a (vs ++ l)
      → Live slots (a + length vs) l
  Live-tail slots a vs l live j x h =
      let e : a + length vs + j ≡ a + (length vs + j) = omega arith in
      ap (λ z. slots (z % n)) e ∙ live (length vs + j) x (get_elem?-append_right vs l j ∙ h)

  pub Live-front :
      (slots : ℕ → Option T) (a : ℕ) (vs l : List T) → Live slots a (vs ++ l) → Live slots a vs
  Live-front slots a vs l live j x h =
      live j x (get_elem?-append_left vs l j (get_elem?-lt vs j x h) ∙ h)

  -- What was there stays if other slots are written, and the new elements are there too.
  pub Live-join :
      (slots slots' : ℕ → Option T) (a : ℕ) (l vs : List T)
      → 0 < n
      → length l + length vs ≤ n
      → Live slots a l
      → ((j : ℕ) (x : T)
          → get_elem? vs j ≡ some x
          → slots' (slot n ((a + length l) % n) j) ≡ some x)
      → ((k : ℕ)
          → ((j : ℕ) → j < length vs → k ≢ slot n ((a + length l) % n) j)
          → slots' k ≡ slots k)
      → Live slots' a (l ++ vs)
  Live-join slots slots' a l vs pos fits live put keep j x h = elim (dec_lt j (length l)) [
    | yes old ↦
        keep ((a + j) % n) (λ i less z.
          mod-apart n (a + j) (a + length l + i) pos (omega arith) (omega arith)
            (z ∙ sym (mod-slot n (a + length l) i pos (omega arith))))
        ∙ live j x (sym (get_elem?-append_left l vs j old) ∙ h)
    | no new ↦
        let i : ℕ = j - length l in
        let e : j ≡ length l + (j - length l) = omega arith in
        let at : get_elem? vs (j - length l) ≡ some x =
          sym (get_elem?-append_right l vs (j - length l)) ∙ ap (get_elem? (l ++ vs)) (sym e) ∙ h in
        let less = get_elem?-lt vs (j - length l) x at in
        let e2 : a + j ≡ a + length l + (j - length l) = omega arith in
        ap (λ z. slots' (z % n)) e2
        ∙ ap slots' (mod-slot n (a + length l) (j - length l) pos (omega (arith, less)))
        ∙ put (j - length l) x at
  ]

  pub write_slice-Live :
      (slots : ℕ → Option T) (a : ℕ) (l vs : List T)
      → 0 < n
      → length l + length vs ≤ n
      → Live slots a l
      → Returns (write_slice n slots ((a + length l) % n) vs) (λ slots'. Live slots' a (l ++ vs))
  write_slice-Live slots a l vs pos fits live =
      let (s, e, (put, keep)) =
        write_slice_lem n slots ((a + length l) % n) vs (mod-lt (a + length l) pos) (omega arith) in
      (s, e, Live-join slots s a l vs pos fits live put keep)

  pub write_slot-Live :
      (slots : ℕ → Option T) (a : ℕ) (l : List T) (v : T)
      → 0 < n
      → length l + 1 ≤ n
      → Live slots a l
      → Returns (write_slot n slots ((a + length l) % n) v) (λ slots'. Live slots' a (l ++ v ∷ []))
  unfolding write_slot
  write_slot-Live slots a l v pos fits live =
      rw (lt→ltb _ n at_lt)
        (_, refl, Live-join slots (update slots at (some v)) a l (v ∷ []) pos fits live put keep)
    where
      at : ℕ
      at = (a + length l) % n

      at_lt : at < n
      at_lt = mod-lt (a + length l) pos

      put :
          (j : ℕ) (x : T)
          → get_elem? (v ∷ []) j ≡ some x
          → update slots at (some v) (slot n at j) ≡ some x
      put zero x h =
          let e : slot n at 0 ≡ at = ground (arith, at_lt) in
          ap (update slots at (some v)) e ∙ update_self slots at (some v) ∙ h
      put (suc j) x h = absurd (cc)

      keep :
          (k : ℕ)
          → ((j : ℕ) → j < length (v ∷ []) → k ≢ slot n at j)
          → update slots at (some v) k ≡ slots k
      keep k away =
          let e : slot n at 0 ≡ at = ground (arith, at_lt) in
          update_ne slots at k (some v) (λ z. away 0 (omega arith) (sym z ∙ sym e))

  pub read_slice-Live :
      (slots : ℕ → Option T) (a : ℕ) (vs : List T)
      → 0 < n
      → length vs ≤ n
      → Live slots a vs
      → read_slice n slots (a % n) (length vs) ≡ done vs
  read_slice-Live slots a vs pos fits live =
      read_slice_lem n slots (a % n) vs (mod-lt a pos) fits (λ j x h.
        ap slots (sym (mod-slot n a j pos (omega (arith, fits, get_elem?-lt vs j x h))))
        ∙ live j x h)

  -- Taking the first element out leaves the others.
  pub read_slot-Live :
      (slots : ℕ → Option T) (a : ℕ) (v : T) (l : List T)
      → 0 < n
      → length l + 1 ≤ n
      → Live slots a (v ∷ l)
      → Returns (read_slot n slots (a % n)) (λ (x, slots'). (x ≡ v) × Live slots' (a + 1) l)
  unfolding read_slot
  read_slot-Live slots a v l pos fits live =
      let e : a ≡ a + 0 = omega arith in
      let here : slots (a % n) ≡ some v = ap (λ z. slots (z % n)) e ∙ live 0 v refl in
      rw (lt→ltb (a % n) n (mod-lt a pos), here, read_slot)
        (
          _,
          refl,
          (
            refl,
            λ j x h.
                let less = get_elem?-lt l j x h in
                let f : a + 1 + j ≡ a + suc j = omega arith in
                update_ne slots (a % n) ((a + 1 + j) % n) none
                  (mod-apart n a (a + 1 + j) pos (omega arith) (omega (arith, less)))
                ∙ ap (λ z. slots (z % n)) f
                ∙ live (suc j) x h,
          ),
        )
