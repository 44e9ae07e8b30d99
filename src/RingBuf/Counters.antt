-- ===== src/RingBuf/Counters.antt =====
-- The indices are counters modulo 2^64: what the checks of the two halves find out about them.
use cynosure.Prelude.{
  ℕ, zero, suc, ◌+◌, ◌-◌, ◌%◌, ◌^◌, min, ◌≤◌, ◌<◌, ◌≡◌, ◌≢◌, refl, sym, ap, ◌∙◌, subst, ◌⊎◌, inl,
  inr, true, false, leb, leb→le, ◌==◌, ==→eq, ==-false→ne, arith, Bool-cases,
}
use native.Mathlib.Nat.{
  mod-mod_of_dvd, two-pow-succ, dvd_refl, dvd-add, pow-le-pow_right, mod-add-mod,
}
use Prim.Native.Nat.{◌∣◌}
use cynosure.RingBuf.{
  Shared, Producer, Consumer, wrapping_add, wrapping_sub, power_below, check_room, check_room_slice,
  check_item, check_items,
}

pub diff_lem : (a b : ℕ) → b ≤ a → a ≤ b + 2 ^ 63 → wrapping_sub (a % 2 ^ 64) (b % 2 ^ 64) ≡ a - b
diff_lem a b h k = omega arith

pub sum_lem : (a k : ℕ) → wrapping_add (a % 2 ^ 64) k ≡ (a + k) % 2 ^ 64
sum_lem a k = mod-add-mod a (2 ^ 64) k

pub same_lem : (a b : ℕ) → b ≤ a → a ≤ b + 2 ^ 63 → b % 2 ^ 64 ≡ a % 2 ^ 64 → b ≡ a
same_lem a b h k e = omega arith

pub leb-false→lt : (a b : ℕ) → leb a b ≡ false → b < a
leb-false→lt a b h = ground arith

module _ {T : Type 0} (s : Shared T) (w r : ℕ) (read_at : s.read_index ≡ r % 2 ^ 64) (r_le : r ≤ w)
    (small : s.capacity ≤ 2 ^ 63) where
  -- What the producer knows after a check: a read count that was right at some time.
  abbrev pub Seen : Producer → ℕ → Type 0
  Seen p a =
      (p.cached_read ≡ a % 2 ^ 64) × (a ≤ r) × (w ≤ a + s.capacity) × (p.cached_write ≡ w % 2 ^ 64)

  pub check_room_lem :
      (p : Producer) (a : ℕ)
      → Seen p a
      → w ≤ r + s.capacity
      → let (room, p') = check_room s p in
        ((b : ℕ) × Seen p' b × ((room ≡ true) × (w + 1 ≤ b + s.capacity)))
        ⊎ (Seen p' r × ((room ≡ false) × (w ≡ r + s.capacity)))
  unfolding check_room
  check_room_lem p a (at, le, fits, own) bound =
      elim (Bool-cases (leb s.capacity (wrapping_sub p.cached_write p.cached_read))) [
        | inr e ↦
            let d : wrapping_sub p.cached_write p.cached_read ≡ w - a =
              rw (own, at) (diff_lem w a (omega arith) (omega arith)) in
            rw e (inl (a, (at, le, fits, own), (refl, omega (arith, leb-false→lt _ _ e, d))))
        | inl e ↦
            let d : wrapping_sub p.cached_write s.read_index ≡ w - r =
              rw (own, read_at) (diff_lem w r r_le (omega arith)) in
            rw e (elim (Bool-cases (leb s.capacity (wrapping_sub p.cached_write s.read_index))) [
              | inl f ↦
                  rw f (
                    inr
                      ((read_at, omega arith, bound, own), (refl, omega (arith, leb→le _ _ f, d))))
              | inr f ↦ rw f (
                  inl (
                    r,
                    (read_at, omega arith, bound, own),
                    (refl, omega (arith, leb-false→lt _ _ f, d)),
                  ))
            ])
      ]

  -- The slice check grants at most what is asked for and what there is room for; it grants nothing to
  -- somebody only if nothing is asked for or the ring is full.
  pub check_room_slice_lem :
      (p : Producer) (a len : ℕ)
      → Seen p a
      → w ≤ r + s.capacity
      → let (granted, p') = check_room_slice s p len in
        (b : ℕ) × Seen p' b
        × ((granted ≤ len)
            × (w + granted ≤ b + s.capacity)
            × ((0 < granted) ⊎ ((len ≡ 0) ⊎ (w ≡ r + s.capacity))))
  unfolding check_room_slice
  check_room_slice_lem p a len (at, le, fits, own) bound = elim (Bool-cases (len == 0)) [
    | inl z ↦ rw z (a, (at, le, fits, own), (omega arith, omega arith, inr (inl (==→eq len 0 z))))
    | inr z ↦
        let d : wrapping_sub p.cached_write p.cached_read ≡ w - a =
          rw (own, at) (diff_lem w a (omega arith) (omega arith)) in
        let d2 : wrapping_sub p.cached_write s.read_index ≡ w - r =
          rw (own, read_at) (diff_lem w r r_le (omega arith)) in
        let some_asked = ==-false→ne len 0 z in
        rw (z, d, d2)
          (elim (Bool-cases (s.capacity - (w - a) == 0)) [
            | inl f ↦ rw f (
              r,
              (read_at, omega arith, bound, own),
              (omega arith, omega arith, again some_asked),
            )
            | inr f ↦ rw f (
              a,
              (at, le, fits, own),
              (omega arith, omega arith, inl (omega (arith, ==-false→ne _ 0 f, some_asked))),
            )
          ])
  ]
    where
      again : len ≢ 0 → (0 < min len (s.capacity - (w - r))) ⊎ ((len ≡ 0) ⊎ (w ≡ r + s.capacity))
      again asked = elim (Bool-cases (s.capacity - (w - r) == 0)) [
        | inl f ↦ inr (inr (omega (arith, ==→eq _ 0 f)))
        | inr f ↦ inl (omega (arith, ==-false→ne _ 0 f))
      ]

module _ {T : Type 0} (s : Shared T) (w r : ℕ) (write_at : s.write_index ≡ w % 2 ^ 64)
    (r_le : r ≤ w) (small : s.capacity ≤ 2 ^ 63) (bound : w ≤ r + s.capacity) where
  abbrev pub Known : Consumer → ℕ → Type 0
  Known c b = (c.cached_write ≡ b % 2 ^ 64) × (r ≤ b) × (b ≤ w) × (c.cached_read ≡ r % 2 ^ 64)

  pub check_item_lem :
      (c : Consumer) (a : ℕ)
      → Known c a
      → let (found, c') = check_item s c in
        ((b : ℕ) × Known c' b × ((found ≡ true) × (r + 1 ≤ b)))
        ⊎ (Known c' w × ((found ≡ false) × (w ≡ r)))
  unfolding check_item
  check_item_lem c a (at, le, most, own) = elim (Bool-cases (c.cached_read == c.cached_write)) [
    | inr e ↦
        let ne : r ≢ a = λ q. ==-false→ne _ _ e (own ∙ ap (λ z. z % 2 ^ 64) q ∙ sym at) in
        rw e (inl (a, (at, le, most, own), (refl, omega arith)))
    | inl e ↦ rw e (elim (Bool-cases (c.cached_read == s.write_index)) [
      | inl f ↦
          let same : r ≡ w = same_lem w r r_le (omega arith) (sym own ∙ ==→eq _ _ f ∙ write_at) in
          rw f (inr ((write_at, r_le, omega arith, own), (refl, sym same)))
      | inr f ↦
          let ne : r ≢ w = λ q. ==-false→ne _ _ f (own ∙ ap (λ z. z % 2 ^ 64) q ∙ sym write_at) in
          rw f (inl (w, (write_at, r_le, omega arith, own), (refl, omega arith)))
    ])
  ]

  pub check_items_lem :
      (c : Consumer) (a len : ℕ)
      → Known c a
      → let (granted, c') = check_items s c len in
        (b : ℕ) × Known c' b
        × ((granted ≤ len) × (r + granted ≤ b) × ((0 < granted) ⊎ ((len ≡ 0) ⊎ (w ≡ r))))
  unfolding check_items
  check_items_lem c a len (at, le, most, own) = elim (Bool-cases (len == 0)) [
    | inl z ↦ rw z (a, (at, le, most, own), (omega arith, omega arith, inr (inl (==→eq len 0 z))))
    | inr z ↦
        let d : wrapping_sub c.cached_write c.cached_read ≡ a - r =
          rw (own, at) (diff_lem a r le (omega arith)) in
        let d2 : wrapping_sub s.write_index c.cached_read ≡ w - r =
          rw (own, write_at) (diff_lem w r r_le (omega arith)) in
        let asked = ==-false→ne len 0 z in
        rw (z, d, d2)
          (elim (Bool-cases (a - r == 0)) [
            | inl f ↦
                rw f
                  (w, (write_at, r_le, omega arith, own), (omega arith, omega arith, again asked))
            | inr f ↦ rw f (
              a,
              (at, le, most, own),
              (omega arith, omega arith, inl (omega (arith, ==-false→ne _ 0 f, asked))),
            )
          ])
  ]
    where
      again : len ≢ 0 → (0 < min len (w - r)) ⊎ ((len ≡ 0) ⊎ (w ≡ r))
      again asked = elim (Bool-cases (w - r == 0)) [
        | inl f ↦ inr (inr (omega (arith, ==→eq _ 0 f)))
        | inr f ↦ inl (omega (arith, ==-false→ne _ 0 f))
      ]

divides : (d k : ℕ) → 2 ^ k ∣ 2 ^ (d + k)
divides zero k = let e : k ≡ 0 + k = omega arith in subst (λ z. 2 ^ k ∣ 2 ^ z) e (dvd_refl (2 ^ k))
divides (suc d) k =
    let e : suc (d + k) ≡ suc d + k = omega arith in
    subst (λ z. 2 ^ k ∣ 2 ^ z) e
      (subst (λ z. 2 ^ k ∣ z) (sym (two-pow-succ (d + k)))
        (dvd-add (2 ^ k) (divides d k) (divides d k)))

-- A capacity that `new` accepts divides 2 ^ 64, so that the wrap of the counters does not move a slot.
pub power_below_lem : (k n : ℕ) → k ≤ 64 → power_below k n ≡ true → (n ∣ 2 ^ 64) × (n ≤ 2 ^ 63)
unfolding power_below
power_below_lem zero n h e = absurd (cc)
power_below_lem (suc k) n h e = elim (Bool-cases (n == 2 ^ k)) [
  | inl f ↦
      let same : 2 ^ k ≡ n = sym (==→eq n (2 ^ k) f) in
      let total : 64 - k + k ≡ 64 = omega arith in
      (
        subst (λ z. z ∣ 2 ^ 64) same (subst (λ z. 2 ^ k ∣ 2 ^ z) total (divides (64 - k) k)),
        subst (λ z. z ≤ 2 ^ 63) same
            (pow-le-pow_right {n = 2} (omega arith) {i = k} {j = 63} (omega arith)),
      )
  | inr f ↦ power_below_lem k n (omega arith) (rw f at e)
]

pub wrap-mod : (n x : ℕ) → n ∣ 2 ^ 64 → x % 2 ^ 64 % n ≡ x % n
wrap-mod n x h = mod-mod_of_dvd n x h
