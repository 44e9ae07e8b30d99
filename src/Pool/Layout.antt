-- ===== src/Pool/Layout.antt =====
-- The layouts that the asserts of `AlignedBuffer` let pass.
use cynosure.Prelude.{
  ℕ, zero, suc, inl, inr, ◌+◌, ◌*◌, ◌^◌, ◌≤◌, ◌<◌, ◌≡◌, refl, ap, true, false, arith, lt→ltb,
  le→leb, ◌==◌, ==→eq, ==-false→ne, Bool-cases,
}
use cynosure.RingBuf.{power_below}
use cynosure.Pool.{Element, valid_layout}

power_below-pow : (j k : ℕ) → k < j → power_below j (2 ^ k) ≡ true
unfolding power_below
power_below-pow zero k h = absurd (omega (arith, h))
power_below-pow (suc j) k h = elim (Bool-cases (2 ^ k == 2 ^ j)) [
  | inl e ↦ rw e refl
  | inr e ↦ let less : k < j = below e in rw (e, power_below-pow j k less) refl
]
  where
    below : (2 ^ k == 2 ^ j) ≡ false → k < j
    below e = elim (Bool-cases (k == j)) [
      | inl same ↦ absurd (==-false→ne _ _ e (ap (λ z. 2 ^ z) (==→eq k j same)))
      | inr apart ↦ ground (arith, apart, h)
    ]

pub valid_layout_lem :
    (element : Element) (size k : ℕ)
    → 0 < size
    → 0 < element.size
    → k < 64
    → element.align ≤ 2 ^ k
    → size * element.size + 2 ^ k ≤ 2 ^ 63
    → valid_layout element size (2 ^ k) ≡ true
unfolding valid_layout
valid_layout_lem element size k some_size bytes word aligned fits =
    rw
      (
        lt→ltb 0 size some_size,
        lt→ltb 0 element.size bytes,
        power_below-pow 64 k word,
        le→leb element.align (2 ^ k) aligned,
        le→leb (size * element.size + 2 ^ k) (2 ^ 63) fits,
      )
      refl
