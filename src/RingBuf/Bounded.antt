-- ===== src/RingBuf/Bounded.antt =====
-- A `RingBuf` is a bounded queue: each operation does to the ring what it does to a list.
pub mod Push
pub mod Pop
pub mod Count
use cynosure.Prelude.{
  ℕ, zero, suc, ◌+◌, ◌-◌, ◌%◌, ◌^◌, ◌≤◌, ◌<◌, ◌≡◌, ◌≢◌, refl, sym, ap, ◌∙◌, subst, ◌⊎◌, inl, inr,
  Bool, true, false, not, ◌&&◌, Option, none, some, List, [], ◌∷◌, ◌++◌, take, drop, length, ltb,
  leb, lt→ltb, length-append, length-take, length-drop, take-append-drop, append-nil, append_assoc,
  ◌==◌, ==→eq, if◌then◌else◌, arith, Bool-cases, Exec, done, ◌>>=◌, Returns, Returns-bind,
  Returns-at,
}
use Prim.Native.Nat.{◌∣◌}
use mathlib.Core.List.{head?, tail}
use cynosure.RingBuf
use cynosure.RingBuf.{Shared, Producer, Consumer, wrapping_sub}
use cynosure.RingBuf.Counters.{
  check_room_lem, check_room_slice_lem, check_item_lem, check_items_lem, sum_lem, diff_lem,
  same_lem, wrap-mod,
}
use cynosure.RingBuf.Live.{
  Live, write_slot-Live, write_slice-Live, read_slot-Live, read_slice-Live, Live-front, Live-tail,
}
use cynosure.RingBuf.Operations
use cynosure.RingBuf.Operations.{
  try_push, try_push_slice, try_pop, try_pop_slice, drop_from, drop_shared,
}
use cynosure.RingBuf.Invariant.{Indices, ProducerKnows, ConsumerKnows}

module _ {T : Type 0} (n : ℕ) where
  -- The ring holds this list, after `r` pops.
  abbrev pub HoldsAt : Shared T → Producer → Consumer → List T → ℕ → Type 0
  HoldsAt s p c l r =
      Indices n s (r + length l) r
      × ProducerKnows n p 0 (r + length l) r
      × ConsumerKnows c 0 (r + length l) r
      × Live n s.buffer r l

  abbrev pub Holds : Shared T → Producer → Consumer → List T → Type 0
  Holds s p c l = (r : ℕ) × HoldsAt s p c l r

-- An access at a cached index is one at the slot of the counter.
pub at_slot :
    {A : Type 0} {Q : A → Type 0} (f : ℕ → ℕ → Exec A) (n m index count : ℕ)
    → n ∣ 2 ^ 64
    → m ≡ n
    → index ≡ count % 2 ^ 64
    → Returns (f n (count % n)) Q
    → Returns (f m (index % m)) Q
at_slot {Q} f n m index count wraps size own h =
    subst (λ z. Returns (f z (index % z)) Q) (sym size)
      (subst (λ k. Returns (f n k) Q) (sym (ap (λ z. z % n) own ∙ wrap-mod n count wraps)) h)

-- The same, for an access that returns this value
pub at_slot-eq :
    {A : Type 0} (f : ℕ → ℕ → Exec A) (n m index count : ℕ) (x : A)
    → n ∣ 2 ^ 64
    → m ≡ n
    → index ≡ count % 2 ^ 64
    → f n (count % n) ≡ done x
    → f m (index % m) ≡ done x
at_slot-eq f n m index count x wraps size own h =
    let (y, e, same) = at_slot {Q = λ y. y ≡ x} f n m index count wraps size own (x, h, refl) in
    e ∙ ap done same

pub next_index :
    (index count k : ℕ)
    → index ≡ count % 2 ^ 64
    → RingBuf.wrapping_add index k ≡ (count + k) % 2 ^ 64
next_index index count k own = ap (λ z. RingBuf.wrapping_add z k) own ∙ sum_lem count k

pub pushed_index :
    {T : Type 0} (index r : ℕ) (l items : List T)
    → index ≡ (r + length l) % 2 ^ 64
    → RingBuf.wrapping_add index (length items) ≡ (r + length (l ++ items)) % 2 ^ 64
pushed_index index r l items own =
    let e : r + length l + length items ≡ r + length (l ++ items) =
      omega (arith, length-append l items) in
    next_index index (r + length l) (length items) own ∙ ap (λ z. z % 2 ^ 64) e

pub no_elements : {T : Type 0} (l : List T) → length l ≡ 0 → l ≡ []
no_elements [] e = refl
no_elements (x ∷ l) e = absurd (omega (arith, e))
