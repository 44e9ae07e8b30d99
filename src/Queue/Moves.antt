-- ===== src/Queue/Moves.antt =====
-- The moves of one element at an end of the ring keep the representation.
use cynosure.Prelude.{
  ℕ, ◌+◌, ◌-◌, ◌<◌, ◌≡◌, refl, sym, ap, ◌∙◌, subst, ◌⊎◌, inl, inr, Option, none, some, List, [],
  ◌∷◌, ◌++◌, arith, length, set, length-append, length-set, length-replicate, leb, Bool-cases, done,
  panic, Returns,
}
use cynosure.Queue.{step_up, step_down, new, with_capacity, drain_slots}
use cynosure.Queue.Slots.{slot, step_up-le, step_down-le}
use cynosure.Queue.Holds.{Live, Holds, Repr}
use cynosure.Queue.Live.{Live-push_back, Live-push_front, Live-pop_front, Live-pop_back}
use cynosure.Queue.Drain.{drain_slots_lem}

pub new-Repr {ℓ} : (A : Type ℓ) (n : ℕ) → Repr n (new {A = A} n) []
unfolding new
new-Repr A n = record {
  size = length-replicate n none;
  count = refl;
  fits = omega arith;
  head_in = omega arith;
  tail_at = ground arith;
  live = λ i h. elim h [ ];
}

-- A new queue is empty; one that asks for more than an allocation can hold panics.
pub with_capacity-Repr {ℓ} :
    (A : Type ℓ) (n most capacity : ℕ)
    → ((with_capacity {A = A} n most capacity ≡ panic) × (n < capacity) × (most < capacity))
      ⊎ Returns (with_capacity {A = A} n most capacity) (λ q. Repr n q [])
unfolding with_capacity
with_capacity-Repr A n most capacity = elim (Bool-cases (leb capacity n)) [
  | inl e ↦ rw e (inr (_, refl, new-Repr A n))
  | inr e ↦ elim (Bool-cases (leb capacity most)) [
    | inl f ↦ rw (e, f) (inr (_, refl, refl))
    | inr f ↦ rw (e, f) (inl (refl, ground (arith, e), ground (arith, f)))
  ]
]

module _ {ℓ} {A : Type ℓ} (n : ℕ) where
  pub drain_Holds :
      (buf : List (Option A)) (head tail len : ℕ) (xs out : List A)
      → Holds n buf head tail len xs
      → (t : List (Option A)) × (drain_slots n buf head len out ≡ done (out ++ xs, t))
        × (length t ≡ n)
  drain_Holds buf head tail len xs out h =
      let ((ys, t), e, (p, k)) =
        drain_slots_lem n buf head xs out h.head_in (omega (arith, h.count, h.fits)) h.live in
      (t, rw h.count (e ∙ ap (λ zs. done (zs, t)) p), k ∙ h.size)

  pub push_back_Holds :
      (buf : List (Option A)) (head tail len : ℕ) (xs : List A) (v : A)
      → len < n
      → Holds n buf head tail len xs
      → Holds n (set buf tail (some v)) head (step_up n tail) (len + 1) (xs ++ v ∷ [])
  push_back_Holds buf head tail len xs v room h = record {
    size = length-set buf tail (some v) ∙ h.size;
    count = omega (arith, h.count, length-append xs (v ∷ []));
    fits = omega arith;
    head_in = h.head_in;
    tail_at = ground (arith, h.tail_at, h.head_in);
    live =
        subst (λ t. Live n (set buf t (some v)) head (xs ++ v ∷ []))
          (ap (slot n head) (sym h.count) ∙ sym h.tail_at)
          (Live-push_back n buf head xs v h.size h.head_in (omega (arith, h.count)) h.live);
  }

  pub push_front_Holds :
      (buf : List (Option A)) (head tail len : ℕ) (xs : List A) (v : A)
      → len < n
      → Holds n buf head tail len xs
      → Holds n (set buf (step_down n head) (some v)) (step_down n head) tail (len + 1) (v ∷ xs)
  push_front_Holds buf head tail len xs v room h = record {
    size = length-set buf (step_down n head) (some v) ∙ h.size;
    count = omega (arith, h.count);
    fits = omega arith;
    head_in = step_down-le n head h.head_in;
    tail_at = ground (arith, h.tail_at, h.head_in);
    live = Live-push_front n buf head xs v h.size h.head_in (omega (arith, h.count)) h.live;
  }

  pub pop_front_Holds :
      (buf : List (Option A)) (head tail len : ℕ) (x : A) (xs : List A)
      → Holds n buf head tail len (x ∷ xs)
      → Holds n (set buf head none) (step_up n head) tail (len - 1) xs
  pop_front_Holds buf head tail len x xs h = record {
    size = length-set buf head none ∙ h.size;
    count = omega (arith, h.count);
    fits = omega (arith, h.fits);
    head_in = step_up-le n head (omega (arith, h.count, h.fits)) h.head_in;
    tail_at = ground (arith, h.tail_at, h.head_in, h.count, h.fits);
    live = Live-pop_front n buf head x xs h.head_in (omega (arith, h.count, h.fits)) h.live;
  }

  pub pop_back_Holds :
      (buf : List (Option A)) (head tail len : ℕ) (xs : List A) (x : A)
      → Holds n buf head tail len (xs ++ x ∷ [])
      → Holds n (set buf (step_down n tail) none) head (step_down n tail) (len - 1) xs
  pop_back_Holds buf head tail len xs x h = record {
    size = length-set buf (step_down n tail) none ∙ h.size;
    count = omega (arith, h.count, length-append xs (x ∷ []));
    fits = omega (arith, h.fits);
    head_in = h.head_in;
    tail_at = last;
    live =
        subst (λ t. Live n (set buf t none) head xs)
          (ap (slot n head) (omega (arith, h.count, length-append xs (x ∷ []))) ∙ sym last)
          (Live-pop_back n buf head xs x h.head_in
            (omega (arith, h.count, h.fits, length-append xs (x ∷ []))) h.live);
  }
    where
      last : step_down n tail ≡ slot n head (len - 1)
      last = ground (arith, h.tail_at, h.head_in, h.count, h.fits, length-append xs (x ∷ []))
