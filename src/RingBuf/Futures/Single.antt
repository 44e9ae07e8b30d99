-- ===== src/RingBuf/Futures/Single.antt =====
-- What a poll of the futures of `push` and `pop` does to the ring.
use cynosure.Prelude.{
  ℕ, zero, suc, ◌^◌, ◌≤◌, ◌<◌, ◌≡◌, refl, ◌⊎◌, inl, inr, Bool, true, false, Option, none, some,
  List, [], ◌∷◌, ◌++◌, drop, length, length-drop, ltb, ltb→lt, ◌∙◌, arith, Bool-cases, ◌>>=◌,
  Returns,
}
use Prim.Native.Nat.{◌∣◌}
use mathlib.Core.List.{head?, tail}
use cynosure.RingBuf.{Shared, Producer, Consumer}
use cynosure.RingBuf.Bounded.{Holds}
use cynosure.RingBuf.Bounded.Push.{try_push_lem}
use cynosure.RingBuf.Bounded.Pop.{try_pop_lem}
use cynosure.RingBuf.Futures.{push_poll, push_again, pop_poll, pop_again}

module _ {T : Type 0} (n : ℕ) where
  -- The second attempt on a ring with `l`: the push of `v` is ready and the slot disarmed, or it is
  -- pending and the flag as it was.
  abbrev Retried : List T → T → Bool → Bool × Option T × Shared T × Producer → Type 0
  Retried l v armed (ready, left, s, p) =
      (c : Consumer) × (((length l < n)
          × (ready ≡ true)
          × (left ≡ none)
          × (s.producer_armed ≡ false)
          × Holds n s p c (l ++ v ∷ []))
        ⊎ ((length l ≡ n)
            × (ready ≡ false)
            × (left ≡ some v)
            × (s.producer_armed ≡ armed)
            × Holds n s p c l))

  -- The push of `v` into a ring with `l`, while the consumer pops `m` elements: it is ready at once, and
  -- the flag as it was; it is ready at the second attempt, and the slot disarmed; or it is pending, the
  -- ring full as before, and the slot armed.
  abbrev pub PushPolled : ℕ → List T → T → Bool → Bool × Option T × Shared T × Producer → Type 0
  PushPolled m l v armed (ready, left, s, p) =
      (c : Consumer) × (((length l < n)
          × (ready ≡ true)
          × (left ≡ none)
          × (s.producer_armed ≡ armed)
          × Holds n s p c (l ++ v ∷ []))
        ⊎ (((length l ≡ n)
              × (0 < m)
              × (ready ≡ true)
              × (left ≡ none)
              × (s.producer_armed ≡ false)
              × Holds n s p c (drop m l ++ v ∷ []))
            ⊎ ((length l ≡ n)
                × (m ≡ 0)
                × (ready ≡ false)
                × (left ≡ some v)
                × (s.producer_armed ≡ true)
                × Holds n s p c l)))

  -- The pop is ready with the first of the elements that are there, or it is pending, and the ring was
  -- empty.
  abbrev pub PopTried : List T → Option T × Shared T × Consumer → Type 0
  PopTried l (got, s, c) = (got ≡ head? l) × ((p : Producer) × Holds n s p c (tail l))

  Holds-bound :
      (s : Shared T) (p : Producer) (c : Consumer) (l : List T) → Holds n s p c l → length l ≤ n
  Holds-bound s p c l (r, (_, (a, (_, _, le, fits)), _, _)) = omega (arith, le, fits)

module _ {T : Type 0} (n : ℕ) (pos : 0 < n) (wraps : n ∣ 2 ^ 64) (small : n ≤ 2 ^ 63) where
  push_again-Retried :
      (s : Shared T) (p : Producer) (c : Consumer) (l : List T) (v : T)
      → Holds n s p c l
      → Returns (push_again s p v) (Retried n l v s.producer_armed)
  unfolding push_again
  push_again-Retried s p c l v h =
      let bound = Holds-bound n s p c l h in
      let ((ok, woken, s', p'), ran, (same, _, kept, h')) =
        try_push_lem n pos wraps small s p c l v h in
      rw (ran, ◌>>=◌, same)
        (elim (Bool-cases (ltb (length l) n)) [
          | inl e ↦ rw e (_, refl, (c, inl (ltb→lt _ _ e, refl, refl, refl, rw e at h')))
          | inr e ↦
              rw e (_, refl, (c, inr (ground (arith, e, bound), refl, refl, kept, rw e at h')))
        ])

  -- What the second attempt says when the consumer popped `m` elements of a full ring.
  Retried-PushPolled :
      (m : ℕ) (l : List T) (v : T) (armed before : Bool) (x : Bool × Option T × Shared T × Producer)
      → length l ≡ n
      → ((m ≡ 0) → armed ≡ true)
      → Retried n (drop m l) v armed x
      → PushPolled n m l v before x
  Retried-PushPolled zero l v armed before (ready, left, s, p) full kept
        (c, inl (less, at_end, none_left, off, h)) =
      absurd (omega (arith, less, full))
  Retried-PushPolled (suc m) l v armed before (ready, left, s, p) full kept
        (c, inl (less, at_end, none_left, off, h)) =
      (c, inr (inl (full, omega arith, at_end, none_left, off, h)))
  Retried-PushPolled zero l v armed before (ready, left, s, p) full kept
        (c, inr (same, late, keeps, flag, h)) =
      (c, inr (inr (full, refl, late, keeps, flag ∙ kept refl, h)))
  Retried-PushPolled (suc m) l v armed before (ready, left, s, p) full kept
        (c, inr (same, late, keeps, flag, h)) =
      absurd (omega (arith, same, full, pos, length-drop (suc m) l))

  -- A poll of the future of `push`, while the consumer pops `m` elements after the slot was armed: of the
  -- consumer it is assumed that it leaves the ring with the list less its first `m` elements, and that it
  -- does not touch the flag if `m` is 0. With room, the poll is ready at once, the value is behind all the
  -- elements, and the flag as it was. If the ring is full and `m` is not 0, the poll is ready, the value is
  -- behind the elements that are left, and the slot is disarmed. If the ring is full and `m` is 0, the poll
  -- is pending and still has the value, the ring is as it was, and the slot is armed.
  pub push_poll-PushPolled :
      (between : Shared T → Shared T) (m : ℕ)
      → ((s : Shared T) (p : Producer) (c : Consumer) (l : List T)
          → Holds n s p c l
          → (c' : Consumer) × (Holds n (between s) p c' (drop m l)
              × ((m ≡ 0) → (between s).producer_armed ≡ s.producer_armed)))
      → (s : Shared T) (p : Producer) (c : Consumer) (l : List T) (v : T) → Holds n s p c l
      → Returns (push_poll between s p (some v)) (PushPolled n m l v s.producer_armed)
  unfolding push_poll
  push_poll-PushPolled between m other s p c l v h =
      let bound = Holds-bound n s p c l h in
      let ((ok, woken, s', p'), ran, (same, _, kept, h')) =
        try_push_lem n pos wraps small s p c l v h in
      rw (ran, ◌>>=◌, same)
        (elim (Bool-cases (ltb (length l) n)) [
          | inl e ↦ rw e (_, refl, (c, inl (ltb→lt _ _ e, refl, refl, kept, rw e at h')))
          | inr e ↦
              let armed : Shared T = record s' { producer_armed = true } in
              let full : length l ≡ n = ground (arith, e, bound) in
              let (c', (after, flag)) = other armed p' c l (rw e at h') in
              let (x, again, result) =
                push_again-Retried (between armed) p' c' (drop m l) v after in
              rw e (
                x,
                again,
                Retried-PushPolled m l v (between armed).producer_armed s.producer_armed x full flag
                    result,
              )
        ])

  pop_again-PopTried :
      (s : Shared T) (p : Producer) (c : Consumer) (l : List T)
      → Holds n s p c l
      → Returns (pop_again s c) (PopTried n l)
  unfolding pop_again
  pop_again-PopTried s p c [] h =
      let ((got, woken, s', c'), ran, (same, _, _, h')) =
        try_pop_lem n pos wraps small s p c [] h in
      rw (ran, ◌>>=◌, same) (_, refl, (refl, (p, h')))
  pop_again-PopTried s p c (v ∷ l) h =
      let ((got, woken, s', c'), ran, (same, _, _, h')) =
        try_pop_lem n pos wraps small s p c (v ∷ l) h in
      rw (ran, ◌>>=◌, same) (_, refl, (refl, (p, h')))

  -- A poll of the future of `pop` returns the first element of a ring that is not empty. If the ring is
  -- empty, it returns the first element that is there after the slot was armed, and is pending if there is
  -- none. Of the producer it is assumed that what it does leaves a ring that holds some list.
  pub pop_poll-PopTried :
      (between : Shared T → Shared T)
      → ((s : Shared T) (p : Producer) (c : Consumer) (l : List T)
          → Holds n s p c l
          → (p' : Producer) × ((l' : List T) × Holds n (between s) p' c l'))
      → (s : Shared T) (p : Producer) (c : Consumer) (l : List T) → Holds n s p c l
      → Returns
          (pop_poll between s c)
          (λ x. PopTried n l x ⊎ ((l ≡ []) × ((later : List T) × PopTried n later x)))
  unfolding pop_poll
  pop_poll-PopTried between other s p c [] h =
      let ((got, woken, s', c'), ran, (same, _, _, h')) =
        try_pop_lem n pos wraps small s p c [] h in
      let (p'', (later, h'')) = other (record s' { consumer_armed = true }) p c' [] h' in
      let (x, again, tried) =
        pop_again-PopTried (between (record s' { consumer_armed = true })) p'' c' later h'' in
      rw (ran, ◌>>=◌, same) (x, again, inr (refl, (later, tried)))
  pop_poll-PopTried between other s p c (v ∷ l) h =
      let ((got, woken, s', c'), ran, (same, _, _, h')) =
        try_pop_lem n pos wraps small s p c (v ∷ l) h in
      rw (ran, ◌>>=◌, same) (_, refl, inl (refl, (p, h')))
