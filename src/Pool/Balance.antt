-- ===== src/Pool/Balance.antt =====
-- The free buffers and the permits of a `LocalBufferPool` stay equal in number, so that a permit always
-- finds a buffer.
use cynosure.Prelude.{
  ℕ, zero, suc, ◌+◌, ◌*◌, ◌^◌, ◌-◌, ◌≤◌, ◌<◌, ◌≡◌, refl, sym, ap, ◌∙◌, ◌⊎◌, inl, inr, Bool, true,
  false, none, some, List, [], ◌∷◌, map, length, replicate, arith, leb→le, le→leb, ltb, leb, lt→ltb,
  ltb→lt, Bool-cases, Returns, Returns-bind, ◌>>=◌,
}
use cynosure.Waiters.{WaitQueue}
use cynosure.Semaphore
use cynosure.Semaphore.{Semaphore, Request, id_of, max_permits}
use cynosure.Semaphore.Permits.{
  new-eq, try_acquire-some, try_acquire-none, poll-permits, drop_future-permits,
  add_permits-permits,
}
use cynosure.Pool
use cynosure.Pool.{Pool, Buffer, Element, valid_layout}
use cynosure.Pool.Layout.{valid_layout_lem}
use cynosure.Pool.System
use cynosure.Pool.System.{System, Event, handed}

module _ {T : Type 0} (zero_cell : T) where
  map-replicate : (l : List T) → map (λ _. zero_cell) l ≡ replicate (length l) zero_cell
  map-replicate [] = refl
  map-replicate (x ∷ l) = ap (λ z. zero_cell ∷ z) (map-replicate l)

  length-map_zero : (l : List T) → length (map (λ _. zero_cell) l) ≡ length l
  length-map_zero [] = refl
  length-map_zero (x ∷ l) = ap suc (length-map_zero l)

  fill_lem :
      (element : Element) (count size align : ℕ)
      → valid_layout element size align ≡ true
      → Returns (Pool.fill zero_cell element count size align) (λ l. length l ≡ count)
  unfolding Pool.fill Pool.with_alignment
  fill_lem element zero size align h = ([], refl, refl)
  fill_lem element (suc count) size align h =
      let (l, e, f) = fill_lem element count size align h in rw (h, e) (_, refl, ap suc f)

module _ {W T : Type 0} (same : W → W → Bool) (d : WaitQueue (ℕ × Request W)) (zero_cell : T) where
  open d use {Q, is_empty}

  -- Checking a buffer out takes one off the free ones, and empties it; a pool that clears hands out zeros.
  pub check_out_lem :
      (p : Pool Q T)
      → 0 < length p.free
      → Returns (Pool.check_out same d zero_cell p) (λ (b, p').
        (length p'.free + 1 ≡ length p.free)
        × (p'.sem ≡ p.sem)
        × (b.len ≡ 0)
        × ((p.clear_on_checkout ≡ false) ⊎ (b.cells ≡ replicate (length b.cells) zero_cell)))
  unfolding Pool.check_out Pool.set_len
  check_out_lem p h = split p.free refl
    where
      zeros :
          (b : Buffer T)
          → map (λ _. zero_cell) b.cells
            ≡ replicate (length (map (λ _. zero_cell) b.cells)) zero_cell
      zeros b =
          map-replicate zero_cell b.cells
          ∙ ap (λ k. replicate k zero_cell) (sym (length-map_zero zero_cell b.cells))

      split :
          (l : List (Buffer T))
          → p.free ≡ l
          → Returns (Pool.check_out same d zero_cell p) (λ (b, p').
            (length p'.free + 1 ≡ length p.free)
            × (p'.sem ≡ p.sem)
            × (b.len ≡ 0)
            × ((p.clear_on_checkout ≡ false) ⊎ (b.cells ≡ replicate (length b.cells) zero_cell)))
      split [] at = absurd (omega (arith, ap length at, h))
      split (b ∷ rest) at = elim (Bool-cases p.clear_on_checkout) [
        | inl c ↦
            rw (at, Pool.check_out, le→leb 0 (length b.cells) (omega arith), c)
              (_, refl, (omega arith, refl, refl, inr (zeros b)))
        | inr c ↦
            rw (at, Pool.check_out, le→leb 0 (length b.cells) (omega arith), c)
              (_, refl, (omega arith, refl, refl, inl refl))
      ]

  -- What is true of a pool of `count` buffers and its users.
  pub record Balanced (count : ℕ) (s : System W Q T) : Type 0 where
    pub matched : length s.pool.free ≡ s.pool.sem.permits
    pub whole : s.pool.sem.permits + s.out ≡ count

  try_acquire-Balanced :
      (count : ℕ) (s : System W Q T)
      → Balanced count s
      → Returns (System.step same d zero_cell s Event.try_acquire) (Balanced count)
  unfolding System.step Pool.try_acquire
  try_acquire-Balanced count s v = elim (Bool-cases (leb 1 s.pool.sem.permits)) [
    | inr e ↦
        rw (try_acquire-none same d s.pool.sem 1 e)
          (_, refl, record { matched = v.matched; whole = omega (arith, v.whole) })
    | inl e ↦
        let some_left : 1 ≤ s.pool.sem.permits = leb→le 1 _ e in
        let ((b, p'), f, (one, sem, _, _)) =
          check_out_lem
            (record s.pool { sem = record s.pool.sem { permits = s.pool.sem.permits - 1 } })
            (omega (arith, v.matched)) in
        rw (try_acquire-some same d s.pool.sem 1 e, f)
          (
            _,
            refl,
            record {
              matched = omega (arith, one, v.matched, ap (λ (z : Semaphore Q). z.permits) sem);
              whole = omega (arith, v.whole, ap (λ (z : Semaphore Q). z.permits) sem, some_left);
            },
          )
  ]

  poll-Balanced :
      (count : ℕ) (s : System W Q T) (i : ℕ) (w : W)
      → Balanced count s
      → Returns (System.step same d zero_cell s (Event.poll i w)) (Balanced count)
  unfolding System.step Pool.poll_acquire
  poll-Balanced count s i w v =
      let (ready, s', slot', woken) = Semaphore.poll same d s.pool.sem (s.slots i) 1 w in
      elim (poll-permits same d s.pool.sem (s.slots i) 1 w) [
        | inr (e, same_permits) ↦ rw e (
          _,
          refl,
          record {
            matched = omega (arith, v.matched, same_permits);
            whole = omega (arith, v.whole, same_permits);
          },
        )
        | inl (e, le, fewer) ↦
            let ((b, p'), f, (one, sem, _, _)) =
              check_out_lem (record s.pool { sem = s' }) (omega (arith, v.matched)) in
            rw (e, f)
              (
                _,
                refl,
                record {
                  matched =
                      omega
                        (arith, one, v.matched, ap (λ (z : Semaphore Q). z.permits) sem, fewer, le);
                  whole =
                      omega (arith, v.whole, ap (λ (z : Semaphore Q). z.permits) sem, fewer, le);
                },
              )
      ]

  drop_buffer-Balanced :
      (count : ℕ) (s : System W Q T) (b : Buffer T)
      → count ≤ max_permits
      → Balanced count s
      → Returns (System.step same d zero_cell s (Event.drop_buffer b)) (Balanced count)
  unfolding System.step Pool.drop_buffer
  drop_buffer-Balanced count s b room v = elim (Bool-cases (ltb 0 s.out)) [
    | inr e ↦ rw e (_, refl, v)
    | inl e ↦
        let some_out : 0 < s.out = ltb→lt 0 s.out e in
        let ((woken, sem), f, more) =
          add_permits-permits same d s.pool.sem 1 (omega (arith, v.whole, some_out, room)) in
        rw (e, f)
          (
            _,
            refl,
            record {
              matched = omega (arith, v.matched, more);
              whole = omega (arith, v.whole, more, some_out);
            },
          )
  ]

  step-Balanced :
      (count : ℕ) (s : System W Q T) (e : Event W T)
      → count ≤ max_permits
      → Balanced count s
      → Returns (System.step same d zero_cell s e) (Balanced count)
  unfolding System.step
  step-Balanced count s Event.try_acquire room v = try_acquire-Balanced count s v
  step-Balanced count s (Event.poll i w) room v = poll-Balanced count s i w v
  step-Balanced count s (Event.drop_future i) room v =
      let keeps = drop_future-permits same d s.pool.sem (s.slots i) in
      (_, refl, record { matched = v.matched ∙ sym keeps; whole = omega (arith, v.whole, keeps) })
  step-Balanced count s (Event.drop_buffer b) room v = drop_buffer-Balanced count s b room v

  run-Balanced :
      (count : ℕ) (s : System W Q T) (es : List (Event W T))
      → count ≤ max_permits
      → Balanced count s
      → Returns (System.run same d zero_cell s es) (Balanced count)
  unfolding System.run
  run-Balanced count s [] room v = (s, refl, v)
  run-Balanced count s (e ∷ es) room v =
      Returns-bind (System.step same d zero_cell s e) (λ z. System.run same d zero_cell z es)
        (step-Balanced count s e room v) (λ z u. run-Balanced count z es room u)

  -- A pool of `count` buffers, whose vector takes at most `isize::MAX` bytes, of a size that is not zero,
  -- of elements that take bytes, with an alignment that is a power of two, fits a `usize` and is at least
  -- that of the element, and where the bytes of a buffer, rounded up to the alignment, are at most
  -- `isize::MAX`, never panics, whatever its users do: a permit always finds a free buffer, and the count of
  -- permits does not overflow. The free buffers are as many as the permits, and with the buffers that are
  -- out they are `count`.
  pub pool_balanced :
      (element : Element) (count size k : ℕ) (clear : Bool) (es : List (Event W T))
      → count * 32 < 2 ^ 63
      → 0 < size
      → 0 < element.size
      → k < 64
      → element.align ≤ 2 ^ k
      → size * element.size + 2 ^ k ≤ 2 ^ 63
      → Returns
          (System.start same d zero_cell element count size (2 ^ k) clear es)
          (λ s. (length s.pool.free ≡ s.pool.sem.permits) × (s.pool.sem.permits + s.out ≡ count))
  unfolding System.start Pool.build
  pool_balanced element count size k clear es room some_size bytes word aligned fits =
      let valid = valid_layout_lem element size k some_size bytes word aligned fits in
      let (free, e, amount) = fill_lem zero_cell element count size (2 ^ k) valid in
      let (s, f, v) =
        run-Balanced count
          (record {
            pool = record {
              free = free;
              sem = record { permits = count; waiters = d.new; next_id = 0 };
              clear_on_checkout = clear;
            };
            slots = λ _. none;
            out = 0;
          })
          es (omega (arith, room)) (record { matched = amount; whole = omega arith }) in
      rw (lt→ltb (count * 32) (2 ^ 63) room, e, ◌>>=◌, new-eq same d count)
        (s, f, (v.matched, v.whole))

  -- If a pool that clears has a free buffer for each permit, then `try_acquire` fails only when there is
  -- no permit, and otherwise hands out a buffer of logical length 0 whose cells are all zero, whatever
  -- its last borrower left there.
  pub try_acquire-clean :
      (p : Pool Q T)
      → length p.free ≡ p.sem.permits
      → p.clear_on_checkout ≡ true
      → Returns (Pool.try_acquire same d zero_cell p) (λ (o, p').
        ((o ≡ none) × (p.sem.permits ≡ 0))
        ⊎ ((b : Buffer T) × (o ≡ some b)
            × (b.len ≡ 0)
            × (b.cells ≡ replicate (length b.cells) zero_cell)))
  unfolding Pool.try_acquire
  try_acquire-clean p matched clears = elim (Bool-cases (leb 1 p.sem.permits)) [
    | inr e ↦ rw (try_acquire-none same d p.sem 1 e) (_, refl, inl (refl, ground arith))
    | inl e ↦
        let some_left : 1 ≤ p.sem.permits = leb→le 1 _ e in
        let ((b, p'), f, (one, sem, empty, clean)) =
          check_out_lem (record p { sem = record p.sem { permits = p.sem.permits - 1 } })
            (omega (arith, matched)) in
        rw (try_acquire-some same d p.sem 1 e, f)
          (
            _,
            refl,
            inr (
              b,
              refl,
              empty,
              elim clean [
                | inl never ↦ let clash : true ≡ false = sym clears ∙ never in absurd (cc)
                | inr zeros ↦ zeros
              ],
            ),
          )
  ]
