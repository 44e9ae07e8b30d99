-- ===== src/Pool.antt =====
-- src/site_c/pool.rs: `LocalBufferPool<T>`, with what it uses of `AlignedBuffer<T>` in
-- src/site_d/buffer.rs. `zero_cell` is the element whose bytes are all zero.
pub mod System
pub mod Layout
pub mod Balance
mod Tests
use cynosure.Prelude.{
  ℕ, zero, suc, ◌+◌, ◌*◌, ◌^◌, Bool, true, false, ◌&&◌, Option, none, some, List, [], ◌∷◌, map,
  length, replicate, ltb, leb, if◌then◌else◌, Exec, done, panic, ◌>>=◌,
}
use cynosure.Waiters.{WaitQueue}
use cynosure.RingBuf.{power_below}
use cynosure.Semaphore
use cynosure.Semaphore.{Semaphore, Request}

-- `AlignedBuffer`: all the cells up to the capacity, and the logical length.
pub record Buffer (T : Type 0) : Type 0 where
  pub cells : List T
  pub len : ℕ

-- The last buffer of the vector `free` comes first.
pub record Pool (Q T : Type 0) : Type 0 where
  pub free : List (Buffer T)
  pub sem : Semaphore Q
  pub clear_on_checkout : Bool

-- The size and the alignment of the element type, in bytes
pub record Element : Type 0 where
  pub size : ℕ
  pub align : ℕ

-- The asserts of `with_alignment` on the capacity and the alignment, and the `expect` of `layout_for`:
-- the bytes, rounded up to the alignment, are at most `isize::MAX`.
unfoldable pub valid_layout : Element → ℕ → ℕ → Bool
valid_layout element capacity align =
    ltb 0 capacity
    && ltb 0 element.size
    && power_below 64 align
    && leb element.align align
    && leb (capacity * element.size + align) (2 ^ 63)

-- The bytes of one `AlignedBuffer`: a pointer and three `usize`
abbrev pub buffer_bytes : ℕ
buffer_bytes = 32

module _ {T : Type 0} (zero_cell : T) (element : Element) where
  pub with_alignment : ℕ → ℕ → Exec (Buffer T)
  with_alignment capacity align =
      if valid_layout element capacity align
      then done (record { cells = replicate capacity zero_cell; len = 0 })
      else panic

  -- The loop of `build`.
  pub fill : ℕ → ℕ → ℕ → Exec (List (Buffer T))
  fill zero buf_size align = done []
  fill (suc count) buf_size align = do
    b ← with_alignment buf_size align
    free ← fill count buf_size align
    done (b ∷ free)

module _ {T : Type 0} (zero_cell : T) where
  -- `write_bytes` over the capacity
  abbrev pub scrub : Buffer T → Buffer T
  scrub b = record b { cells = map (λ _. zero_cell) b.cells }

module _ {T : Type 0} where
  pub set_len : Buffer T → ℕ → Exec (Buffer T)
  set_len b n = if leb n (length b.cells) then done (record b { len = n }) else panic

module _ {W T : Type 0} (same : W → W → Bool) (d : WaitQueue (ℕ × Request W)) (zero_cell : T) where
  open d use {Q}

  -- `Vec::with_capacity` panics if the vector of the buffers takes more bytes than `isize::MAX`.
  pub build : Element → ℕ → ℕ → ℕ → Bool → Exec (Pool Q T)
  build element count buf_size align clear =
      let filled = (do
        free ← fill zero_cell element count buf_size align
        done (record {
          free = free;
          sem = Semaphore.new same d count;
          clear_on_checkout = clear;
        })) in
      if ltb (count * buffer_bytes) (2 ^ 63) then filled else panic

  -- The `expect` panics if no buffer is free.
  pub check_out : Pool Q T → Exec (Buffer T × Pool Q T)
  check_out p = elim p.free [
    | [] ↦ panic
    | b ∷ rest ↦ (do
      b' ← set_len b 0
      let handed = (if p.clear_on_checkout then scrub zero_cell b' else b')
      done (handed, record p { free = rest }))
  ]

  -- The permit is forgotten: the buffer stands for it.
  pub try_acquire : Pool Q T → Exec (Option (Buffer T) × Pool Q T)
  try_acquire p =
      let (got, sem) = Semaphore.try_acquire_many same d p.sem 1 in
      if got
      then (do (b, p') ← check_out (record p { sem = sem }); done (some b, p'))
      else done (none, record p { sem = sem })

  -- A poll of the future of `acquire`: the buffer if it is ready, the pool, the field of the semaphore's
  -- future, and the entry woken.
  pub poll_acquire :
      Pool Q T
      → Option (ℕ × Request W)
      → W
      → Exec (Option (Buffer T) × Pool Q T × Option (ℕ × Request W) × Option (ℕ × Request W))
  poll_acquire p slot waker =
      let (ready, sem, slot', woken) = Semaphore.poll same d p.sem slot 1 waker in
      if ready
      then (do (b, p') ← check_out (record p { sem = sem }); done (some b, p', slot', woken))
      else done (none, record p { sem = sem }, slot', woken)

  -- `Drop for PooledBuffer`
  pub drop_buffer : Pool Q T → Buffer T → Exec (Option (ℕ × Request W) × Pool Q T)
  drop_buffer p b = do
    (woken, sem) ← Semaphore.add_permits same d p.sem 1
    done (woken, record p { free = b ∷ p.free; sem = sem })
