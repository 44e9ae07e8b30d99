-- ===== src/RingBuf.antt =====
-- src/site_d/ringbuf.rs: `RingBuf<T>`, the ring between one producer and one consumer thread. This file
-- has the shared state, the two halves, and their operations as runs of phases; a phase makes at most one
-- access to what the other half may change at the same time.
-- A slot is `none` where it holds no value; an access outside of the buffer is a fault, and so is a read
-- of a slot without a value.
pub mod Slices
pub mod Counters
pub mod Live
pub mod System
pub mod Invariant
pub mod Pushes
pub mod Writes
pub mod Pops
pub mod Reads
pub mod Promise
pub mod Operations
pub mod Bounded
pub mod Calls
pub mod Transfers
pub mod Futures
pub mod Tests
use cynosure.Prelude.{
  ℕ, zero, suc, ◌+◌, ◌-◌, ◌%◌, ◌^◌, min, Bool, true, false, not, ◌&&◌, ◌||◌, Option, none, some,
  List, [], ◌∷◌, ◌++◌, take, drop, length, ltb, leb, ◌==◌, if◌then◌else◌, update, Exec, done, panic,
  fault, ◌>>=◌,
}

-- `usize::wrapping_add` and `usize::wrapping_sub`
abbrev pub wrapping_add : ℕ → ℕ → ℕ
wrapping_add a b = (a + b) % 2 ^ 64

abbrev pub wrapping_sub : ℕ → ℕ → ℕ
wrapping_sub a b = (a + 2 ^ 64 - b) % 2 ^ 64

-- `usize::is_power_of_two`, with the exponents below `k`
unfoldable pub power_below : ℕ → ℕ → Bool
power_below zero n = false
power_below (suc k) n = n == 2 ^ k || power_below k n

-- `RingBufferShared`. Of each `WaiterSlot` the flag stands here.
pub record Shared (T : Type 0) : Type 0 where
  pub capacity : ℕ
  pub buffer : ℕ → Option T
  pub write_index : ℕ
  pub read_index : ℕ
  pub producer_armed : Bool
  pub consumer_armed : Bool

pub record Producer : Type 0 where
  pub cached_read : ℕ
  pub cached_write : ℕ

pub record Consumer : Type 0 where
  pub cached_read : ℕ
  pub cached_write : ℕ

-- `RingBuf::split`
unfoldable pub split : Producer × Consumer
split = (record { cached_read = 0; cached_write = 0 }, record { cached_read = 0; cached_write = 0 })

module _ {T : Type 0} where
  -- `RingBuf::new`; the element type is not zero-sized, and the allocation succeeds.
  pub new : ℕ → Exec (Shared T)
  new capacity =
      if ltb 0 capacity && power_below 64 capacity
      then done (record {
        capacity = capacity;
        buffer = λ _. none;
        write_index = 0;
        read_index = 0;
        producer_armed = false;
        consumer_armed = false;
      })
      else panic

  -- `(*slot).write(value)`
  pub write_slot : ℕ → (ℕ → Option T) → ℕ → T → Exec (ℕ → Option T)
  write_slot n slots i v = if ltb i n then done (update slots i (some v)) else fault

  -- `(*slot).assume_init_read()`: the value moves out.
  pub read_slot : ℕ → (ℕ → Option T) → ℕ → Exec (T × (ℕ → Option T))
  read_slot n slots i =
      let value = elim (slots i) as (λ _. Exec (T × (ℕ → Option T))) [
        | none ↦ fault
        | some v ↦ done (v, update slots i none)
      ] in
      if ltb i n then value else fault

  -- `copy_nonoverlapping` into adjacent slots
  pub copy_in : ℕ → (ℕ → Option T) → ℕ → List T → Exec (ℕ → Option T)
  copy_in n slots i [] = done slots
  copy_in n slots i (v ∷ vs) = do slots' ← write_slot n slots i v; copy_in n slots' (i + 1) vs

  -- `copy_nonoverlapping` out of adjacent slots; the values are `Copy`, and stay.
  pub copy_out : ℕ → (ℕ → Option T) → ℕ → ℕ → Exec (List T)
  copy_out n slots i zero = done []
  copy_out n slots i (suc k) = do
    (v, _) ← read_slot n slots i
    vs ← copy_out n slots (i + 1) k
    done (v ∷ vs)

  -- The two bulk copies of `try_push_slice`, from slot `i` on.
  pub write_slice : ℕ → (ℕ → Option T) → ℕ → List T → Exec (ℕ → Option T)
  write_slice n slots i items =
      let contiguous = min (n - i) (length items) in
      do
        slots' ← copy_in n slots i (take contiguous items)
        let second = copy_in n slots' 0 (drop contiguous items)
        if ltb contiguous (length items) then second else done slots'

  -- The two bulk copies of `try_pop_slice`.
  pub read_slice : ℕ → (ℕ → Option T) → ℕ → ℕ → Exec (List T)
  read_slice n slots i to_pop =
      let contiguous = min (n - i) to_pop in
      do
        first ← copy_out n slots i contiguous
        let second = (do rest ← copy_out n slots 0 (to_pop - contiguous); done (first ++ rest))
        if ltb contiguous to_pop then second else done first

  -- Is there room for one element? The read index is loaded only if the ring seems full.
  pub check_room : Shared T → Producer → Bool × Producer
  check_room s p =
      let fresh : Producer = record p { cached_read = s.read_index } in
      if leb s.capacity (wrapping_sub p.cached_write p.cached_read)
      then (not (leb s.capacity (wrapping_sub fresh.cached_write fresh.cached_read)), fresh)
      else (true, p)

  -- How many of `len` elements there is room for.
  pub check_room_slice : Shared T → Producer → ℕ → ℕ × Producer
  check_room_slice s p len =
      let available = s.capacity - wrapping_sub p.cached_write p.cached_read in
      let fresh : Producer = record p { cached_read = s.read_index } in
      let again = s.capacity - wrapping_sub fresh.cached_write fresh.cached_read in
      if len == 0
      then (0, p)
      else if available == 0
      then (min len again, fresh)
      else (min len available, p)

  pub write_value : Shared T → Producer → T → Exec (Shared T)
  write_value s p v = do
    slots ← write_slot s.capacity s.buffer (p.cached_write % s.capacity) v
    done (record s { buffer = slots })

  pub write_values : Shared T → Producer → List T → Exec (Shared T)
  write_values s p items = do
    slots ← write_slice s.capacity s.buffer (p.cached_write % s.capacity) items
    done (record s { buffer = slots })

  -- The store of the write index, after `k` elements were written.
  pub publish_write : Shared T → Producer → ℕ → Shared T × Producer
  publish_write s p k =
      let next = wrapping_add p.cached_write k in
      (record s { write_index = next }, record p { cached_write = next })

  -- `consumer_slot.signal()`: is the consumer woken, and the state.
  pub signal_consumer : Shared T → Bool × Shared T
  signal_consumer s = (s.consumer_armed, record s { consumer_armed = false })

  pub signal_producer : Shared T → Bool × Shared T
  signal_producer s = (s.producer_armed, record s { producer_armed = false })

  -- Is there an element? The write index is loaded only if the ring seems empty.
  pub check_item : Shared T → Consumer → Bool × Consumer
  check_item s c =
      let fresh : Consumer = record c { cached_write = s.write_index } in
      if c.cached_read == c.cached_write
      then (not (fresh.cached_read == fresh.cached_write), fresh)
      else (true, c)

  -- How many elements there are, up to `len`.
  pub check_items : Shared T → Consumer → ℕ → ℕ × Consumer
  check_items s c len =
      let available = wrapping_sub c.cached_write c.cached_read in
      let fresh : Consumer = record c { cached_write = s.write_index } in
      let again = wrapping_sub fresh.cached_write fresh.cached_read in
      if len == 0
      then (0, c)
      else if available == 0
      then (min len again, fresh)
      else (min len available, c)

  pub read_value : Shared T → Consumer → Exec (T × Shared T)
  read_value s c = do
    (v, slots) ← read_slot s.capacity s.buffer (c.cached_read % s.capacity)
    done (v, record s { buffer = slots })

  pub read_values : Shared T → Consumer → ℕ → Exec (List T)
  read_values s c k = read_slice s.capacity s.buffer (c.cached_read % s.capacity) k

  pub publish_read : Shared T → Consumer → ℕ → Shared T × Consumer
  publish_read s c k =
      let next = wrapping_add c.cached_read k in
      (record s { read_index = next }, record c { cached_read = next })
