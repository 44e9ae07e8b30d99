-- ===== src/RingBuf/Operations.antt =====
-- The operations of the two halves as functions: the phases of one call, with nothing in between.
-- `push` and `pop` here are their first attempts; `Drop` frees what was not popped.
use cynosure.Prelude.{
  ℕ, zero, suc, ◌-◌, ◌%◌, Bool, true, false, Option, none, some, List, [], ◌∷◌, take, length, leb,
  ◌==◌, if◌then◌else◌, Exec, done, fault, ◌>>=◌,
}
use cynosure.RingBuf.{
  Shared, Producer, Consumer, wrapping_add, wrapping_sub, check_room, check_room_slice, write_value,
  write_values, publish_write, signal_consumer, signal_producer, check_item, check_items,
  read_value, read_values, publish_read, read_slot,
}

module _ {T : Type 0} where
  -- `Producer::try_push`: was there room, is the consumer woken, and the state.
  unfoldable pub try_push : Shared T → Producer → T → Exec (Bool × Bool × Shared T × Producer)
  try_push s p v =
      let (room, p') = check_room s p in
      let write = (do
        s' ← write_value s p' v
        let (s'', p'') = publish_write s' p' 1
        let (woken, s''') = signal_consumer s''
        done (true, woken, s''', p'')) in
      if room then write else done (false, false, s, p')

  -- `Producer::try_push_slice`: how many of the elements were pushed
  unfoldable pub try_push_slice :
      Shared T → Producer → List T → Exec (ℕ × Bool × Shared T × Producer)
  try_push_slice s p items =
      let (granted, p') = check_room_slice s p (length items) in
      let write = (do
        s' ← write_values s p' (take granted items)
        let (s'', p'') = publish_write s' p' granted
        let (woken, s''') = signal_consumer s''
        done (granted, woken, s''', p'')) in
      if granted == 0 then done (0, false, s, p') else write

  -- `Consumer::try_pop`
  unfoldable pub try_pop : Shared T → Consumer → Exec (Option T × Bool × Shared T × Consumer)
  try_pop s c =
      let (found, c') = check_item s c in
      let read = (do
        (v, s') ← read_value s c'
        let (s'', c'') = publish_read s' c' 1
        let (woken, s''') = signal_producer s''
        done (some v, woken, s''', c'')) in
      if found then read else done (none, false, s, c')

  -- `Consumer::try_pop_slice` into a slice of length `len`: the elements that were popped
  unfoldable pub try_pop_slice :
      Shared T → Consumer → ℕ → Exec (List T × Bool × Shared T × Consumer)
  try_pop_slice s c len =
      let (granted, c') = check_items s c len in
      let read = (do
        vs ← read_values s c' granted
        let (s'', c'') = publish_read s c' granted
        let (woken, s''') = signal_producer s''
        done (vs, woken, s''', c'')) in
      if granted == 0 then done ([], false, s, c') else read

  -- The counts load the other index, and keep it.
  unfoldable pub free_count : Shared T → Producer → ℕ × Producer
  free_count s p =
      let p' : Producer = record p { cached_read = s.read_index } in
      (s.capacity - wrapping_sub p'.cached_write p'.cached_read, p')

  unfoldable pub available_count : Shared T → Consumer → ℕ × Consumer
  available_count s c =
      let c' : Consumer = record c { cached_write = s.write_index } in
      (wrapping_sub c'.cached_write c'.cached_read, c')

  -- `is_empty` and `is_full` of the producer
  unfoldable pub seems_empty : Shared T → Producer → Bool × Producer
  seems_empty s p =
      let p' : Producer = record p { cached_read = s.read_index } in
      (p'.cached_write == p'.cached_read, p')

  unfoldable pub seems_full : Shared T → Producer → Bool × Producer
  seems_full s p = let (free, p') = free_count s p in (free == 0, p')

  -- `is_empty` and `is_full` of the consumer
  unfoldable pub is_empty : Shared T → Consumer → Bool × Consumer
  is_empty s c = let (available, c') = available_count s c in (available == 0, c')

  unfoldable pub is_full : Shared T → Consumer → Bool × Consumer
  is_full s c =
      let c' : Consumer = record c { cached_write = s.write_index } in
      (leb s.capacity (wrapping_sub c'.cached_write c'.cached_read), c')

  -- The loop of `Drop`, on fuel: the elements it drops, and the slots.
  unfoldable pub drop_from :
      ℕ → ℕ → ℕ → (ℕ → Option T) → (current : ℕ) → Exec (List T × (ℕ → Option T))
  drop_from zero n write slots current = fault
  drop_from (suc fuel) n write slots current =
      let next = (do
        (v, slots') ← read_slot n slots (current % n)
        (vs, slots'') ← drop_from fuel n write slots' (wrapping_add current 1)
        done (v ∷ vs, slots'')) in
      if current == write then done ([], slots) else next

  unfoldable pub drop_shared : ℕ → Shared T → Exec (List T × (ℕ → Option T))
  drop_shared fuel s = drop_from fuel s.capacity s.write_index s.buffer s.read_index
