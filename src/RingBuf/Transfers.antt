-- ===== src/RingBuf/Transfers.antt =====
-- The futures of `push_slice_counted` and `pop_slice_counted`. `between` is what the other half does after
-- the slot was armed, and before the second attempt.
pub mod Counts
pub mod Drained
use cynosure.Prelude.{
  ℕ, ◌+◌, Bool, true, false, ◌&&◌, Option, none, some, List, [], ◌∷◌, ◌++◌, take, drop, length, ltb,
  leb, ◌==◌, if◌then◌else◌, Exec, done, panic, ◌>>=◌,
}
use cynosure.RingBuf.{Shared, Producer, Consumer}
use cynosure.RingBuf.Operations.{try_push_slice, try_pop_slice}

-- `progress` is the count that the caller sees.
pub record PushSlice (T : Type 0) : Type 0 where
  pub items : List T
  pub pushed_so_far : ℕ
  pub progress : Option ℕ

-- `items` is the slice that is filled.
pub record PopSlice (T : Type 0) : Type 0 where
  pub items : List T
  pub popped_so_far : ℕ
  pub progress : Option ℕ

-- `if let Some(p) = &mut this.progress { **p = count }`
abbrev pub note : Option ℕ → ℕ → Option ℕ
note none count = none
note (some old) count = some count

module _ {T : Type 0} where
  -- `&items[start..]`
  abbrev pub slice_from : List T → ℕ → Exec (List T)
  slice_from items start = if leb start (length items) then done (drop start items) else panic

  -- The elements from `start` on are replaced by these.
  abbrev pub overwrite : List T → ℕ → List T → List T
  overwrite items start vs = take start items ++ (vs ++ drop (start + length vs) items)

  -- `push_slice_counted` up to the future: is it done, and what is left to do
  unfoldable pub push_slice_counted :
      Shared T → Producer → List T → Exec (Bool × PushSlice T × Shared T × Producer)
  push_slice_counted s p items =
      let attempt = (do
        (k, _, s', p') ← try_push_slice s p items
        done (
          k == length items,
          record { items = items; pushed_so_far = k; progress = some k },
          s',
          p',
        )) in
      if length items == 0
      then done (true, record { items = items; pushed_so_far = 0; progress = some 0 }, s, p)
      else attempt

  -- The poll of `PushSliceFuture`, from the first update of the count on
  unfoldable pub push_slice_again :
      (Shared T → Shared T)
      → Shared T
      → Producer
      → PushSlice T
      → Exec (Bool × PushSlice T × Shared T × Producer)
  push_slice_again between s p f =
      let noted : PushSlice T = record f { progress = note f.progress f.pushed_so_far } in
      do
        remaining ← slice_from noted.items noted.pushed_so_far
        (k, _, s', p') ← try_push_slice (between (record s { producer_armed = true })) p remaining
        let f' : PushSlice T = record noted { pushed_so_far = noted.pushed_so_far + k }
        if ltb 0 k && f'.pushed_so_far == length f'.items
            then done (true, f', record s' { producer_armed = false }, p')
            else done (false, record f' { progress = note f'.progress f'.pushed_so_far }, s', p')

  unfoldable pub push_slice_poll :
      (Shared T → Shared T)
      → Shared T
      → Producer
      → PushSlice T
      → Exec (Bool × PushSlice T × Shared T × Producer)
  push_slice_poll between s p f = do
    remaining ← slice_from f.items f.pushed_so_far
    (k, _, s', p') ← try_push_slice s p remaining
    let f' : PushSlice T = record f { pushed_so_far = f.pushed_so_far + k }
    let again = push_slice_again between s' p' f'
    if ltb 0 k && f'.pushed_so_far == length f'.items then done (true, f', s', p') else again

  unfoldable pub pop_slice_counted :
      Shared T → Consumer → List T → Exec (Bool × PopSlice T × Shared T × Consumer)
  pop_slice_counted s c items =
      let attempt = (do
        (vs, _, s', c') ← try_pop_slice s c (length items)
        done (
          length vs == length items,
          record {
            items = overwrite items 0 vs;
            popped_so_far = length vs;
            progress = some (length vs);
          },
          s',
          c',
        )) in
      if length items == 0
      then done (true, record { items = items; popped_so_far = 0; progress = some 0 }, s, c)
      else attempt

  -- The poll of `PopSliceFuture`, from the first update of the count on
  unfoldable pub pop_slice_again :
      (Shared T → Shared T)
      → Shared T
      → Consumer
      → PopSlice T
      → Exec (Bool × PopSlice T × Shared T × Consumer)
  pop_slice_again between s c f =
      let noted : PopSlice T = record f { progress = note f.progress f.popped_so_far } in
      do
        remaining ← slice_from noted.items noted.popped_so_far
        (vs, _, s', c') ←
            try_pop_slice (between (record s { consumer_armed = true })) c (length remaining)
        let f' : PopSlice T = record noted {
          items = overwrite noted.items noted.popped_so_far vs;
          popped_so_far = noted.popped_so_far + length vs;
        }
        if ltb 0 (length vs) && f'.popped_so_far == length f'.items
            then done (true, f', record s' { consumer_armed = false }, c')
            else done (false, record f' { progress = note f'.progress f'.popped_so_far }, s', c')

  unfoldable pub pop_slice_poll :
      (Shared T → Shared T)
      → Shared T
      → Consumer
      → PopSlice T
      → Exec (Bool × PopSlice T × Shared T × Consumer)
  pop_slice_poll between s c f = do
    remaining ← slice_from f.items f.popped_so_far
    (vs, _, s', c') ← try_pop_slice s c (length remaining)
    let f' : PopSlice T = record f {
      items = overwrite f.items f.popped_so_far vs;
      popped_so_far = f.popped_so_far + length vs;
    }
    let again = pop_slice_again between s' c' f'
    if ltb 0 (length vs) && f'.popped_so_far == length f'.items
        then done (true, f', s', c')
        else again
