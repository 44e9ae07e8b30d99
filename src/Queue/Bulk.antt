-- ===== src/Queue/Bulk.antt =====
-- src/site_c/queue.rs: the operations that go through a whole queue. Where the code drops elements, the
-- model returns them, in the order in which they are dropped.
pub mod Build
pub mod Sweep
pub mod Reserve
pub mod Swap
pub mod Compare
use cynosure.Prelude.{
  ℕ, zero, suc, ◌+◌, ◌%◌, ◌^◌, Bool, true, false, ◌&&◌, ◌||◌, Option, none, some, List, [], ◌∷◌,
  ◌++◌, ltb, leb, ◌==◌, if◌then◌else◌, length, get_elem?, set, Exec, done, panic, fault, ◌>>=◌,
}
use cynosure.Queue.{
  Queue, inline, heap, step_up, write_slot, read_slot, peek_slot, drain_slots, new, push_back,
  into_vec, iter, len,
}

module _ {ℓ} {A : Type ℓ} where
  -- `extend`, and the loops of the two `From` impls and of `FromIterator`
  pub extend : ℕ → Queue A → List A → Exec (Queue A)
  extend n q [] = done q
  extend n q (x ∷ xs) = do q' ← push_back n q x; extend n q' xs

  pub from_vec : ℕ → List A → Exec (Queue A)
  from_vec n vec = extend n (new n) vec

  -- `Clone`: `copy` is the element's own `clone`.
  pub clone_into : ℕ → (A → A) → Queue A → List A → Exec (Queue A)
  clone_into n copy q [] = done q
  clone_into n copy q (x ∷ xs) = do q' ← push_back n q (copy x); clone_into n copy q' xs

  pub clone : ℕ → (A → A) → Queue A → Exec (Queue A)
  clone n copy q = do items ← iter n q; clone_into n copy (new n) items

  -- `self.iter().zip(other.iter()).all(|(a, b)| a == b)`
  pub all_eq : (A → A → Bool) → List A → List A → Bool
  all_eq same [] ys = true
  all_eq same (x ∷ xs) [] = true
  all_eq same (x ∷ xs) (y ∷ ys) = same x y && all_eq same xs ys

  -- `PartialEq`
  pub queue_eq : ℕ → (A → A → Bool) → Queue A → Queue A → Exec Bool
  queue_eq n same q r =
      if len q == len r
      then (do xs ← iter n q; ys ← iter n r; done (all_eq same xs ys))
      else done false

  -- The `match` of `reserve`. `VecDeque::with_capacity` and `VecDeque::reserve` panic above `most`, the
  -- largest capacity that an allocation of this element type can have.
  pub reserve_storage : ℕ → ℕ → Queue A → ℕ → ℕ → Exec (Queue A)
  reserve_storage n most (inline buf head tail k) required additional =
      let spill = (do (spilled, _) ← drain_slots n buf head k []; done (heap spilled)) in
      if ltb n required
      then (if leb required most then spill else panic)
      else done (inline buf head tail k)
  reserve_storage n most (heap vec) required additional =
      if leb (length vec + additional) most then done (heap vec) else panic

  -- `checks` says whether the build has overflow checks; without them the sum of `required_capacity`
  -- wraps around.
  pub reserve : ℕ → ℕ → Bool → Queue A → ℕ → Exec (Queue A)
  reserve n most checks q additional =
      if checks && leb (2 ^ 64) (len q + additional)
      then panic
      else reserve_storage n most q ((len q + additional) % 2 ^ 64) additional

  -- `temp.into_iter().enumerate()`: the values go to the slots from `i` on.
  unfoldable pub write_back : List (Option A) → ℕ → List A → Exec (List (Option A))
  write_back buf i [] = done buf
  write_back buf i (x ∷ xs) = do buf' ← write_slot buf i x; write_back buf' (i + 1) xs

  -- `from_raw_parts(ptr + i, k)`: `k` elements in adjacent slots
  unfoldable pub raw_slice : List (Option A) → ℕ → ℕ → List A → Exec (List A)
  raw_slice buf i zero out = done out
  raw_slice buf i (suc k) out = do x ← peek_slot buf i; raw_slice buf (i + 1) k (out ++ x ∷ [])

  rotate : ℕ → List (Option A) → ℕ → ℕ → Exec (List A × Queue A)
  rotate n buf head k = do
    (temp, buf') ← drain_slots n buf head k []
    buf'' ← write_back buf' 0 temp
    slice ← raw_slice buf'' 0 k []
    done (slice, inline buf'' 0 (if k == n then 0 else k) k)

  -- The slice that is returned, and the queue.
  unfoldable pub make_contiguous : ℕ → Queue A → Exec (List A × Queue A)
  unfolding rotate
  make_contiguous n (inline buf head tail k) =
      if k == 0
      then done ([], inline buf head tail k)
      else if ltb head tail || (head == tail && k == 0)
      then (do slice ← raw_slice buf head k []; done (slice, inline buf head tail k))
      else rotate n buf head k
  make_contiguous n (heap vec) = done (vec, heap vec)

  pub retain_loop : ℕ → (A → Bool) → Queue A → List A → Exec (Queue A)
  retain_loop n keep q [] = done q
  retain_loop n keep q (x ∷ xs) =
      let kept = (do q' ← push_back n q x; retain_loop n keep q' xs) in
      let skipped = retain_loop n keep q xs in if keep x then kept else skipped

  pub retain : ℕ → (A → Bool) → Queue A → Exec (Queue A)
  retain n keep q = do (items, q') ← into_vec n q; retain_loop n keep q' items

  pub take_loop : ℕ → (A → Bool) → Queue A → List A → List A → Exec (List A × Queue A)
  take_loop n remove q removed [] = done (removed, q)
  take_loop n remove q removed (x ∷ xs) =
      let taken = take_loop n remove q (removed ++ x ∷ []) xs in
      let kept = (do q' ← push_back n q x; take_loop n remove q' removed xs) in
      if remove x then taken else kept

  -- The removed elements, and the queue of the others.
  pub take_where : ℕ → (A → Bool) → Queue A → Exec (List A × Queue A)
  take_where n remove q = do (all, q') ← into_vec n q; take_loop n remove q' [] all

  -- `while *len > 0`: the head moves past a slot before its element is dropped.
  pub clear_slots : ℕ → List (Option A) → ℕ → ℕ → List A → Exec (List A × List (Option A))
  clear_slots n buf head zero dropped = done (dropped, buf)
  clear_slots n buf head (suc k) dropped = do
    (x, buf') ← read_slot buf head
    clear_slots n buf' (step_up n head) k (dropped ++ x ∷ [])

  pub clear : ℕ → Queue A → Exec (List A × Queue A)
  clear n (inline buf head tail k) = do
    (dropped, buf') ← clear_slots n buf head k []
    done (dropped, inline buf' 0 0 0)
  clear n (heap vec) = done (vec, heap [])

  -- `ptr::swap` of two slots; both are indexed first
  pub swap_slots : List (Option A) → ℕ → ℕ → Exec (List (Option A))
  swap_slots buf i j = elim (get_elem? buf i) [
    | none ↦ panic
    | some x ↦ elim (get_elem? buf j) [ none ↦ panic | some y ↦ done (set (set buf i y) j x) ]
  ]

  -- `VecDeque::swap`
  pub swap_vec : List A → ℕ → ℕ → Exec (List A)
  swap_vec vec i j = elim (get_elem? vec i) [
    | none ↦ panic
    | some x ↦ elim (get_elem? vec j) [ none ↦ panic | some y ↦ done (set (set vec i y) j x) ]
  ]

  swap_storage : ℕ → Queue A → ℕ → ℕ → Exec (Queue A)
  swap_storage n (inline buf head tail k) a b = do
    buf' ← swap_slots buf ((head + a) % n) ((head + b) % n)
    done (inline buf' head tail k)
  swap_storage n (heap vec) a b = do vec' ← swap_vec vec a b; done (heap vec')

  pub swap : ℕ → Queue A → ℕ → ℕ → Exec (Queue A)
  unfolding swap_storage
  swap n q a b =
      if ltb a (len q)
      then (if ltb b (len q) then (if a == b then done q else swap_storage n q a b) else panic)
      else panic
