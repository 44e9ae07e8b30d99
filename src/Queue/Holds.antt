-- ===== src/Queue/Holds.antt =====
-- The representation of `Queue`: which list a queue stands for, and what a write, a read and a look at
-- one slot do to it.
use cynosure.Prelude.{
  ℕ, ◌-◌, ◌≤◌, ◌<◌, ◌≡◌, Option, none, some, List, length, get_elem?, set, lt→ltb, done,
}
use cynosure.Queue.{Queue, inline, heap, write_slot, read_slot, peek_slot}
use cynosure.Queue.Slots.{slot}

module _ {ℓ} {A : Type ℓ} where
  -- From `head` on, `buf` holds the elements of `xs`, going round at `n`.
  abbrev pub Live : ℕ → List (Option A) → ℕ → List A → Type ℓ
  Live n buf head xs =
      (i : ℕ) → i < length xs → get_elem? buf (slot n head i) ≡ some (get_elem? xs i)

  -- A ring that holds `xs`. For `n` = 0 the bound on `head` says that it is 0.
  pub record Holds (n : ℕ) (buf : List (Option A)) (head tail len : ℕ) (xs : List A) : Type ℓ where
    pub size : length buf ≡ n
    pub count : len ≡ length xs
    pub fits : len ≤ n
    pub head_in : head ≤ n - 1
    pub tail_at : tail ≡ slot n head len
    pub live : Live n buf head xs

  -- The queue `q`, of inline capacity `n`, stands for the list `xs`, front first.
  abbrev pub Repr : ℕ → Queue A → List A → Type ℓ
  Repr n (inline buf head tail len) xs = Holds n buf head tail len xs
  Repr n (heap vec) xs = vec ≡ xs

  pub write_slot_lem :
      (buf : List (Option A)) (i : ℕ) (v : A)
      → i < length buf
      → write_slot buf i v ≡ done (set buf i (some v))
  unfolding write_slot
  write_slot_lem buf i v h = rw (lt→ltb _ _ h)

  pub read_slot_lem :
      (buf : List (Option A)) (i : ℕ) (v : A)
      → get_elem? buf i ≡ some (some v)
      → read_slot buf i ≡ done (v, set buf i none)
  unfolding read_slot
  read_slot_lem buf i v h = rw (h, read_slot)

  pub peek_slot_lem :
      (buf : List (Option A)) (i : ℕ) (v : A)
      → get_elem? buf i ≡ some (some v)
      → peek_slot buf i ≡ done v
  unfolding peek_slot
  peek_slot_lem buf i v h = rw (h, peek_slot)
