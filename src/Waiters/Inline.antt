-- ===== src/Waiters/Inline.antt =====
-- `Queue<A, 8>` of src/site_c/queue.rs fills the interface of the waiter queues: its operations are total
-- on the queues that stand for a list, and obey the laws.
use cynosure.Prelude.{
  ℕ, ◌≡◌, refl, Bool, Option, none, some, List, [], ◌∷◌, ◌++◌, reject, is_nil, eq→==, ne→==-false,
  arith,
}
use cynosure.Queue
use cynosure.Queue.{Queue}
use cynosure.Queue.Holds.{Repr}
use cynosure.Queue.Moves.{new-Repr}
use cynosure.Queue.Ends.{push_back_lem, pop_front_lem, Popped}
use cynosure.Queue.Bulk.Build.{len_lem, take_where_lem}
use cynosure.Queue.Spec.{pop_head}
use cynosure.Waiters.{WaitQueue}

module _ {ℓ} (A : Type ℓ) (n : ℕ) where
  -- A queue that can occur, with the list that it stands for.
  abbrev pub Sound : Type ℓ
  Sound = (q : Queue A) × (xs : List A) × Repr n q xs

  unfoldable pub sound_push_back : Sound → A → Sound
  sound_push_back (q, xs, h) a = let (q', e, k) = push_back_lem n q xs a h in (q', xs ++ a ∷ [], k)

  unfoldable pub popped : (r : Option A × Queue A) (xs : List A) → Popped n r xs → Option A × Sound
  popped (none, q) xs (e, k) = (none, (q, [], k))
  popped (some x, q) xs (ys, e, k) = (some x, (q, ys, k))

  unfoldable pub sound_pop_front : Sound → Option A × Sound
  unfolding popped
  sound_pop_front (q, xs, h) = let (r, e, k) = pop_front_lem n q xs h in popped r xs k

  unfoldable pub sound_take_where : Sound → (A → Bool) → List A × Sound
  sound_take_where (q, xs, h) p =
      let (r, e, (f, k)) = take_where_lem n p q xs h in (r.0, (r.1, reject p xs, k))

  pub popped_value :
      (r : Option A × Queue A) (xs : List A) (k : Popped n r xs)
      → ((popped r xs k).0 ≡ (pop_head xs).0) × ((popped r xs k).1.1 ≡ (pop_head xs).1)
  unfolding popped pop_head
  popped_value (none, q) xs (e, k) = rw e (refl, refl)
  popped_value (some x, q) xs (ys, e, k) = rw e (refl, refl)

  pub is_empty_lem : (q : Queue A) (xs : List A) → Repr n q xs → Queue.is_empty q ≡ is_nil xs
  unfolding Queue.is_empty
  is_empty_lem q [] h = eq→== _ 0 (len_lem n q [] h)
  is_empty_lem q (x ∷ xs) h = ne→==-false _ 0 (omega (arith, len_lem n q (x ∷ xs) h))

  unfoldable pub inline_wait_queue : WaitQueue A
  unfolding sound_push_back sound_pop_front sound_take_where
  inline_wait_queue = record {
    Q = Sound;
    to_list = λ s. s.1;
    new = (Queue.new n, [], new-Repr A n);
    push_back = sound_push_back;
    pop_front = sound_pop_front;
    is_empty = λ s. Queue.is_empty s.0;
    take_where = sound_take_where;
    to_list-new = refl;
    to_list-push_back = λ s a. refl;
    value-pop_front = λ s. (popped_value _ s.1 (pop_front_lem n s.0 s.1 s.2).2).0;
    to_list-pop_front = λ s. (popped_value _ s.1 (pop_front_lem n s.0 s.1 s.2).2).1;
    is_empty-is_nil = λ s. is_empty_lem s.0 s.1 s.2;
    value-take_where = λ s p. (take_where_lem n p s.0 s.1 s.2).2.0;
    to_list-take_where = λ s p. refl;
  }
