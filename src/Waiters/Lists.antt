-- ===== src/Waiters/Lists.antt =====
-- A plain list as a waiter queue: the smallest implementation of the interface, on which runs of the
-- clients compute.
use cynosure.Prelude.{refl, List, [], ◌∷◌, ◌++◌, filter, reject, is_nil}
use cynosure.Queue.Spec.{pop_head}
use cynosure.Waiters.{WaitQueue}

module _ {ℓ} (A : Type ℓ) where
  unfoldable pub list_wait_queue : WaitQueue A
  unfolding pop_head
  list_wait_queue = record {
    Q = List A;
    to_list = λ l. l;
    new = [];
    push_back = λ l a. l ++ a ∷ [];
    pop_front = pop_head;
    is_empty = is_nil;
    take_where = λ l p. (filter p l, reject p l);
    to_list-new = refl;
    to_list-push_back = λ l a. refl;
    value-pop_front = λ l. refl;
    to_list-pop_front = λ l. refl;
    is_empty-is_nil = λ l. refl;
    value-take_where = λ l p. refl;
    to_list-take_where = λ l p. refl;
  }
