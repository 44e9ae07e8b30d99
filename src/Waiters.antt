-- ===== src/Waiters.antt =====
-- The waiter queue as the site_c locks use it: the interface between src/site_c/queue.rs and its clients
-- mutex.rs, rwlock.rs and semaphore.rs. A client has the operations below with their laws and nothing
-- of the ring behind them.
pub mod Inline
pub mod Lists
pub mod Entries
pub mod Registry
use cynosure.Prelude.{◌≡◌, Bool, Option, List, [], ◌∷◌, ◌++◌, filter, reject, is_nil}
use cynosure.Queue.Spec.{pop_head}

-- `Queue<A, 8>` without its storage. `to_list` is what `iter` yields.
pub record WaitQueue {ℓ} (A : Type ℓ) : Type (ℓ + 1) where
  pub Q : Type ℓ
  pub to_list : Q → List A
  pub new : Q
  pub push_back : Q → A → Q
  pub pop_front : Q → Option A × Q
  pub is_empty : Q → Bool
  pub take_where : Q → (A → Bool) → List A × Q
  pub to_list-new : to_list new ≡ []
  pub to_list-push_back : (q : Q) (a : A) → to_list (push_back q a) ≡ to_list q ++ a ∷ []
  pub value-pop_front : (q : Q) → (pop_front q).0 ≡ (pop_head (to_list q)).0
  pub to_list-pop_front : (q : Q) → to_list (pop_front q).1 ≡ (pop_head (to_list q)).1
  pub is_empty-is_nil : (q : Q) → is_empty q ≡ is_nil (to_list q)
  pub value-take_where : (q : Q) (p : A → Bool) → (take_where q p).0 ≡ filter p (to_list q)
  pub to_list-take_where :
      (q : Q) (p : A → Bool) → to_list (take_where q p).1 ≡ reject p (to_list q)
