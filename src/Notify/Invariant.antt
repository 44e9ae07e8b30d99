-- ===== src/Notify/Invariant.antt =====
-- What holds of a `WaiterSlot`, of the task that waits and of the threads that signal, between any two
-- steps.
use cynosure.Prelude.{
  ℕ, ◌≡◌, ◌≢◌, refl, sym, ap, ◌∙◌, subst, ◌⊎◌, inl, inr, Bool, true, false, Option, none, some,
  ◌==◌, update, update_self, update_ne, ==→eq, ==-false→ne, Bool-cases,
}
use cynosure.Notify
use cynosure.Notify.{AtomicWaker, WaiterSlot}
use cynosure.Notify.System.{System, Waiter, Signaler, init}

-- Does the task have the `REGISTERING` lock?
abbrev pub in_lock : Waiter → Bool
in_lock Waiter.idle = false
in_lock Waiter.registering = false
in_lock Waiter.storing = true
in_lock Waiter.unlocking = true
in_lock Waiter.raced = true
in_lock (Waiter.releasing w) = true
in_lock (Waiter.firing w) = false
in_lock Waiter.arming = false
in_lock Waiter.checking = false
in_lock Waiter.disarming = false
in_lock Waiter.parked = false

-- Does the thread have the `WAKING` lock?
abbrev pub locks : Signaler → Bool
locks Signaler.idle = false
locks Signaler.loading = false
locks Signaler.claiming = false
locks Signaler.locking = false
locks Signaler.taking = true
locks (Signaler.unlocking w) = true
locks (Signaler.calling w) = false

-- Is it going to call the waker `c`?
abbrev pub fires : ℕ → Signaler → Bool
fires c Signaler.idle = false
fires c Signaler.loading = false
fires c Signaler.claiming = false
fires c Signaler.locking = false
fires c Signaler.taking = false
fires c (Signaler.unlocking none) = false
fires c (Signaler.unlocking (some w)) = w == c
fires c (Signaler.calling w) = w == c

-- Has it claimed the flag, and is about to take the waker?
abbrev pub holds : Signaler → Bool
holds Signaler.idle = false
holds Signaler.loading = false
holds Signaler.claiming = false
holds Signaler.locking = true
holds Signaler.taking = true
holds (Signaler.unlocking w) = false
holds (Signaler.calling w) = false

-- Is it about to look at the flag?
abbrev pub comes : Signaler → Bool
comes Signaler.idle = false
comes Signaler.loading = true
comes Signaler.claiming = true
comes Signaler.locking = false
comes Signaler.taking = false
comes (Signaler.unlocking w) = false
comes (Signaler.calling w) = false

abbrev pub Some : (Signaler → Bool) → (ℕ → Signaler) → Type 0
Some p f = (i : ℕ) × (p (f i) ≡ true)

abbrev pub HasCell : System → Type 0
HasCell s = s.slot.waker.waker ≡ some s.current

abbrev pub Fired : System → Type 0
Fired s = (s.woken ≡ true) ⊎ Some (fires s.current) s.signalers

abbrev pub Armed : System → Type 0
Armed s = (s.slot.armed ≡ true) ⊎ Some holds s.signalers

-- A thread is on its way to the waker.
abbrev pub Going : System → Type 0
Going s = Some holds s.signalers ⊎ ((s.slot.armed ≡ true) × Some comes s.signalers)

abbrev pub Phase : System → Waiter → Type 0
Phase s Waiter.idle = Unit
Phase s Waiter.registering = Unit
Phase s Waiter.storing = Unit
Phase s Waiter.unlocking = HasCell s
Phase s Waiter.raced = HasCell s
Phase s (Waiter.releasing w) = w ≡ s.current
Phase s (Waiter.firing w) = w ≡ s.current
Phase s Waiter.arming = Fired s ⊎ HasCell s
Phase s Waiter.checking = (Fired s ⊎ HasCell s) × (Fired s ⊎ Armed s)
Phase s Waiter.disarming = Unit
Phase s Waiter.parked =
    (Fired s ⊎ HasCell s) × (Fired s ⊎ Armed s) × ((s.ready ≡ false) ⊎ (Fired s ⊎ Going s))

-- The thread that has the `WAKING` lock is one, and the task does not have the other lock then; the cell
-- is empty from when the thread took the waker.
pub record Locks (a : AtomicWaker) (f : ℕ → Signaler) (owner : Option ℕ) : Type 0 where
  pub owned : (i : ℕ) → locks (f i) ≡ true → owner ≡ some i
  pub owner_at :
      (i : ℕ) → owner ≡ some i → (locks (f i) ≡ true) × (a.registering ≡ false) × (a.waking ≡ true)
  pub emptied : (i : ℕ) (w : Option ℕ) → f i ≡ Signaler.unlocking w → a.waker ≡ none
  pub held : a.waking ≡ true → (a.registering ≡ true) ⊎ ((i : ℕ) × (owner ≡ some i))

pub record Inv (s : System) : Type 0 where
  pub locked : s.slot.waker.registering ≡ in_lock s.waiter
  pub lock : Locks s.slot.waker s.signalers s.owner
  pub phase : Phase s s.waiter

pub init-Inv : Inv init
unfolding init Notify.new
init-Inv = record {
  locked = refl;
  lock = record {
    owned = λ i e. absurd (cc);
    owner_at = λ i e. absurd (cc);
    emptied = λ i w e. absurd (cc);
    held = λ e. absurd (cc);
  };
  phase = tt;
}

-- A changed function, at any place
pub update-at :
    {A : Type 0} (P : A → Type 0) (f : ℕ → A) (i : ℕ) (a : A) (j : ℕ)
    → (i ≡ j → P a)
    → (i ≢ j → P (f j))
    → P (update f i a j)
update-at P f i a j here there = elim (Bool-cases (i == j)) [
  | inl e ↦ subst P (sym (update_self f i a) ∙ ap (update f i a) (==→eq i j e)) (here (==→eq i j e))
  | inr ne ↦ subst P (sym (update_ne f i j a (==-false→ne i j ne))) (there (==-false→ne i j ne))
]

module _ (p : Signaler → Bool) (f : ℕ → Signaler) (i : ℕ) (a : Signaler) where
  pub Some-here : p a ≡ true → Some p (update f i a)
  Some-here h = (i, ap p (update_self f i a) ∙ h)

  -- Another thread is still one after this one moved; or this was the one.
  pub Some-or : Some p f → Some p (update f i a) ⊎ (p (f i) ≡ true)
  Some-or (j, h) = elim (Bool-cases (i == j)) [
    | inl e ↦ inr (ap (λ k. p (f k)) (==→eq i j e) ∙ h)
    | inr ne ↦ inl (j, ap p (update_ne f i j a (==-false→ne i j ne)) ∙ h)
  ]

  pub Some-keep : (p (f i) ≡ true → p a ≡ true) → Some p f → Some p (update f i a)
  Some-keep k h = elim (Some-or h) [ inl still ↦ still | inr this ↦ Some-here (k this) ]

  pub Some-quiet : p (f i) ≡ false → Some p f → Some p (update f i a)
  Some-quiet not_this h = Some-keep (λ yes. absurd (cc)) h
