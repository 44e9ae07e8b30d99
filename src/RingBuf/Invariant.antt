-- ===== src/RingBuf/Invariant.antt =====
-- What holds of the ring and of its two halves between any two phases.
use cynosure.Prelude.{
  ℕ, ◌+◌, ◌%◌, ◌^◌, ◌≤◌, ◌≡◌, refl, ◌⊎◌, inl, inr, Bool, true, false, ◌||◌, Option, List, [], ◌++◌,
  length, arith,
}
use cynosure.RingBuf
use cynosure.RingBuf.{Shared, Producer, Consumer}
use cynosure.RingBuf.Live.{Live}
use cynosure.RingBuf.System.{System, Pushing, Popping, Mode, armed, parked, failed, init}

module _ {T : Type 0} where
  -- The slots the producer has been granted.
  abbrev pub claimed : Pushing T → ℕ
  claimed Pushing.idle = 0
  claimed (Pushing.writing_one v) = 1
  claimed (Pushing.writing items) = length items
  claimed (Pushing.publishing items) = length items
  claimed Pushing.signaling = 0
  claimed Pushing.disarming = 0

  -- The elements that are in their slots, but not yet published.
  abbrev pub written : Pushing T → List T
  written Pushing.idle = []
  written (Pushing.writing_one v) = []
  written (Pushing.writing items) = []
  written (Pushing.publishing items) = items
  written Pushing.signaling = []
  written Pushing.disarming = []

  -- The elements the consumer has been granted.
  abbrev pub asked : Popping T → ℕ
  asked Popping.idle = 0
  asked Popping.reading_one = 1
  asked (Popping.reading k) = k
  asked (Popping.publishing items) = length items
  asked Popping.signaling = 0
  asked Popping.disarming = 0

  -- The elements that were read, but whose slots are not given back yet.
  abbrev pub taken : Popping T → List T
  taken Popping.idle = []
  taken Popping.reading_one = []
  taken (Popping.reading k) = []
  taken (Popping.publishing items) = items
  taken Popping.signaling = []
  taken Popping.disarming = []

-- The cached read index is that after `a` pops, and leaves room for `c` more elements.
abbrev pub ProducerKnows : ℕ → Producer → ℕ → ℕ → ℕ → Type 0
ProducerKnows n p c w r =
    (a : ℕ) × ((p.cached_read ≡ a % 2 ^ 64)
      × (p.cached_write ≡ w % 2 ^ 64)
      × (a ≤ r)
      × (w + c ≤ a + n))

-- The cached write index is that after `b` pushes, which is enough to take `k` elements.
abbrev pub ConsumerKnows : Consumer → ℕ → ℕ → ℕ → Type 0
ConsumerKnows c k w r =
    (b : ℕ) × ((c.cached_write ≡ b % 2 ^ 64) × (c.cached_read ≡ r % 2 ^ 64) × (b ≤ w) × (r + k ≤ b))

module _ {T : Type 0} (n : ℕ) where
  -- The capacity and the indices, after `w` pushes and `r` pops.
  abbrev pub Indices : Shared T → ℕ → ℕ → Type 0
  Indices shared w r =
      (shared.capacity ≡ n) × (shared.write_index ≡ w % 2 ^ 64) × (shared.read_index ≡ r % 2 ^ 64)

  -- `rest` is what is published and not read yet; it is in its slots, and `fresh` is after it.
  abbrev pub Contents :
      (ℕ → Option T) → (out : List T) → (fresh : List T) → (sent : List T) → (got : List T) → Type 0
  Contents buffer out fresh sent got =
      (rest : List T) × ((sent ≡ got ++ (out ++ rest))
        × Live n buffer (length got + length out) (rest ++ fresh))

-- An armed future has been woken or is going to be; a pending one that has not been woken is stuck for
-- a reason, and still armed.
abbrev pub Waits : Mode → Bool → Bool → Type 0 → Type 0
Waits mode woken flag Stuck =
    (mode ≡ armed → (woken ≡ true) ⊎ (flag ≡ true))
    × (mode ≡ parked → (woken ≡ true) ⊎ ((flag ≡ true) × Stuck))

module _ {T : Type 0} where
  abbrev pub Full : ℕ → System T → Type 0
  Full n s = (length s.sent ≡ length s.got + n) ⊎ (s.popping ≡ Popping.signaling)

  abbrev pub Empty : System T → Type 0
  Empty s = (length s.sent ≡ length s.got) ⊎ (s.pushing ≡ Pushing.signaling)

  pub record Inv (n : ℕ) (s : System T) : Type 0 where
    pub indices : Indices n s.shared (length s.sent) (length s.got)
    pub producer : ProducerKnows n s.producer (claimed s.pushing) (length s.sent) (length s.got)
    pub consumer : ConsumerKnows s.consumer (asked s.popping) (length s.sent) (length s.got)
    pub contents : Contents n s.shared.buffer (taken s.popping) (written s.pushing) s.sent s.got
    pub push_waits : Waits s.push_mode s.push_woken s.shared.producer_armed (Full n s)
    pub pop_waits : Waits s.pop_mode s.pop_woken s.shared.consumer_armed (Empty s)

module _ {Stuck Stuck' : Type 0} where
  pub Waits-keep :
      (mode : Mode) (woken flag : Bool)
      → (mode ≡ parked → Stuck → Stuck')
      → Waits mode woken flag Stuck
      → Waits mode woken flag Stuck'
  Waits-keep mode woken flag f (a, p) =
      (a, λ e. elim (p e) [ inl w ↦ inl w | inr (on, stuck) ↦ inr (on, f e stuck) ])

  -- A signal takes the flag and wakes the one who had set it.
  pub Waits-signal :
      (mode : Mode) (woken flag : Bool)
      → Waits mode woken flag Stuck
      → Waits mode (woken || flag) false Stuck'
  Waits-signal mode woken flag (a, p) = (
    λ e. elim (a e) [ inl w ↦ inl (ground (arith, w)) | inr f ↦ inl (ground (arith, f)) ],
    λ e. elim (p e) [ inl w ↦ inl (ground (arith, w)) | inr (f, _) ↦ inl (ground (arith, f)) ],
  )

  -- An attempt that failed leaves an armed future pending.
  pub Waits-fail :
      (mode : Mode) (woken flag : Bool)
      → (mode ≡ armed → Stuck')
      → (mode ≡ parked → Stuck → Stuck')
      → Waits mode woken flag Stuck
      → Waits (failed mode) woken flag Stuck'
  Waits-fail Mode.running woken flag now keep (a, p) = (λ e. absurd (cc), λ e. absurd (cc))
  Waits-fail Mode.armed woken flag now keep (a, p) =
      (λ e. absurd (cc), λ e. elim (a refl) [ inl w ↦ inl w | inr f ↦ inr (f, now refl) ])
  Waits-fail Mode.parked woken flag now keep (a, p) =
      Waits-keep Mode.parked woken flag (λ e. keep e) (a, p)

pub Waits-running : {Stuck : Type 0} (woken flag : Bool) → Waits Mode.running woken flag Stuck
Waits-running woken flag = (λ e. absurd (cc), λ e. absurd (cc))

pub Waits-armed : {Stuck : Type 0} (woken : Bool) → Waits Mode.armed woken true Stuck
Waits-armed woken = (λ e. inr refl, λ e. absurd (cc))

module _ {T : Type 0} (n : ℕ) where
  pub init-Inv :
      (shared : Shared T)
      → shared.capacity ≡ n
      → shared.write_index ≡ 0
      → shared.read_index ≡ 0
      → Inv n (init shared)
  unfolding init RingBuf.split
  init-Inv shared size w r = record {
    indices = (size, w, r);
    producer = (0, (refl, refl, omega arith, omega arith));
    consumer = (0, (refl, refl, omega arith, omega arith));
    contents = ([], (refl, λ j x e. absurd (cc)));
    push_waits = Waits-running false shared.producer_armed;
    pop_waits = Waits-running false shared.consumer_armed;
  }
