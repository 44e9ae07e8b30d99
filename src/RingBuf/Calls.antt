-- ===== src/RingBuf/Calls.antt =====
-- Calls of both halves, one after the other, against a specification: a queue of at most `n` elements.
use cynosure.Prelude.{
  ℕ, ◌+◌, ◌^◌, ◌≤◌, ◌<◌, ◌≡◌, refl, sym, subst, ◌⊎◌, inl, inr, Bool, true, false, Option, none,
  some, List, [], ◌∷◌, ◌++◌, take, length, ltb, ltb→lt, arith, Bool-cases, Exec, done, ◌>>=◌,
  Returns, Returns-bind,
}
use Prim.Native.Nat.{◌∣◌}
use mathlib.Core.List.{head?, tail}
use cynosure.RingBuf
use cynosure.RingBuf.{Shared, Producer, Consumer}
use cynosure.RingBuf.Operations.{try_push, try_push_slice, try_pop, try_pop_slice}
use cynosure.RingBuf.Bounded.{Holds}
use cynosure.RingBuf.Bounded.Push.{try_push_lem, try_push_slice_lem}
use cynosure.RingBuf.Bounded.Pop.{try_pop_lem, try_pop_slice_lem}

pub data Call (T : Type 0) : Type 0 where
  push : T → Call T
  push_slice : List T → Call T
  pop : Call T
  -- into a slice of this length
  pop_slice : ℕ → Call T

pub data Reply (T : Type 0) : Type 0 where
  pushed : Bool → Reply T
  pushed_some : ℕ → Reply T
  popped : Option T → Reply T
  popped_some : List T → Reply T

pub record Ring (T : Type 0) : Type 0 where
  pub shared : Shared T
  pub producer : Producer
  pub consumer : Consumer

-- What a queue of at most `n` elements may reply, and what is in it then. A slice may be pushed or popped
-- in part, but not at all only if it is empty, or the queue is full (empty).
pub data QueueStep {T : Type 0} (n : ℕ) : List T → Call T → Reply T → List T → Type 0 where
  accepts :
      {l : List T} {v : T}
      → length l < n
      → QueueStep n l (Call.push v) (Reply.pushed true) (l ++ v ∷ [])
  refuses : {l : List T} {v : T} → length l ≡ n → QueueStep n l (Call.push v) (Reply.pushed false) l
  takes_in :
      {l items : List T} {k : ℕ}
      → k ≤ length items
      → length l + k ≤ n
      → (0 < k) ⊎ ((length items ≡ 0) ⊎ (length l ≡ n))
      → QueueStep n l (Call.push_slice items) (Reply.pushed_some k) (l ++ take k items)
  gives : {l : List T} {v : T} → QueueStep n (v ∷ l) Call.pop (Reply.popped (some v)) l
  has_none : QueueStep n [] Call.pop (Reply.popped none) []
  takes_out :
      {vs rest : List T} {k : ℕ}
      → length vs ≤ k
      → (0 < length vs) ⊎ ((k ≡ 0) ⊎ (vs ++ rest ≡ []))
      → QueueStep n (vs ++ rest) (Call.pop_slice k) (Reply.popped_some vs) rest

pub data QueueTrace {T : Type 0} (n : ℕ)
    : List T → List (Call T) → List (Reply T) → List T → Type 0 where
  ends : {l : List T} → QueueTrace n l [] [] l
  goes_on :
      {l l' l'' : List T} {c : Call T} {cs : List (Call T)} {r : Reply T} {rs : List (Reply T)}
      → QueueStep n l c r l'
      → QueueTrace n l' cs rs l''
      → QueueTrace n l (c ∷ cs) (r ∷ rs) l''

module _ {T : Type 0} where
  unfoldable pub start : Shared T → Ring T
  start s = record { shared = s; producer = RingBuf.split.0; consumer = RingBuf.split.1 }

  unfoldable pub call : Ring T → Call T → Exec (Reply T × Ring T)
  call x (Call.push v) = do
    (ok, woken, s, p) ← try_push x.shared x.producer v
    done (Reply.pushed ok, record x { shared = s; producer = p })
  call x (Call.push_slice items) = do
    (k, woken, s, p) ← try_push_slice x.shared x.producer items
    done (Reply.pushed_some k, record x { shared = s; producer = p })
  call x Call.pop = do
    (got, woken, s, c) ← try_pop x.shared x.consumer
    done (Reply.popped got, record x { shared = s; consumer = c })
  call x (Call.pop_slice k) = do
    (got, woken, s, c) ← try_pop_slice x.shared x.consumer k
    done (Reply.popped_some got, record x { shared = s; consumer = c })

  unfoldable pub calls : Ring T → List (Call T) → Exec (List (Reply T) × Ring T)
  calls x [] = done ([], x)
  calls x (c ∷ cs) = do (r, x') ← call x c; (rs, x'') ← calls x' cs; done (r ∷ rs, x'')

module _ {T : Type 0} (n : ℕ) (pos : 0 < n) (wraps : n ∣ 2 ^ 64) (small : n ≤ 2 ^ 63) where
  abbrev pub Contains : Ring T → List T → Type 0
  Contains x l = Holds n x.shared x.producer x.consumer l

  -- Each call does what the specification allows, and returns.
  call-QueueStep :
      (x : Ring T) (c : Call T) (l : List T)
      → Contains x l
      → Returns (call x c) (λ (r, x'). (l' : List T) × QueueStep n l c r l' × Contains x' l')
  unfolding call
  call-QueueStep x (Call.push v) l h =
      let bound : length l ≤ n =
        let (r, (_, (a, (_, _, le, fits)), _, _)) = h in omega (arith, le, fits) in
      let ((ok, woken, s, p), ran, (same, _, _, h')) =
        try_push_lem n pos wraps small x.shared x.producer x.consumer l v h in
      rw (ran, ◌>>=◌, same)
        (elim (Bool-cases (ltb (length l) n)) [
          | inl e ↦ (_, refl, (_, rw e (accepts (ltb→lt _ _ e)), rw e at h'))
          | inr e ↦ (_, refl, (_, rw e (refuses (ground (arith, e, bound))), rw e at h'))
        ])
  call-QueueStep x (Call.push_slice items) l h =
      let ((k, woken, s, p), ran, (k_le, why, _, _, fits, h')) =
        try_push_slice_lem n pos wraps small x.shared x.producer x.consumer l items h in
      rw (ran, ◌>>=◌) (_, refl, (_, takes_in k_le fits why, h'))
  call-QueueStep x Call.pop l h =
      let ((got, woken, s, c), ran, (same, _, _, h')) =
        try_pop_lem n pos wraps small x.shared x.producer x.consumer l h in
      rw (ran, ◌>>=◌)
        (
          _,
          refl,
          (
            tail l,
            subst (λ g. QueueStep n l Call.pop (Reply.popped g) (tail l)) (sym same) (first l),
            h',
          ),
        )
    where
      first : (l : List T) → QueueStep n l Call.pop (Reply.popped (head? l)) (tail l)
      first [] = has_none
      first (v ∷ l) = gives
  call-QueueStep x (Call.pop_slice k) l h =
      let ((vs, woken, s, c), ran, (vs_le, why, _, _, (rest, (whole, h')))) =
        try_pop_slice_lem n pos wraps small x.shared x.producer x.consumer l k h in
      rw (ran, ◌>>=◌)
        (
          _,
          refl,
          (
            rest,
            subst (λ z. QueueStep n z (Call.pop_slice k) (Reply.popped_some vs) rest) (sym whole)
                (takes_out vs_le (subst (λ z. (0 < length vs) ⊎ ((k ≡ 0) ⊎ (z ≡ []))) whole why)),
            h',
          ),
        )

  pub calls-QueueTrace :
      (x : Ring T) (cs : List (Call T)) (l : List T)
      → Contains x l
      → Returns (calls x cs) (λ (rs, x'). (l' : List T) × QueueTrace n l cs rs l' × Contains x' l')
  unfolding calls
  calls-QueueTrace x [] l h = (_, refl, (l, ends, h))
  calls-QueueTrace x (c ∷ cs) l h =
      Returns-bind _ _ (call-QueueStep x c l h) (λ (r, x') (l', step, h').
        Returns-bind _ _ (calls-QueueTrace x' cs l' h')
          (λ (rs, x'') (l'', trace, h''). (_, refl, (l'', goes_on step trace, h''))))
