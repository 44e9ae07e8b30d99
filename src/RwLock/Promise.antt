-- ===== src/RwLock/Promise.antt =====
-- What `LocalRwLock` promises its users, in every state that calls can lead to.
use cynosure.Prelude.{
  ℕ, ◌+◌, ◌≤◌, ◌<◌, ◌≡◌, ◌≢◌, refl, ◌∙◌, subst, ◌⊎◌, inl, inr, Bool, true, false, Option, some,
  List, [], ◌∷◌, arith, length, of_bool, done, Returns, Returns-bind, Returns-at,
}
use cynosure.Waiters.{WaitQueue}
use cynosure.Waiters.Entries.{In}
use cynosure.RwLock.{usize_max}
use cynosure.RwLock.System
use cynosure.RwLock.System.{System, Event}
use cynosure.Waiters.Registry.Invariant.{Tracks}
use cynosure.RwLock.Safety.{Inv, Kept, init-Inv, try_read-Kept, try_write-Kept}
use cynosure.RwLock.Polls.{poll_read-Kept, poll_write-Kept}
use cynosure.RwLock.Leaves.{
  drop_read_guard-Kept, drop_write_guard-Kept, drop_read_future-Kept, drop_write_future-Kept,
}

excludes :
    (r g w : ℕ) (b : Bool)
    → r ≡ g
    → w ≡ of_bool b
    → (b ≡ true → g ≡ 0)
    → (w ≡ 0) ⊎ ((w ≡ 1) × (r ≡ 0))
excludes r g w true e f h = inr (f, e ∙ h refl)
excludes r g w false e f h = inl f

module _ {P : Type 0} where
  In-head : (l : List (ℕ × P)) → l ≢ [] → (e : ℕ × P) × In e l
  In-head [] ne = absurd (ne refl)
  In-head (e ∷ l) ne = (e, inl refl)

  -- Is a future of `slots` among those that were woken and have been neither polled nor dropped since?
  abbrev Called : (ℕ → Option (ℕ × P)) → List (ℕ × P) → Type 0
  Called slots woken = (f : ℕ × P) × (j : ℕ) × In f woken × (slots j ≡ some f)

  called :
      (q : List (ℕ × P)) (slots : ℕ → Option (ℕ × P)) (woken : List (ℕ × P)) (next : ℕ)
      → Tracks q slots woken next
      → woken ≢ []
      → Called slots woken
  called q slots woken next t ne =
      let (f, h) = In-head woken ne in let (j, own) = t.woken_owned f h in (f, j, h, own)

module _ {W T : Type 0} (same : W → W → Bool) (d : WaitQueue (ℕ × W)) where
  open d use {Q, to_list}

  step-Kept :
      (k : ℕ) (s : System W Q T) (e : Event W) → k < usize_max → Inv same d k s → Kept same d k s e
  step-Kept k s Event.try_read room v = try_read-Kept same d k s room v
  step-Kept k s Event.try_write room v = try_write-Kept same d k s v
  step-Kept k s (Event.poll_read i w) room v = poll_read-Kept same d k s i w room v
  step-Kept k s (Event.poll_write i w) room v = poll_write-Kept same d k s i w room v
  step-Kept k s (Event.drop_read_future i) room v = drop_read_future-Kept same d k s i v
  step-Kept k s (Event.drop_write_future i) room v = drop_write_future-Kept same d k s i v
  step-Kept k s Event.drop_read_guard room v = drop_read_guard-Kept same d k s v
  step-Kept k s Event.drop_write_guard room v = drop_write_guard-Kept same d k s v

  run-Kept :
      (k : ℕ) (s : System W Q T) (es : List (Event W))
      → k + length es ≤ usize_max
      → Inv same d k s
      → Returns (System.run same d s es) (Inv same d (k + length es))
  unfolding System.run
  run-Kept k s [] room v = (s, refl, subst (λ z. Inv same d z s) (omega arith) v)
  run-Kept k s (e ∷ es) room v =
      Returns-bind (System.step same d s e) (λ z. System.run same d z es)
        (step-Kept k s e (omega arith) v)
        (λ z u.
          subst (λ n. Returns (System.run same d z es) (Inv same d n)) (omega arith)
            (run-Kept (k + 1) z es (omega arith) u))

  pub reached-Inv :
      (v : T) (es : List (Event W))
      → length es ≤ usize_max
      → Returns (System.run same d (System.init same d v) es) (Inv same d (length es))
  reached-Inv v es few =
      subst (λ n. Returns (System.run same d (System.init same d v) es) (Inv same d n))
        (omega arith) (run-Kept 0 (System.init same d v) es (omega arith) (init-Inv same d v))

  -- No sequence of calls panics: the reader count does not overflow and the two debug assertions
  -- hold. After it either no write guard is out, or exactly one and no read guard, and the counters of
  -- the lock are those of the guards.
  pub readers_writer_exclusion :
      (v : T) (es : List (Event W))
      → length es ≤ usize_max
      → Returns (System.run same d (System.init same d v) es) (λ s.
        ((s.write_guards ≡ 0) ⊎ ((s.write_guards ≡ 1) × (s.read_guards ≡ 0)))
        × (s.read_guards ≡ s.lock.readers)
        × (s.write_guards ≡ of_bool s.lock.writer))
  readers_writer_exclusion v es few =
      let (s, e, inv) = reached-Inv v es few in
      (
        s,
        e,
        (
          excludes s.read_guards s.lock.readers s.write_guards s.lock.writer inv.readers_out
              inv.writers_out inv.exclusive,
          inv.readers_out,
          inv.writers_out,
        ),
      )

  -- If the lock is free while some write future waits, then a write future that is alive has been woken
  -- and has not been polled since.
  pub writer_not_forgotten :
      (v : T) (es : List (Event W)) (s : System W Q T) (i : ℕ) (e : ℕ × W)
      → length es ≤ usize_max
      → System.run same d (System.init same d v) es ≡ done s
      → s.lock.writer ≡ false
      → s.lock.readers ≡ 0
      → s.write_slots i ≡ some e
      → (f : ℕ × W) × (j : ℕ) × In f s.write_woken × (s.write_slots j ≡ some f)
  writer_not_forgotten v es s i e few ran free unread at =
      let wait = (Returns-at _ s (reached-Inv v es few) ran).waiting in
      let t = wait.writes in
      elim (wait.progress free unread).0 [
        | inl nobody ↦ elim (t.placed i e at) [
          | inl k ↦ elim (subst (In e) nobody k) [ ]
          | inr k ↦ let (j, own) = t.woken_owned e k in (e, j, k, own)
        ]
        | inr ne ↦ called _ s.write_slots s.write_woken _ t ne
      ]

  -- If the lock is free while some read future waits, then a future that is alive has been woken and has
  -- not been polled since: a read future, or a write future.
  pub reader_not_forgotten :
      (v : T) (es : List (Event W)) (s : System W Q T) (i : ℕ) (e : ℕ × W)
      → length es ≤ usize_max
      → System.run same d (System.init same d v) es ≡ done s
      → s.lock.writer ≡ false
      → s.lock.readers ≡ 0
      → s.read_slots i ≡ some e
      → ((f : ℕ × W) × (j : ℕ) × In f s.read_woken × (s.read_slots j ≡ some f))
        ⊎ ((f : ℕ × W) × (j : ℕ) × In f s.write_woken × (s.write_slots j ≡ some f))
  reader_not_forgotten v es s i e few ran free unread at =
      let wait = (Returns-at _ s (reached-Inv v es few) ran).waiting in
      let t = wait.reads in
      elim (wait.progress free unread).1 [
        | inl nobody ↦ elim (t.placed i e at) [
          | inl k ↦ elim (subst (In e) nobody k) [ ]
          | inr k ↦ let (j, own) = t.woken_owned e k in inl (e, j, k, own)
        ]
        | inr (inl ne) ↦ inl (called _ s.read_slots s.read_woken _ t ne)
        | inr (inr ne) ↦ inr (called _ s.write_slots s.write_woken _ wait.writes ne)
      ]
