-- ===== src/RwLock/Leaves.antt =====
-- Dropping a guard or a future keeps the invariant of `LocalRwLock` and does not panic.
use cynosure.Prelude.{
  ℕ, ◌+◌, ◌-◌, ◌<◌, ◌≡◌, refl, sym, ap, ◌∙◌, subst, inl, inr, Bool, true, false, Option, none, some,
  List, ◌++◌, append-nil, arith, ltb, ltb→lt, lt→ltb, of_bool, update, Bool-cases, Option-cases,
  done, Returns,
}
use cynosure.Waiters.{WaitQueue}
use cynosure.Waiters.Registry.{deregister_in}
use cynosure.Waiters.Registry.Invariant.{Tracks, Tracks-leave, drop_entry, with_wake}
use cynosure.Waiters.Registry.Keep.{deregister_in-Tracks}
use cynosure.RwLock
use cynosure.RwLock.{RwLock, usize_max}
use cynosure.RwLock.System
use cynosure.RwLock.System.{System, Event}
use cynosure.RwLock.Wake.{wake_next_lem}
use cynosure.RwLock.Safety.{Inv, Kept}

guards_free : (g : ℕ) (b : Bool) → g ≡ of_bool b → 0 < g → b ≡ true
guards_free g true e h = refl
guards_free g false e h = absurd (omega arith)

-- A future that was never queued leaves nothing behind.
absent :
    {W : Type 0} (q : List (ℕ × W)) (slots : ℕ → Option (ℕ × W)) (w : List (ℕ × W)) (next i : ℕ)
    → slots i ≡ none
    → Tracks q slots w next
    → Tracks q (update slots i none) w next
absent q slots w next i at t =
    subst (λ o. Tracks (drop_entry o q) (update slots i none) (drop_entry o w) next) at
      (Tracks-leave q slots w next i t)

module _ {W T : Type 0} (same : W → W → Bool) (d : WaitQueue (ℕ × W)) where
  open d use {Q, to_list}

  -- An event that changes nothing.
  idle : (k : ℕ) (s : System W Q T) → Inv same d k s → Inv same d (k + 1) s
  idle k s v = record {
    waiting = v.waiting;
    readers_out = v.readers_out;
    writers_out = v.writers_out;
    exclusive = v.exclusive;
    few_readers = omega (arith, v.few_readers);
    few_tokens = omega (arith, v.few_tokens);
  }

  pub drop_read_guard-Kept :
      (k : ℕ) (s : System W Q T) → Inv same d k s → Kept same d k s Event.drop_read_guard
  unfolding System.step RwLock.release_read
  drop_read_guard-Kept k s v = elim (Bool-cases (ltb 0 s.read_guards)) [
    | inr e ↦ rw e (_, refl, idle k s v)
    | inl e ↦
        let some_reader : 0 < s.lock.readers =
          omega (arith, ltb→lt 0 s.read_guards e, v.readers_out) in
        let (wait, still) =
          wake_next_lem same d (record s.lock { readers = s.lock.readers - 1 }) s.read_slots
            s.write_slots s.read_woken s.write_woken v.waiting.reads v.waiting.writes in
        rw (e, lt→ltb 0 s.lock.readers some_reader)
          (
            _,
            refl,
            record {
              waiting = wait;
              readers_out = omega (arith, v.readers_out, still.readers);
              writers_out = v.writers_out ∙ ap of_bool (sym still.writer);
              exclusive = λ f. absurd (omega (arith, v.exclusive (sym still.writer ∙ f)));
              few_readers = omega (arith, v.few_readers, still.readers);
              few_tokens = omega (arith, v.few_tokens, still.next_id);
            },
          )
  ]

  pub drop_write_guard-Kept :
      (k : ℕ) (s : System W Q T) → Inv same d k s → Kept same d k s Event.drop_write_guard
  unfolding System.step RwLock.release_write
  drop_write_guard-Kept k s v = elim (Bool-cases (ltb 0 s.write_guards)) [
    | inr e ↦ rw e (_, refl, idle k s v)
    | inl e ↦
        let is_writer : s.lock.writer ≡ true =
          guards_free s.write_guards s.lock.writer v.writers_out (ltb→lt 0 s.write_guards e) in
        let (wait, still) =
          wake_next_lem same d (record s.lock { writer = false }) s.read_slots s.write_slots
            s.read_woken s.write_woken v.waiting.reads v.waiting.writes in
        rw (e, is_writer)
          (
            _,
            refl,
            record {
              waiting = wait;
              readers_out = v.readers_out ∙ sym still.readers;
              writers_out =
                  omega (arith, v.writers_out ∙ ap of_bool is_writer, ap of_bool still.writer);
              exclusive = λ f. still.readers ∙ v.exclusive is_writer;
              few_readers = omega (arith, v.few_readers, still.readers);
              few_tokens = omega (arith, v.few_tokens, still.next_id);
            },
          )
  ]

  -- A read future with an entry leaves, and passes its turn on.
  leave_read_queue :
      (k : ℕ) (s : System W Q T) (i : ℕ) (e : ℕ × W)
      → s.read_slots i ≡ some e
      → Inv same d k s
      → Returns
          (let (wakes, l) = RwLock.wake_next same d (RwLock.leave_read same d s.lock (some e)) in
            done (record s {
              lock = l;
              read_slots = update s.read_slots i none;
              read_woken = drop_entry (some e) s.read_woken ++ wakes.of_readers;
              write_woken = with_wake wakes.of_writer s.write_woken;
            }))
          (Inv same d (k + 1))
  unfolding RwLock.leave_read
  leave_read_queue k s i e at v =
      let gone =
        subst
          (λ o.
            Tracks (to_list (deregister_in same d s.lock.read_waiters o))
              (update s.read_slots i none) (drop_entry o s.read_woken) s.lock.next_id)
          at
          (deregister_in-Tracks same d s.lock.read_waiters s.read_slots s.read_woken s.lock.next_id
            i v.waiting.reads) in
      let (wait, still) =
        wake_next_lem same d (RwLock.leave_read same d s.lock (some e)) (update s.read_slots i none)
          s.write_slots (drop_entry (some e) s.read_woken) s.write_woken gone v.waiting.writes in
      (
        _,
        refl,
        record {
          waiting = wait;
          readers_out = v.readers_out ∙ sym still.readers;
          writers_out = v.writers_out ∙ ap of_bool (sym still.writer);
          exclusive = λ f. still.readers ∙ v.exclusive (sym still.writer ∙ f);
          few_readers = omega (arith, v.few_readers, still.readers);
          few_tokens = omega (arith, v.few_tokens, still.next_id);
        },
      )

  leave_write_queue :
      (k : ℕ) (s : System W Q T) (i : ℕ) (e : ℕ × W)
      → s.write_slots i ≡ some e
      → Inv same d k s
      → Returns
          (let (wakes, l) = RwLock.wake_next same d (RwLock.leave_write same d s.lock (some e)) in
            done (record s {
              lock = l;
              write_slots = update s.write_slots i none;
              read_woken = s.read_woken ++ wakes.of_readers;
              write_woken = with_wake wakes.of_writer (drop_entry (some e) s.write_woken);
            }))
          (Inv same d (k + 1))
  unfolding RwLock.leave_write
  leave_write_queue k s i e at v =
      let gone =
        subst
          (λ o.
            Tracks (to_list (deregister_in same d s.lock.write_waiters o))
              (update s.write_slots i none) (drop_entry o s.write_woken) s.lock.next_id)
          at
          (deregister_in-Tracks same d s.lock.write_waiters s.write_slots s.write_woken
            s.lock.next_id i v.waiting.writes) in
      let (wait, still) =
        wake_next_lem same d (RwLock.leave_write same d s.lock (some e)) s.read_slots
          (update s.write_slots i none) s.read_woken (drop_entry (some e) s.write_woken)
          v.waiting.reads gone in
      (
        _,
        refl,
        record {
          waiting = wait;
          readers_out = v.readers_out ∙ sym still.readers;
          writers_out = v.writers_out ∙ ap of_bool (sym still.writer);
          exclusive = λ f. still.readers ∙ v.exclusive (sym still.writer ∙ f);
          few_readers = omega (arith, v.few_readers, still.readers);
          few_tokens = omega (arith, v.few_tokens, still.next_id);
        },
      )

  pub drop_read_future-Kept :
      (k : ℕ) (s : System W Q T) (i : ℕ)
      → Inv same d k s
      → Kept same d k s (Event.drop_read_future i)
  unfolding System.step RwLock.drop_read_future
  drop_read_future-Kept k s i v = elim (Option-cases (s.read_slots i)) [
    | inl at ↦
        rw (at, RwLock.drop_read_future, append-nil s.read_woken)
          (
            _,
            refl,
            record {
              waiting = record {
                reads = absent _ s.read_slots _ _ i at v.waiting.reads;
                writes = v.waiting.writes;
                progress = v.waiting.progress;
              };
              readers_out = v.readers_out;
              writers_out = v.writers_out;
              exclusive = v.exclusive;
              few_readers = omega (arith, v.few_readers);
              few_tokens = omega (arith, v.few_tokens);
            },
          )
    | inr (e, at) ↦ rw (at, RwLock.drop_read_future) (leave_read_queue k s i e at v)
  ]

  pub drop_write_future-Kept :
      (k : ℕ) (s : System W Q T) (i : ℕ)
      → Inv same d k s
      → Kept same d k s (Event.drop_write_future i)
  unfolding System.step RwLock.drop_write_future
  drop_write_future-Kept k s i v = elim (Option-cases (s.write_slots i)) [
    | inl at ↦
        rw (at, RwLock.drop_write_future, append-nil s.read_woken)
          (
            _,
            refl,
            record {
              waiting = record {
                reads = v.waiting.reads;
                writes = absent _ s.write_slots _ _ i at v.waiting.writes;
                progress = v.waiting.progress;
              };
              readers_out = v.readers_out;
              writers_out = v.writers_out;
              exclusive = v.exclusive;
              few_readers = omega (arith, v.few_readers);
              few_tokens = omega (arith, v.few_tokens);
            },
          )
    | inr (e, at) ↦ rw (at, RwLock.drop_write_future) (leave_write_queue k s i e at v)
  ]
