-- ===== src/RwLock/Safety.antt =====
-- The invariant of a `LocalRwLock` and its users, and that every event keeps it and does not panic.
use cynosure.Prelude.{
  ℕ, ◌+◌, ◌≤◌, ◌<◌, ◌≡◌, refl, ap, ◌∙◌, inl, inr, Bool, true, false, not, ◌&&◌, Option, List, arith,
  ◌==◌, of_bool, Bool-cases, Returns,
}
use cynosure.Waiters.{WaitQueue}
use cynosure.Waiters.Registry.Invariant.{Tracks, Tracks-empty}
use cynosure.RwLock
use cynosure.RwLock.{RwLock, usize_max}
use cynosure.RwLock.System
use cynosure.RwLock.System.{System, Event}
use cynosure.RwLock.Wake.{Waiting}
use cynosure.RwLock.Steps.{unheld, try_read_held, try_read_free, try_write_some, try_write_none}

pub fair_iff :
    (writer empty : Bool) → not writer && empty ≡ true → (writer ≡ false) × (empty ≡ true)
fair_iff writer empty e = ground arith

pub unfair_free :
    (writer empty : Bool) → not writer && empty ≡ false → writer ≡ false → empty ≡ false
unfair_free writer empty e f = ground arith

pub unheld_iff : (n : ℕ) (writer : Bool) → n == 0 && not writer ≡ true → (n ≡ 0) × (writer ≡ false)
unheld_iff n writer e = ground arith

pub held_iff : (n : ℕ) (writer : Bool) → n == 0 && not writer ≡ false → writer ≡ false → n ≡ 0 → ⊥
held_iff n writer e f g = ground arith

module _ {W T : Type 0} (same : W → W → Bool) (d : WaitQueue (ℕ × W)) where
  open d use {Q, to_list}

  -- What is true of a lock and its users after at most `k` events.
  pub record Inv (k : ℕ) (s : System W Q T) : Type 0 where
    pub waiting : Waiting same d s.lock s.read_slots s.write_slots s.read_woken s.write_woken
    pub readers_out : s.read_guards ≡ s.lock.readers
    pub writers_out : s.write_guards ≡ of_bool s.lock.writer
    pub exclusive : s.lock.writer ≡ true → s.lock.readers ≡ 0
    pub few_readers : s.lock.readers ≤ k
    pub few_tokens : s.lock.next_id ≤ k

  pub init-Inv : (v : T) → Inv 0 (System.init same d v)
  unfolding System.init RwLock.new
  init-Inv v = record {
    waiting = record {
      reads = rw d.to_list-new (Tracks-empty 0);
      writes = rw d.to_list-new (Tracks-empty 0);
      progress = λ _ _. (inl d.to_list-new, inl d.to_list-new);
    };
    readers_out = refl;
    writers_out = refl;
    exclusive = λ e. absurd (cc);
    few_readers = omega arith;
    few_tokens = omega arith;
  }

  -- A lock that is held: only the counts matter.
  pub Waiting-held :
      (l : RwLock Q T) (rs ws : ℕ → Option (ℕ × W)) (wr ww : List (ℕ × W))
      → (l.writer ≡ false → l.readers ≡ 0 → ⊥)
      → Tracks (to_list l.read_waiters) rs wr l.next_id
      → Tracks (to_list l.write_waiters) ws ww l.next_id
      → Waiting same d l rs ws wr ww
  Waiting-held l rs ws wr ww held th tw = record {
    reads = th;
    writes = tw;
    progress = λ e f. absurd (held e f);
  }

  -- One event: no panic, and the invariant with one more event.
  abbrev pub Kept : ℕ → System W Q T → Event W → Type 0
  Kept k s e = Returns (System.step same d s e) (Inv (k + 1))

  pub try_read-Kept : (k : ℕ) (s : System W Q T) → k < usize_max → Inv k s → Kept k s Event.try_read
  unfolding System.step
  try_read-Kept k s room v = elim (Bool-cases s.lock.writer) [
    | inl e ↦ rw (try_read_held same d s.lock e) (
      _,
      refl,
      record {
        waiting = v.waiting;
        readers_out = omega (arith, v.readers_out);
        writers_out = v.writers_out;
        exclusive = v.exclusive;
        few_readers = omega (arith, v.few_readers);
        few_tokens = omega (arith, v.few_tokens);
      },
    )
    | inr e ↦ rw (try_read_free same d s.lock (omega (arith, v.few_readers)) e) (
      _,
      refl,
      record {
        waiting =
            Waiting-held _ _ _ _ _ (λ _ f. absurd (omega arith)) v.waiting.reads v.waiting.writes;
        readers_out = omega (arith, v.readers_out);
        writers_out = v.writers_out;
        exclusive = λ f. absurd (cc);
        few_readers = omega (arith, v.few_readers);
        few_tokens = omega (arith, v.few_tokens);
      },
    )
  ]

  pub try_write-Kept : (k : ℕ) (s : System W Q T) → Inv k s → Kept k s Event.try_write
  unfolding System.step
  try_write-Kept k s v = elim (Bool-cases (unheld same d s.lock)) [
    | inl e ↦
        let (no_readers, no_writer) = unheld_iff s.lock.readers s.lock.writer e in
        rw (try_write_some same d s.lock e) (
          _,
          refl,
          record {
            waiting = Waiting-held _ _ _ _ _ (λ f _. absurd (cc)) v.waiting.reads v.waiting.writes;
            readers_out = v.readers_out;
            writers_out = omega (arith, v.writers_out ∙ ap of_bool no_writer);
            exclusive = λ _. no_readers;
            few_readers = omega (arith, v.few_readers);
            few_tokens = omega (arith, v.few_tokens);
          },
        )
    | inr e ↦ rw (try_write_none same d s.lock e) (
      _,
      refl,
      record {
        waiting = v.waiting;
        readers_out = v.readers_out;
        writers_out = omega (arith, v.writers_out);
        exclusive = v.exclusive;
        few_readers = omega (arith, v.few_readers);
        few_tokens = omega (arith, v.few_tokens);
      },
    )
  ]
