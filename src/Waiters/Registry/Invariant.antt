-- ===== src/Waiters/Registry/Invariant.antt =====
-- How a waiter queue, the futures' slots and the wakes that are under way belong together.
use cynosure.Prelude.{
  ℕ, ◌≤◌, ◌<◌, ◌≡◌, ◌≢◌, refl, sym, ap, ◌∙◌, subst, ◌⊎◌, inl, inr, Option, none, some, List, [],
  ◌∷◌, ◌++◌, reject, arith, update, update_ne, update-none,
}
use cynosure.Waiters.Entries.{
  In, Distinct, has_id, In-append_left, In-append_end, In-append_cases, In-reject, In-reject_of,
  Distinct-reject,
}

module _ {P : Type 0} where
  -- The queue holds `queue`; future `i` has `slots i` in its `registered` field; the wakers of `woken`
  -- were called, and their futures have been neither polled nor dropped since; the next token is `next`.
  pub record Tracks (queue : List (ℕ × P)) (slots : ℕ → Option (ℕ × P)) (woken : List (ℕ × P))
      (next : ℕ) : Type 0 where
    pub fresh : (i : ℕ) (e : ℕ × P) → slots i ≡ some e → e.0 < next
    pub unique : (i j : ℕ) (e f : ℕ × P) → slots i ≡ some e → slots j ≡ some f → e.0 ≡ f.0 → i ≡ j
    pub placed : (i : ℕ) (e : ℕ × P) → slots i ≡ some e → In e queue ⊎ In e woken
    pub queue_owned : (e : ℕ × P) → In e queue → (i : ℕ) × (slots i ≡ some e)
    pub woken_owned : (e : ℕ × P) → In e woken → (i : ℕ) × (slots i ≡ some e)
    pub distinct : Distinct queue

  -- The list without the entry of a future that had `slot`.
  abbrev pub drop_entry : Option (ℕ × P) → List (ℕ × P) → List (ℕ × P)
  drop_entry none l = l
  drop_entry (some e) l = reject (has_id e.0) l

  -- The wakes under way after a call that woke `o`.
  abbrev pub with_wake : Option (ℕ × P) → List (ℕ × P) → List (ℕ × P)
  with_wake none l = l
  with_wake (some e) l = l ++ e ∷ []

  pub In-drop :
      (o : Option (ℕ × P)) (e : ℕ × P) (l : List (ℕ × P))
      → In e (drop_entry o l)
      → In e l × ((f : ℕ × P) → o ≡ some f → e.0 ≢ f.0)
  In-drop none e l h = (h, λ f q. absurd (cc))
  In-drop (some g) e l h =
      let (i, ne) = In-reject g.0 e l h in
      (i, λ f q p. ne (p ∙ ap (λ (o : Option (ℕ × P)). elim o [ none ↦ 0 | some z ↦ z.0 ]) (sym q)))

  pub In-drop_of :
      (o : Option (ℕ × P)) (e : ℕ × P) (l : List (ℕ × P))
      → In e l
      → ((f : ℕ × P) → o ≡ some f → e.0 ≢ f.0)
      → In e (drop_entry o l)
  In-drop_of none e l h ne = h
  In-drop_of (some g) e l h ne = In-reject_of g.0 e l h (ne g refl)

  Distinct-drop : (o : Option (ℕ × P)) (l : List (ℕ × P)) → Distinct l → Distinct (drop_entry o l)
  Distinct-drop none l h = h
  Distinct-drop (some e) l h = Distinct-reject e.0 l h

  pub Tracks-empty : (next : ℕ) → Tracks [] (λ _. none) [] next
  Tracks-empty next = record {
    fresh = λ i e q. absurd (cc);
    unique = λ i j e f q r p. absurd (cc);
    placed = λ i e q. absurd (cc);
    queue_owned = λ e h. elim h [ ];
    woken_owned = λ e h. elim h [ ];
    distinct = tt;
  }

  pub Tracks-later :
      (q : List (ℕ × P)) (slots : ℕ → Option (ℕ × P)) (w : List (ℕ × P)) (next later : ℕ)
      → next ≤ later
      → Tracks q slots w next
      → Tracks q slots w later
  Tracks-later q slots w next later le t = record {
    fresh = λ i e p. omega (arith, t.fresh i e p);
    unique = t.unique;
    placed = t.placed;
    queue_owned = t.queue_owned;
    woken_owned = t.woken_owned;
    distinct = t.distinct;
  }

  -- The front of the queue is woken.
  pub Tracks-wake :
      (e : ℕ × P) (q : List (ℕ × P)) (slots : ℕ → Option (ℕ × P)) (w : List (ℕ × P)) (next : ℕ)
      → Tracks (e ∷ q) slots w next
      → Tracks q slots (w ++ e ∷ []) next
  Tracks-wake e q slots w next t = record {
    fresh = t.fresh;
    unique = t.unique;
    placed = λ i f p. elim (t.placed i f p) [
      | inl (inl s) ↦ inr (subst (λ g. In g (w ++ e ∷ [])) s (In-append_end e w))
      | inl (inr k) ↦ inl k
      | inr k ↦ inr (In-append_left f w (e ∷ []) k)
    ];
    queue_owned = λ f k. t.queue_owned f (inr k);
    woken_owned = λ f k. elim (In-append_cases f e w k) [
      | inl m ↦ t.woken_owned f m
      | inr s ↦ t.queue_owned f (inl s)
    ];
    distinct = t.distinct.1;
  }

  -- A future leaves: its entry is gone from the queue and from the wakes.
  pub Tracks-leave :
      (q : List (ℕ × P)) (slots : ℕ → Option (ℕ × P)) (w : List (ℕ × P)) (next i : ℕ)
      → Tracks q slots w next
      → Tracks (drop_entry (slots i) q) (update slots i none) (drop_entry (slots i) w) next
  Tracks-leave q slots w next i t = record {
    fresh = λ j e p. t.fresh j e (update-none slots i j e p).1;
    unique = λ j k e f p r s.
        t.unique j k e f (update-none slots i j e p).1 (update-none slots i k f r).1 s;
    placed = λ j e p.
        let (ne, s) = update-none slots i j e p in
        let apart = apart_from j e ne s in
        elim (t.placed j e s) [
          | inl k ↦ inl (In-drop_of (slots i) e q k apart)
          | inr k ↦ inr (In-drop_of (slots i) e w k apart)
        ];
    queue_owned =
        λ e k. let (m, away) = In-drop (slots i) e q k in still e away (t.queue_owned e m);
    woken_owned =
        λ e k. let (m, away) = In-drop (slots i) e w k in still e away (t.woken_owned e m);
    distinct = Distinct-drop (slots i) q t.distinct;
  }
    where
      apart_from :
          (j : ℕ) (e : ℕ × P)
          → i ≢ j
          → slots j ≡ some e
          → (f : ℕ × P) → slots i ≡ some f
          → e.0 ≢ f.0
      apart_from j e ne s f r p = ne (sym (t.unique j i e f s r p))

      still :
          (e : ℕ × P)
          → ((f : ℕ × P) → slots i ≡ some f → e.0 ≢ f.0)
          → (j : ℕ) × (slots j ≡ some e)
          → (j : ℕ) × (update slots i none j ≡ some e)
      still e away (j, s) = (j, update_ne slots i j none (λ r. away e (ap slots r ∙ s) refl) ∙ s)
