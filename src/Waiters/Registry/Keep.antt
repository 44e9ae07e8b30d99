-- ===== src/Waiters/Registry/Keep.antt =====
-- Registration and deregistration keep the waiter queue, the slots and the wakes together.
use cynosure.Prelude.{
  ℕ, ◌+◌, ◌^◌, ◌≤◌, ◌<◌, ◌≡◌, ◌≢◌, refl, sym, ap, ◌∙◌, subst, ◌⊎◌, inl, inr, Bool, true, false,
  Option, none, some, List, [], ◌∷◌, ◌++◌, reject, arith, update, update_self, update_ne,
  update_same, Bool-cases, Option-cases, some-injective, ◌==◌, ==→eq, ==-false→ne, if◌then◌else◌,
}
use cynosure.Waiters.{WaitQueue}
use cynosure.Waiters.Entries.{
  In, has_id, queued, queued-In, In-append_left, In-append_end, In-append_cases, In-reject,
  In-reject_of, Distinct-reject, Distinct-append,
}
use cynosure.Waiters.Registry.{
  next_u64, Registered, is_stale, token_of, next_of, enqueue, register_in, deregister_in,
}
use cynosure.Waiters.Registry.Invariant.{
  Tracks, drop_entry, In-drop, In-drop_of, Tracks-leave, Tracks-later,
}

module _ {P : Type 0} where
  -- A future joins the back of the queue under a token that is its own, or that nobody has.
  pub Tracks-join :
      (q : List (ℕ × P)) (slots : ℕ → Option (ℕ × P)) (w : List (ℕ × P)) (next i : ℕ) (f : ℕ × P)
      → f.0 < next
      → ((j : ℕ) (e : ℕ × P) → slots j ≡ some e → e.0 ≡ f.0 → i ≡ j)
      → ((g : ℕ × P) → slots i ≡ some g → g.0 ≡ f.0)
      → Tracks q slots w next
      → Tracks
          (reject (has_id f.0) q ++ f ∷ [])
          (update slots i (some f))
          (drop_entry (slots i) w)
          next
  Tracks-join q slots w next i f lt sole own t = record {
    fresh = λ j e p. elim (changed j e p) [
      | inl (_, s) ↦ subst (λ (z : ℕ × P). z.0 < next) s lt
      | inr (_, s) ↦ t.fresh j e s
    ];
    unique = unique_after;
    placed = λ j e p. elim (changed j e p) [
      | inl (_, s) ↦ inl (subst (λ z. In z (reject (has_id f.0) q ++ f ∷ [])) s (In-append_end f _))
      | inr (ne, s) ↦ elim (t.placed j e s) [
        | inl k ↦ inl (In-append_left e _ _ (In-reject_of f.0 e q k (λ r. ne (sole j e s r))))
        | inr k ↦ inr (In-drop_of (slots i) e w k (λ g r z. ne (sole j e s (z ∙ own g r))))
      ]
    ];
    queue_owned = λ e k. elim (In-append_cases e f _ k) [
      | inl m ↦
          let (n, away) = In-reject f.0 e q m in
          still e (λ g r z. away (z ∙ own g r)) (t.queue_owned e n)
      | inr s ↦ (i, update_self slots i (some f) ∙ ap some s)
    ];
    woken_owned =
        λ e k. let (m, away) = In-drop (slots i) e w k in still e away (t.woken_owned e m);
    distinct =
        Distinct-append f _ (Distinct-reject f.0 q t.distinct) (λ e k. (In-reject f.0 e q k).1);
  }
    where
      changed :
          (j : ℕ) (e : ℕ × P)
          → update slots i (some f) j ≡ some e
          → ((i ≡ j) × (f ≡ e)) ⊎ ((i ≢ j) × (slots j ≡ some e))
      changed j e p = elim (Bool-cases (i == j)) [
        | inl s ↦ let r : some f ≡ some e = rw s at p in inl (==→eq i j s, cc)
        | inr s ↦ inr (==-false→ne i j s, rw s at p)
      ]

      unique_after :
          (j k : ℕ) (e g : ℕ × P)
          → update slots i (some f) j ≡ some e
          → update slots i (some f) k ≡ some g
          → e.0 ≡ g.0
          → j ≡ k
      unique_after j k e g p r z = elim (changed j e p) [
        | inl (x, s) ↦ elim (changed k g r) [
          | inl (y, _) ↦ sym x ∙ y
          | inr (_, u) ↦ sym x ∙ sole k g u (sym z ∙ sym (ap (λ (v : ℕ × P). v.0) s))
        ]
        | inr (_, s) ↦ elim (changed k g r) [
          | inl (y, u) ↦ sym (sole j e s (z ∙ sym (ap (λ (v : ℕ × P). v.0) u))) ∙ y
          | inr (_, u) ↦ t.unique j k e g s u z
        ]
      ]

      still :
          (e : ℕ × P)
          → ((g : ℕ × P) → slots i ≡ some g → e.0 ≢ g.0)
          → (j : ℕ) × (slots j ≡ some e)
          → (j : ℕ) × (update slots i (some f) j ≡ some e)
      still e away (j, s) =
          (j, update_ne slots i j (some f) (λ r. away e (ap slots r ∙ s) refl) ∙ s)

module _ {P : Type 0} (same : P → P → Bool) (d : WaitQueue (ℕ × P)) where
  open d use {Q, to_list, push_back, take_where}

  pub to_list-deregister_in :
      (q : Q) (slot : Option (ℕ × P))
      → to_list (deregister_in same d q slot) ≡ drop_entry slot (to_list q)
  unfolding deregister_in
  to_list-deregister_in q none = refl
  to_list-deregister_in q (some e) = d.to_list-take_where q (has_id e.0)

  pub to_list-enqueue :
      (q : Q) (id : ℕ) (p : P)
      → to_list (enqueue same d q id p) ≡ reject (has_id id) (to_list q) ++ (id, p) ∷ []
  unfolding enqueue
  to_list-enqueue q id p =
      d.to_list-push_back _ (id, p)
      ∙ ap (λ l. l ++ (id, p) ∷ []) (d.to_list-take_where q (has_id id))

  -- A future that is still queued with an equivalent waker keeps its entry; its wake is used up.
  stay :
      (q : List (ℕ × P)) (slots : ℕ → Option (ℕ × P)) (w : List (ℕ × P)) (next i : ℕ) (e : ℕ × P)
      → slots i ≡ some e
      → queued e.0 q ≡ true
      → Tracks q slots w next
      → Tracks q slots (drop_entry (slots i) w) next
  stay q slots w next i e at there t = record {
    fresh = t.fresh;
    unique = t.unique;
    placed = λ j f s. elim (Bool-cases (f.0 == e.0)) [
      | inl r ↦
          let one : i ≡ j = sym (t.unique j i f e s at (==→eq _ _ r)) in
          let same_entry : some e ≡ some f = sym at ∙ ap slots one ∙ s in
          inl (subst (λ z. In z q) (some-injective same_entry) here)
      | inr r ↦ elim (t.placed j f s) [
        | inl k ↦ inl k
        | inr k ↦ inr (
            In-drop_of (slots i) f w k (λ g u z.
              ==-false→ne _ _ r (z ∙ ap (λ (v : ℕ × P). v.0) (some-injective (sym u ∙ at)))))
      ]
    ];
    queue_owned = t.queue_owned;
    woken_owned = λ f k. t.woken_owned f (In-drop (slots i) f w k).0;
    distinct = t.distinct;
  }
    where
      here : In e q
      here =
          let (f, k, r) = queued-In e.0 q there in
          let (j, s) = t.queue_owned f k in
          let one : i ≡ j = t.unique i j e f at s (sym r) in
          let same_entry : some f ≡ some e = sym s ∙ ap slots (sym one) ∙ at in
          subst (λ z. In z q) (some-injective same_entry) k

  -- What `register_in` leaves, for future `i`.
  abbrev pub Joined : (ℕ → Option (ℕ × P)) → List (ℕ × P) → ℕ → ℕ → Registered Q P → Type 0
  Joined slots w next i r =
      Tracks (to_list r.queue) (update slots i r.slot) (drop_entry (slots i) w) r.next_id
      × (next ≤ r.next_id)
      × (r.next_id ≤ next + 1)

  pub not_stale-queued :
      (q : Q) (e : ℕ × P) (p : P)
      → is_stale same d q (some e) p ≡ false
      → queued e.0 (to_list q) ≡ true
  unfolding is_stale
  not_stale-queued q e p s = ground arith

  register_some :
      (q : Q) (slots : ℕ → Option (ℕ × P)) (w : List (ℕ × P)) (next i : ℕ) (e : ℕ × P) (p : P)
      → slots i ≡ some e
      → Tracks (to_list q) slots w next
      → Joined slots w next i (register_in same d q next (some e) p)
  unfolding register_in token_of next_of
  register_some q slots w next i e p at t = elim (Bool-cases (is_stale same d q (some e) p)) [
    | inl s ↦
        rw (s, if◌then◌else◌, to_list-enqueue q e.0 p)
          (
            Tracks-join (to_list q) slots w next i (e.0, p) (t.fresh i e at)
                (λ j f u z. t.unique i j e f at u (sym z))
                (λ g u. ap (λ (v : ℕ × P). v.0) (some-injective (sym u ∙ at))) t,
            omega arith,
            omega arith,
          )
    | inr s ↦
        rw (s, if◌then◌else◌)
          (
            subst (λ sl. Tracks (to_list q) sl (drop_entry (slots i) w) next)
                (sym (ap (update slots i) (sym at) ∙ update_same slots i))
                (stay (to_list q) slots w next i e at (still_queued s) t),
            omega arith,
            omega arith,
          )
  ]
    where
      still_queued : is_stale same d q (some e) p ≡ false → queued e.0 (to_list q) ≡ true
      still_queued s = not_stale-queued q e p s

  register_none :
      (q : Q) (slots : ℕ → Option (ℕ × P)) (w : List (ℕ × P)) (next i : ℕ) (p : P)
      → slots i ≡ none
      → next + 1 < 2 ^ 64
      → Tracks (to_list q) slots w next
      → Joined slots w next i (register_in same d q next none p)
  unfolding register_in is_stale token_of next_of
  register_none q slots w next i p at room t = rw (to_list-enqueue q next p) (
    Tracks-join (to_list q) slots w (next_u64 next) i (next, p) (omega arith)
        (λ j f u z. absurd (omega (arith, t.fresh j f u))) (λ g u. absurd (cc))
        (Tracks-later (to_list q) slots w next (next_u64 next) (omega arith) t),
    omega arith,
    omega arith,
  )

  -- Registration keeps everything together, while the tokens last.
  pub register_in-Joined :
      (q : Q) (slots : ℕ → Option (ℕ × P)) (w : List (ℕ × P)) (next i : ℕ) (p : P)
      → next + 1 < 2 ^ 64
      → Tracks (to_list q) slots w next
      → Joined slots w next i (register_in same d q next (slots i) p)
  register_in-Joined q slots w next i p room t = elim (Option-cases (slots i)) [
    | inl at ↦
        subst (λ o. Joined slots w next i (register_in same d q next o p)) (sym at)
          (register_none q slots w next i p at room t)
    | inr (e, at) ↦
        subst (λ o. Joined slots w next i (register_in same d q next o p)) (sym at)
          (register_some q slots w next i e p at t)
  ]

  pub next_id-register_in :
      (q : Q) (next : ℕ) (slot : Option (ℕ × P)) (p : P)
      → (register_in same d q next slot p).next_id ≤ next + 1
  unfolding register_in next_of
  next_id-register_in q next none p = ground arith
  next_id-register_in q next (some e) p = ground arith

  pub deregister_in-Tracks :
      (q : Q) (slots : ℕ → Option (ℕ × P)) (w : List (ℕ × P)) (next i : ℕ)
      → Tracks (to_list q) slots w next
      → Tracks
          (to_list (deregister_in same d q (slots i)))
          (update slots i none)
          (drop_entry (slots i) w)
          next
  deregister_in-Tracks q slots w next i t =
      rw (to_list-deregister_in q (slots i)) (Tracks-leave (to_list q) slots w next i t)
