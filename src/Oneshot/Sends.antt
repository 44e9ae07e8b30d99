-- ===== src/Oneshot/Sends.antt =====
-- The steps of the sender keep the invariant.
use cynosure.Prelude.{
  ◌≡◌, refl, sym, ap, ◌∙◌, subst, inl, inr, true, false, not, ◌||◌, [], ◌∷◌, ◌++◌, append-nil,
  append_assoc, if◌then◌else◌, Bool-cases, arith,
}
use cynosure.Oneshot
use cynosure.Oneshot.{State, Inner}
use cynosure.Oneshot.System.{System, Sender, start_send, start_drop, send_step}
use cynosure.Oneshot.Invariant.{
  is_storing, is_reading, signals, carried, slot, is_some, full, SenderOk, WakeOk, Inv, WakeOk-keep,
  slot-none, ReceiverOk-unset, pick-false, pick-true,
}

module _ {T : Type 0} (s : System T) (i : Inv s) where
  filled-at :
      (x y : Sender T)
      → s.sender ≡ x
      → is_storing x ≡ is_storing y
      → is_some s.inner.value ≡ full s.inner.state y s.receiver
  filled-at x y e h =
      i.filled
      ∙ ap (λ z. full s.inner.state z s.receiver) e
      ∙ ap
          (λ b.
            if s.inner.state.value_set then not s.inner.state.taken || is_reading s.receiver else b)
          h

  sending-at :
      (x : Sender T)
      → s.sender ≡ x
      → SenderOk s.inner.state.value_set s.inner.state.sender_dropped s.returned x
  sending-at x e =
      subst (SenderOk s.inner.state.value_set s.inner.state.sender_dropped s.returned) e i.sending

  kept-at :
      (x : Sender T)
      → s.sender ≡ x
      → s.offered ≡ s.received ++ (s.returned ++ (carried x ++ slot s.inner.value))
  kept-at x e = i.kept ∙ ap (λ z. s.received ++ (s.returned ++ (carried z ++ slot s.inner.value))) e

  -- A sender that does not signal goes on, and changes nothing that is shared.
  wakes-at :
      (x y : Sender T)
      → s.sender ≡ x
      → signals x ≡ false
      → WakeOk (record s { sender = y }) s.receiver
  wakes-at x y e quiet =
      WakeOk-keep s (record s { sender = y }) s.receiver (λ w. w) inr
        (λ on rest. elim rest [
          | inl open_still ↦ inr (on, inl open_still)
          | inr sig ↦ absurd (cc (quiet, ap signals e, sig))
        ])
        i.wakes

  -- Before the value is written, the cell is empty.
  cell-empty :
      (x : Sender T)
      → s.sender ≡ x
      → is_storing x ≡ false
      → s.inner.state.value_set ≡ false
      → slot s.inner.value ≡ []
  cell-empty x e h unset =
      slot-none s.inner.value
        (filled-at x x e refl ∙ pick-false s.inner.state.value_set _ (is_storing x) unset ∙ h)

  pub start_send-Inv : (x : Sender T) (v : T) → s.sender ≡ x → Inv (start_send s x v)
  unfolding start_send
  start_send-Inv Sender.ready v e =
      let (unset, back) = sending-at Sender.ready e in
      let bare = cell-empty Sender.ready e refl unset in
      let before : s.offered ≡ s.received ++ [] =
        kept-at Sender.ready e
        ∙ ap (λ z. s.received ++ (z ++ slot s.inner.value)) back
        ∙ ap (λ z. s.received ++ z) bare in
      record {
        filled = filled-at Sender.ready (Sender.loading v) e refl;
        sending = (unset, back);
        receiving = i.receiving;
        untaken = i.untaken;
        accepted = i.accepted;
        kept =
            ap (λ z. z ++ v ∷ []) (before ∙ append-nil s.received)
            ∙ ap (λ z. s.received ++ v ∷ z) (sym bare)
            ∙ ap (λ z. s.received ++ (z ++ v ∷ slot s.inner.value)) (sym back);
        wakes = wakes-at Sender.ready (Sender.loading v) e refl;
      }
  start_send-Inv (Sender.loading w) v e = i
  start_send-Inv (Sender.writing t w) v e = i
  start_send-Inv (Sender.storing t) v e = i
  start_send-Inv Sender.signaling v e = i
  start_send-Inv Sender.dropping v e = i
  start_send-Inv Sender.closing v e = i
  start_send-Inv Sender.announcing v e = i
  start_send-Inv Sender.gone v e = i

  pub start_drop-Inv : (x : Sender T) → s.sender ≡ x → Inv (start_drop s x)
  unfolding start_drop
  start_drop-Inv Sender.ready e = record {
    filled = filled-at Sender.ready Sender.dropping e refl;
    sending = tt;
    receiving = i.receiving;
    untaken = i.untaken;
    accepted = i.accepted;
    kept = kept-at Sender.ready e;
    wakes = wakes-at Sender.ready Sender.dropping e refl;
  }
  start_drop-Inv (Sender.loading w) e = i
  start_drop-Inv (Sender.writing t w) e = i
  start_drop-Inv (Sender.storing t) e = i
  start_drop-Inv Sender.signaling e = i
  start_drop-Inv Sender.dropping e = i
  start_drop-Inv Sender.closing e = i
  start_drop-Inv Sender.announcing e = i
  start_drop-Inv Sender.gone e = i

  load : (v : T) → s.sender ≡ Sender.loading v → Inv (send_step s (Sender.loading v))
  unfolding send_step
  load v e =
      let (unset, back) = sending-at (Sender.loading v) e in
      elim (Bool-cases s.inner.state.receiver_dropped) [
        | inl gone ↦ subst Inv (sym (pick-true s.inner.state.receiver_dropped _ _ gone)) (record {
          filled = filled-at (Sender.loading v) Sender.dropping e refl;
          sending = tt;
          receiving = i.receiving;
          untaken = i.untaken;
          accepted = λ set. absurd (cc (set, unset));
          kept =
              kept-at (Sender.loading v) e
              ∙ ap (λ z. s.received ++ z)
                  (sym (append_assoc s.returned (v ∷ []) (slot s.inner.value)));
          wakes = wakes-at (Sender.loading v) Sender.dropping e refl;
        })
        | inr there ↦
            subst Inv (sym (pick-false s.inner.state.receiver_dropped _ _ there)) (record {
              filled = filled-at (Sender.loading v) (Sender.writing s.inner.state v) e refl;
              sending = (unset, back, i.untaken unset);
              receiving = i.receiving;
              untaken = i.untaken;
              accepted = i.accepted;
              kept = kept-at (Sender.loading v) e;
              wakes = wakes-at (Sender.loading v) (Sender.writing s.inner.state v) e refl;
            })
      ]

  write :
      (t : State) (v : T) → s.sender ≡ Sender.writing t v → Inv (send_step s (Sender.writing t v))
  unfolding send_step Oneshot.write_value
  write t v e =
      let (unset, back, fresh) = sending-at (Sender.writing t v) e in
      record {
        filled = sym (pick-false s.inner.state.value_set _ true unset);
        sending = (unset, back, fresh);
        receiving = i.receiving;
        untaken = i.untaken;
        accepted = i.accepted;
        kept =
            kept-at (Sender.writing t v) e
            ∙ ap (λ z. s.received ++ (s.returned ++ v ∷ z))
                (cell-empty (Sender.writing t v) e refl unset);
        wakes = wakes-at (Sender.writing t v) (Sender.storing t) e refl;
      }

  publish : (t : State) → s.sender ≡ Sender.storing t → Inv (send_step s (Sender.storing t))
  unfolding send_step Oneshot.publish
  publish t e =
      let (unset, back, fresh) = sending-at (Sender.storing t) e in
      let there =
        filled-at (Sender.storing t) (Sender.storing t) e refl
        ∙ pick-false s.inner.state.value_set _ true unset in
      record {
        filled = there ∙ ap (λ b. not b || is_reading s.receiver) (sym fresh);
        sending = refl;
        receiving =
            ReceiverOk-unset s.inner.state (record t { value_set = true }) s.receiver unset
              i.receiving;
        untaken = λ q. absurd (cc);
        accepted = λ _. back;
        kept = kept-at (Sender.storing t) e;
        wakes =
            WakeOk-keep s (send_step s (Sender.storing t)) s.receiver (λ w. w) inr
              (λ on _. inr (on, inr refl)) i.wakes;
      }

  signal : s.sender ≡ Sender.signaling → Inv (send_step s Sender.signaling)
  unfolding send_step Oneshot.signal
  signal e = record {
    filled = filled-at Sender.signaling Sender.dropping e refl;
    sending = tt;
    receiving = i.receiving;
    untaken = i.untaken;
    accepted = i.accepted;
    kept = kept-at Sender.signaling e;
    wakes =
        WakeOk-keep s (send_step s Sender.signaling) s.receiver (λ w. ground (arith, w))
          (λ on. inl (ground (arith, on))) (λ on _. inl (ground (arith, on))) i.wakes;
  }

  leave : s.sender ≡ Sender.dropping → Inv (send_step s Sender.dropping)
  unfolding send_step
  leave e = elim (Bool-cases s.inner.state.value_set) [
    | inl set ↦
        subst (λ z. Inv (record s { sender = z })) (sym (pick-true s.inner.state.value_set _ _ set))
          (record {
            filled = filled-at Sender.dropping Sender.gone e refl;
            sending = inl set;
            receiving = i.receiving;
            untaken = i.untaken;
            accepted = i.accepted;
            kept = kept-at Sender.dropping e;
            wakes = wakes-at Sender.dropping Sender.gone e refl;
          })
    | inr unset ↦
        subst (λ z. Inv (record s { sender = z }))
          (sym (pick-false s.inner.state.value_set _ _ unset))
          (record {
            filled = filled-at Sender.dropping Sender.closing e refl;
            sending = unset;
            receiving = i.receiving;
            untaken = i.untaken;
            accepted = i.accepted;
            kept = kept-at Sender.dropping e;
            wakes = wakes-at Sender.dropping Sender.closing e refl;
          })
  ]

  close : s.sender ≡ Sender.closing → Inv (send_step s Sender.closing)
  unfolding send_step Oneshot.mark_sender_dropped
  close e =
      let unset = sending-at Sender.closing e in
      record {
        filled = filled-at Sender.closing Sender.announcing e refl;
        sending = refl;
        receiving =
            ReceiverOk-unset s.inner.state (record s.inner.state { sender_dropped = true })
              s.receiver unset i.receiving;
        untaken = i.untaken;
        accepted = i.accepted;
        kept = kept-at Sender.closing e;
        wakes =
            WakeOk-keep s (send_step s Sender.closing) s.receiver (λ w. w) inr
              (λ on _. inr (on, inr refl)) i.wakes;
      }

  announce : s.sender ≡ Sender.announcing → Inv (send_step s Sender.announcing)
  unfolding send_step Oneshot.signal
  announce e =
      let closed = sending-at Sender.announcing e in
      record {
        filled = filled-at Sender.announcing Sender.gone e refl;
        sending = inr closed;
        receiving = i.receiving;
        untaken = i.untaken;
        accepted = i.accepted;
        kept = kept-at Sender.announcing e;
        wakes =
            WakeOk-keep s (send_step s Sender.announcing) s.receiver (λ w. ground (arith, w))
              (λ on. inl (ground (arith, on))) (λ on _. inl (ground (arith, on))) i.wakes;
      }

  pub send_step-Inv : (x : Sender T) → s.sender ≡ x → Inv (send_step s x)
  unfolding send_step
  send_step-Inv Sender.ready e = i
  send_step-Inv (Sender.loading v) e = load v e
  send_step-Inv (Sender.writing t v) e = write t v e
  send_step-Inv (Sender.storing t) e = publish t e
  send_step-Inv Sender.signaling e = signal e
  send_step-Inv Sender.dropping e = leave e
  send_step-Inv Sender.closing e = close e
  send_step-Inv Sender.announcing e = announce e
  send_step-Inv Sender.gone e = i
