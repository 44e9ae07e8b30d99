-- ===== src/Oneshot/Receives.antt =====
-- The steps of the receiver keep the invariant.
use cynosure.Prelude.{
  ◌≡◌, refl, sym, ap, ◌∙◌, subst, ◌⊎◌, inl, inr, Bool, true, false, not, ◌||◌, Option, none, some,
  List, [], ◌∷◌, ◌++◌, append-nil, if◌then◌else◌, Bool-cases, Exec, done, ◌>>=◌, Returns,
}
use cynosure.Oneshot
use cynosure.Oneshot.{State, Inner}
use cynosure.Oneshot.System.{
  System, Sender, Receiver, Attempt, start, resolve, after_value, after_nothing, receive_step,
}
use cynosure.Oneshot.Invariant.{
  is_storing, is_reading, carried, slot, is_some, full, SenderOk, ReceiverOk, WakeOk, Inv,
  pick-false, pick-true,
}

some-of : {A : Type 0} (x : Option A) → is_some x ≡ true → (v : A) × (x ≡ some v)
some-of none e = absurd (cc)
some-of (some v) e = (v, refl)

-- Once the value is set, the sender carries none.
carried-none :
    {T : Type 0} (closed : Bool) (returned : List T) (x : Sender T)
    → SenderOk true closed returned x
    → carried x ≡ []
carried-none closed returned Sender.ready ok = refl
carried-none closed returned (Sender.loading v) (unset, _) = absurd (cc)
carried-none closed returned (Sender.writing t v) (unset, _, _) = absurd (cc)
carried-none closed returned (Sender.storing t) ok = refl
carried-none closed returned Sender.signaling ok = refl
carried-none closed returned Sender.dropping ok = refl
carried-none closed returned Sender.closing ok = refl
carried-none closed returned Sender.announcing ok = refl
carried-none closed returned Sender.gone ok = refl

after_value-idle :
    (a : Attempt)
    → (is_reading (after_value a) ≡ false) × ((st : State) → ReceiverOk st (after_value a))
after_value-idle Attempt.trying = (refl, λ st. tt)
after_value-idle Attempt.first = (refl, λ st. tt)
after_value-idle Attempt.second = (refl, λ st. tt)

WakeOk-value : {T : Type 0} (s : System T) (a : Attempt) → WakeOk s (after_value a)
WakeOk-value s Attempt.trying = tt
WakeOk-value s Attempt.first = tt
WakeOk-value s Attempt.second = tt

module _ {T : Type 0} (s : System T) (i : Inv s) where
  filled-to :
      (r r' : Receiver)
      → s.receiver ≡ r
      → is_reading r ≡ is_reading r'
      → is_some s.inner.value ≡ full s.inner.state s.sender r'
  filled-to r r' e h =
      i.filled
      ∙ ap (full s.inner.state s.sender) e
      ∙ ap
          (λ b.
            if s.inner.state.value_set then not s.inner.state.taken || b else is_storing s.sender)
          h

  receiving-at : (r : Receiver) → s.receiver ≡ r → ReceiverOk s.inner.state r
  receiving-at r e = subst (ReceiverOk s.inner.state) e i.receiving

  -- The receiver goes on, and changes nothing that is shared.
  goes_to :
      (r r' : Receiver)
      → s.receiver ≡ r
      → is_reading r ≡ is_reading r'
      → ReceiverOk s.inner.state r'
      → WakeOk (record s { receiver = r' }) r'
      → Inv (record s { receiver = r' })
  goes_to r r' e h ok wakes = record {
    filled = filled-to r r' e h;
    sending = i.sending;
    receiving = ok;
    untaken = i.untaken;
    accepted = i.accepted;
    kept = i.kept;
    wakes = wakes;
  }

  pub start-Inv :
      (r next : Receiver)
      → s.receiver ≡ r
      → is_reading next ≡ false
      → ReceiverOk s.inner.state next
      → WakeOk (record s { receiver = next }) next
      → Inv (start s r next)
  start-Inv Receiver.ready next e h ok wakes = goes_to Receiver.ready next e (sym h) ok wakes
  start-Inv Receiver.parked next e h ok wakes = goes_to Receiver.parked next e (sym h) ok wakes
  start-Inv (Receiver.loading a) next e h ok wakes = i
  start-Inv (Receiver.marking a t) next e h ok wakes = i
  start-Inv (Receiver.reading a) next e h ok wakes = i
  start-Inv Receiver.arming next e h ok wakes = i
  start-Inv Receiver.disarming next e h ok wakes = i
  start-Inv Receiver.dropping next e h ok wakes = i
  start-Inv Receiver.gone next e h ok wakes = i

  -- An attempt that found nothing
  nothing :
      (a : Attempt)
      → s.receiver ≡ Receiver.loading a
      → s.inner.state.value_set ≡ false
      → s.inner.state.sender_dropped ≡ false
      → Inv (record s { receiver = after_nothing a })
  nothing Attempt.trying e unset live = goes_to _ Receiver.ready e refl tt tt
  nothing Attempt.first e unset live = goes_to _ Receiver.arming e refl tt tt
  nothing Attempt.second e unset live =
      let armed : (s.woken ≡ true) ⊎ (s.inner.armed ≡ true) = subst (WakeOk s) e i.wakes in
      goes_to _ Receiver.parked e refl tt
        (elim armed [ inl woken ↦ inl woken | inr on ↦ inr (on, inl (unset, live)) ])

  load :
      (a : Attempt)
      → s.receiver ≡ Receiver.loading a
      → Inv (record s { receiver = resolve a s.inner.state })
  load a e =
      let (idle, ok) = after_value-idle a in
      let done_with : Inv (record s { receiver = after_value a }) =
        goes_to (Receiver.loading a) (after_value a) e (sym idle) (ok s.inner.state)
          (WakeOk-value (record s { receiver = after_value a }) a) in
      let to : (r r' : Receiver)
          → r ≡ r'
          → Inv (record s { receiver = r' })
          → Inv (record s { receiver = r }) =
        λ r r' q v. subst (λ z. Inv (record s { receiver = z })) (sym q) v in
      elim (Bool-cases s.inner.state.value_set) [
        | inl set ↦
            to _ _ (pick-true s.inner.state.value_set _ _ set)
              (elim (Bool-cases s.inner.state.taken) [
                | inl had ↦ to _ _ (pick-true s.inner.state.taken _ _ had) done_with
                | inr fresh ↦ to _ _ (pick-false s.inner.state.taken _ _ fresh) (
                    goes_to (Receiver.loading a) (Receiver.marking a s.inner.state) e refl
                      (set, fresh, set, refl) tt)
              ])
        | inr unset ↦
            to _ _ (pick-false s.inner.state.value_set _ _ unset)
              (elim (Bool-cases s.inner.state.sender_dropped) [
                | inl closed ↦ to _ _ (pick-true s.inner.state.sender_dropped _ _ closed) done_with
                | inr live ↦
                    to _ _ (pick-false s.inner.state.sender_dropped _ _ live)
                      (nothing a e unset live)
              ])
      ]

  mark :
      (a : Attempt) (t : State)
      → s.receiver ≡ Receiver.marking a t
      → Returns (receive_step s (Receiver.marking a t)) Inv
  unfolding receive_step Oneshot.mark_taken
  mark a t e =
      let (set, fresh, still, same) = receiving-at (Receiver.marking a t) e in
      let there : is_some s.inner.value ≡ true =
        filled-to (Receiver.marking a t) (Receiver.marking a t) e refl
        ∙ pick-true s.inner.state.value_set _ _ set
        ∙ ap (λ b. not b || false) fresh in
      (
        _,
        refl,
        record {
          filled = there ∙ sym (pick-true t.value_set _ _ still);
          sending =
              subst (λ b. SenderOk t.value_set b s.returned s.sender) (sym same)
                (subst (λ b. SenderOk b s.inner.state.sender_dropped s.returned s.sender)
                  (set ∙ sym still) i.sending);
          receiving = (still, refl);
          untaken = λ unset. absurd (cc (still, unset));
          accepted = λ _. i.accepted set;
          kept = i.kept;
          wakes = tt;
        },
      )

  read :
      (a : Attempt)
      → s.receiver ≡ Receiver.reading a
      → Returns (receive_step s (Receiver.reading a)) Inv
  unfolding receive_step Oneshot.read_value
  read a e =
      let (set, had) = receiving-at (Receiver.reading a) e in
      let there : is_some s.inner.value ≡ true =
        filled-to (Receiver.reading a) (Receiver.reading a) e refl
        ∙ pick-true s.inner.state.value_set _ _ set
        ∙ ap (λ b. not b || true) had in
      let (v, cell) = some-of s.inner.value there in
      let (idle, ok) = after_value-idle a in
      let bare : carried s.sender ≡ [] =
        carried-none s.inner.state.sender_dropped s.returned s.sender (
          subst (λ b. SenderOk b s.inner.state.sender_dropped s.returned s.sender) set i.sending) in
      let back = i.accepted set in
      let all : s.offered ≡ s.received ++ v ∷ [] =
        i.kept
        ∙ ap (λ z. s.received ++ (z ++ (carried s.sender ++ slot s.inner.value))) back
        ∙ ap (λ z. s.received ++ (z ++ slot s.inner.value)) bare
        ∙ ap (λ z. s.received ++ slot z) cell in
      let ran : Oneshot.read_value s.inner ≡ done (v, record s.inner { value = none }) =
        ap
          (λ x. elim x as (λ _. Exec (T × Inner T)) [
            | none ↦ Exec.fault
            | some w ↦ done (w, record s.inner { value = none })
          ])
          cell in
      let after : System T = record s {
        inner = record s.inner { value = none };
        receiver = after_value a;
        received = s.received ++ v ∷ [];
      } in
      (
        after,
        ap
            (λ r. r >>= (λ (w, x).
              done (record s {
                inner = x;
                receiver = after_value a;
                received = s.received ++ w ∷ [];
              })))
            ran,
        record {
          filled = sym (
              pick-true s.inner.state.value_set _ _ set
              ∙ ap (λ b. not b || is_reading (after_value a)) had
              ∙ idle);
          sending = i.sending;
          receiving = ok s.inner.state;
          untaken = i.untaken;
          accepted = i.accepted;
          kept =
              all
              ∙ sym (append-nil (s.received ++ v ∷ []))
              ∙ ap (λ z. (s.received ++ v ∷ []) ++ (z ++ [])) (sym bare)
              ∙ ap (λ z. (s.received ++ v ∷ []) ++ (z ++ (carried s.sender ++ []))) (sym back);
          wakes = WakeOk-value after a;
        },
      )

  pub receive_step-Inv : (r : Receiver) → s.receiver ≡ r → Returns (receive_step s r) Inv
  unfolding receive_step Oneshot.mark_receiver_dropped
  receive_step-Inv Receiver.ready e = (s, refl, i)
  receive_step-Inv (Receiver.loading a) e = (_, refl, load a e)
  receive_step-Inv (Receiver.marking a t) e = mark a t e
  receive_step-Inv (Receiver.reading a) e = read a e
  receive_step-Inv Receiver.arming e = (
    _,
    refl,
    record {
      filled = filled-to Receiver.arming (Receiver.loading Attempt.second) e refl;
      sending = i.sending;
      receiving = tt;
      untaken = i.untaken;
      accepted = i.accepted;
      kept = i.kept;
      wakes = inr refl;
    },
  )
  receive_step-Inv Receiver.disarming e = (
    _,
    refl,
    record {
      filled = filled-to Receiver.disarming Receiver.ready e refl;
      sending = i.sending;
      receiving = tt;
      untaken = i.untaken;
      accepted = i.accepted;
      kept = i.kept;
      wakes = tt;
    },
  )
  receive_step-Inv Receiver.parked e = (s, refl, i)
  receive_step-Inv Receiver.dropping e = (
    _,
    refl,
    record {
      filled = filled-to Receiver.dropping Receiver.gone e refl;
      sending = i.sending;
      receiving = tt;
      untaken = i.untaken;
      accepted = i.accepted;
      kept = i.kept;
      wakes = tt;
    },
  )
  receive_step-Inv Receiver.gone e = (s, refl, i)
