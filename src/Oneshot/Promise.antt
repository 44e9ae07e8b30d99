-- ===== src/Oneshot/Promise.antt =====
-- What the channel promises to its two halves.
use cynosure.Prelude.{
  ◌≡◌, refl, ap, ◌∙◌, subst, inl, inr, Bool, true, false, not, ◌&&◌, ◌||◌, Option, none, some, List,
  [], ◌∷◌, ◌++◌, if◌then◌else◌, Exec, done, ◌>>=◌, Returns, Returns-bind, Returns-at,
}
use cynosure.Oneshot
use cynosure.Oneshot.{State, Inner, drop_inner}
use cynosure.Oneshot.System.{System, Sender, Receiver, Attempt, Event, init, step, run}
use cynosure.Oneshot.Invariant.{is_some, full, carried, slot, SenderOk, WakeOk, Inv, init-Inv}
use cynosure.Oneshot.Sends.{start_send-Inv, start_drop-Inv, send_step-Inv}
use cynosure.Oneshot.Receives.{start-Inv, receive_step-Inv}

module _ {T : Type 0} where
  step-Inv : (s : System T) (e : Event T) → Inv s → Returns (step s e) Inv
  unfolding step
  step-Inv s (Event.send v) i = (_, refl, start_send-Inv s i s.sender v refl)
  step-Inv s Event.drop_sender i = (_, refl, start_drop-Inv s i s.sender refl)
  step-Inv s Event.try_recv i =
      (_, refl, start-Inv s i s.receiver (Receiver.loading Attempt.trying) refl refl tt tt)
  step-Inv s Event.poll i =
      (_, refl, start-Inv s i s.receiver (Receiver.loading Attempt.first) refl refl tt tt)
  step-Inv s Event.drop_receiver i =
      (_, refl, start-Inv s i s.receiver Receiver.dropping refl refl tt tt)
  step-Inv s Event.sender_step i = (_, refl, send_step-Inv s i s.sender refl)
  step-Inv s Event.receiver_step i = receive_step-Inv s i s.receiver refl

  run-Inv : (s : System T) (es : List (Event T)) → Inv s → Returns (run s es) Inv
  unfolding run
  run-Inv s [] i = (s, refl, i)
  run-Inv s (e ∷ es) i =
      Returns-bind (step s e) (λ s'. run s' es) (step-Inv s e i) (λ s' i'. run-Inv s' es i')

  -- However the steps of the two halves are interleaved, no cell without a value is read, and at any time
  -- the value that `send` was called with is in just one place: with the receiver, given back by `send`,
  -- still carried by `send`, or in the cell.
  pub in_one_place :
      (es : List (Event T))
      → Returns
          (run init es)
          (λ s. s.offered ≡ s.received ++ (s.returned ++ (carried s.sender ++ slot s.inner.value)))
  in_one_place es = let (s, ran, i) = run-Inv init es init-Inv in (s, ran, i.kept)

  -- When both halves are gone, the drop of what they shared reads no cell without a value, and drops the
  -- value if it was neither received nor given back, and only then.
  pub dropped_unread :
      (es : List (Event T)) (s : System T)
      → run init es ≡ done s
      → s.sender ≡ Sender.gone
      → s.receiver ≡ Receiver.gone
      → Returns (drop_inner s.inner) (λ dropped. s.offered ≡ s.received ++ (s.returned ++ dropped))
  unfolding drop_inner Oneshot.read_value
  dropped_unread es s ran sender receiver =
      let i = Returns-at (run init es) s (run-Inv init es init-Inv) ran in
      let kept : s.offered ≡ s.received ++ (s.returned ++ slot s.inner.value) =
        i.kept ∙ ap (λ z. s.received ++ (s.returned ++ (carried z ++ slot s.inner.value))) sender in
      let left : is_some s.inner.value ≡ s.inner.state.value_set && not s.inner.state.taken =
        i.filled
        ∙ ap (λ z. full s.inner.state z s.receiver) sender
        ∙ ap (full {T = T} s.inner.state Sender.gone) receiver
        ∙ cond s.inner.state.value_set s.inner.state.taken in
      go s.inner.value _ left kept
    where
      cond : (b c : Bool) → (if b then not c || false else false) ≡ b && not c
      cond true true = refl
      cond true false = refl
      cond false c = refl

      go :
          (x : Option T) (b : Bool)
          → is_some x ≡ b
          → s.offered ≡ s.received ++ (s.returned ++ slot x)
          → Returns
              (if b
                then (elim x as (λ _. Exec (T × Inner T)) [
                  | none ↦ Exec.fault
                  | some v ↦ done (v, record s.inner { value = none })
                ]
                    >>= (λ (v, _). done (v ∷ [])))
                else done [])
              (λ dropped. s.offered ≡ s.received ++ (s.returned ++ dropped))
      go none true e k = absurd (cc)
      go none false e k = ([], refl, k)
      go (some v) true e k = (v ∷ [], refl, k)
      go (some v) false e k = absurd (cc)

  -- A receiver never hangs: if its future is pending while the sender is gone, with or without a value,
  -- then the waker of the future was called since the slot was armed.
  pub gone_wakes :
      (es : List (Event T)) (s : System T)
      → run init es ≡ done s
      → s.receiver ≡ Receiver.parked
      → s.sender ≡ Sender.gone
      → s.woken ≡ true
  gone_wakes es s ran parked gone =
      let i = Returns-at (run init es) s (run-Inv init es init-Inv) ran in
      let wakes = subst (WakeOk s) parked i.wakes in
      let resolved =
        subst (SenderOk s.inner.state.value_set s.inner.state.sender_dropped s.returned) gone
          i.sending in
      elim wakes [
        | inl woken ↦ woken
        | inr (_, inr sig) ↦ absurd (cc (sig, gone))
        | inr (_, inl (unset, live)) ↦ elim resolved [
          | inl set ↦ absurd (cc (set, unset))
          | inr closed ↦ absurd (cc (closed, live))
        ]
      ]
