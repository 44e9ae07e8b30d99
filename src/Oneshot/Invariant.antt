-- ===== src/Oneshot/Invariant.antt =====
-- What holds of a channel and its two halves between any two steps.
use cynosure.Prelude.{
  ◌≡◌, refl, ◌⊎◌, inl, inr, Bool, true, false, not, ◌||◌, Option, none, some, List, [], ◌∷◌, ◌++◌,
  if◌then◌else◌,
}
use cynosure.Oneshot
use cynosure.Oneshot.{State, Inner}
use cynosure.Oneshot.System.{System, Sender, Receiver, Attempt, init}

module _ {T : Type 0} where
  abbrev pub is_storing : Sender T → Bool
  is_storing Sender.ready = false
  is_storing (Sender.loading v) = false
  is_storing (Sender.writing t v) = false
  is_storing (Sender.storing t) = true
  is_storing Sender.signaling = false
  is_storing Sender.dropping = false
  is_storing Sender.closing = false
  is_storing Sender.announcing = false
  is_storing Sender.gone = false

  -- The sender is about to signal.
  abbrev pub signals : Sender T → Bool
  signals Sender.ready = false
  signals (Sender.loading v) = false
  signals (Sender.writing t v) = false
  signals (Sender.storing t) = false
  signals Sender.signaling = true
  signals Sender.dropping = false
  signals Sender.closing = false
  signals Sender.announcing = true
  signals Sender.gone = false

  -- The value that `send` has not written yet
  abbrev pub carried : Sender T → List T
  carried Sender.ready = []
  carried (Sender.loading v) = v ∷ []
  carried (Sender.writing t v) = v ∷ []
  carried (Sender.storing t) = []
  carried Sender.signaling = []
  carried Sender.dropping = []
  carried Sender.closing = []
  carried Sender.announcing = []
  carried Sender.gone = []

  abbrev pub slot : Option T → List T
  slot none = []
  slot (some v) = v ∷ []

  abbrev pub is_some : Option T → Bool
  is_some none = false
  is_some (some v) = true

abbrev pub is_reading : Receiver → Bool
is_reading Receiver.ready = false
is_reading (Receiver.loading a) = false
is_reading (Receiver.marking a t) = false
is_reading (Receiver.reading a) = true
is_reading Receiver.arming = false
is_reading Receiver.disarming = false
is_reading Receiver.parked = false
is_reading Receiver.dropping = false
is_reading Receiver.gone = false

-- Is there a value in the cell?
abbrev pub full : {T : Type 0} → State → Sender T → Receiver → Bool
full st x r = if st.value_set then not st.taken || is_reading r else is_storing x

module _ {T : Type 0} where
  abbrev pub SenderOk : Bool → Bool → List T → Sender T → Type 0
  SenderOk set closed returned Sender.ready = (set ≡ false) × (returned ≡ [])
  SenderOk set closed returned (Sender.loading v) = (set ≡ false) × (returned ≡ [])
  SenderOk set closed returned (Sender.writing t v) =
      (set ≡ false) × (returned ≡ []) × (t.taken ≡ false)
  SenderOk set closed returned (Sender.storing t) =
      (set ≡ false) × (returned ≡ []) × (t.taken ≡ false)
  SenderOk set closed returned Sender.signaling = set ≡ true
  SenderOk set closed returned Sender.dropping = Unit
  SenderOk set closed returned Sender.closing = set ≡ false
  SenderOk set closed returned Sender.announcing = closed ≡ true
  SenderOk set closed returned Sender.gone = (set ≡ true) ⊎ (closed ≡ true)

abbrev pub ReceiverOk : State → Receiver → Type 0
ReceiverOk st Receiver.ready = Unit
ReceiverOk st (Receiver.loading a) = Unit
ReceiverOk st (Receiver.marking a t) =
    (st.value_set ≡ true)
    × (st.taken ≡ false)
    × (t.value_set ≡ true)
    × (t.sender_dropped ≡ st.sender_dropped)
ReceiverOk st (Receiver.reading a) = (st.value_set ≡ true) × (st.taken ≡ true)
ReceiverOk st Receiver.arming = Unit
ReceiverOk st Receiver.disarming = Unit
ReceiverOk st Receiver.parked = Unit
ReceiverOk st Receiver.dropping = Unit
ReceiverOk st Receiver.gone = Unit

module _ {T : Type 0} where
  -- The channel is not resolved, or the sender is about to signal.
  abbrev pub Rests : State → Sender T → Type 0
  Rests st x = ((st.value_set ≡ false) × (st.sender_dropped ≡ false)) ⊎ (signals x ≡ true)

  abbrev pub WakeOk : System T → Receiver → Type 0
  WakeOk s Receiver.ready = Unit
  WakeOk s (Receiver.loading Attempt.trying) = Unit
  WakeOk s (Receiver.loading Attempt.first) = Unit
  WakeOk s (Receiver.loading Attempt.second) = (s.woken ≡ true) ⊎ (s.inner.armed ≡ true)
  WakeOk s (Receiver.marking a t) = Unit
  WakeOk s (Receiver.reading a) = Unit
  WakeOk s Receiver.arming = Unit
  WakeOk s Receiver.disarming = Unit
  WakeOk s Receiver.parked =
      (s.woken ≡ true) ⊎ ((s.inner.armed ≡ true) × Rests s.inner.state s.sender)
  WakeOk s Receiver.dropping = Unit
  WakeOk s Receiver.gone = Unit

  pub record Inv (s : System T) : Type 0 where
    pub filled : is_some s.inner.value ≡ full s.inner.state s.sender s.receiver
    pub sending : SenderOk s.inner.state.value_set s.inner.state.sender_dropped s.returned s.sender
    pub receiving : ReceiverOk s.inner.state s.receiver
    pub untaken : s.inner.state.value_set ≡ false → s.inner.state.taken ≡ false
    pub accepted : s.inner.state.value_set ≡ true → s.returned ≡ []
    -- Every value is in just one place.
    pub kept : s.offered ≡ s.received ++ (s.returned ++ (carried s.sender ++ slot s.inner.value))
    pub wakes : WakeOk s s.receiver

  pub init-Inv : Inv (init {T = T})
  unfolding init Oneshot.oneshot
  init-Inv = record {
    filled = refl;
    sending = (refl, refl);
    receiving = tt;
    untaken = λ e. refl;
    accepted = λ e. refl;
    kept = refl;
    wakes = tt;
  }

  pub WakeOk-keep :
      (s s' : System T) (r : Receiver)
      → (s.woken ≡ true → s'.woken ≡ true)
      → (s.inner.armed ≡ true → (s'.woken ≡ true) ⊎ (s'.inner.armed ≡ true))
      → (s.inner.armed ≡ true
          → Rests s.inner.state s.sender
          → (s'.woken ≡ true) ⊎ ((s'.inner.armed ≡ true) × Rests s'.inner.state s'.sender))
      → WakeOk s r
      → WakeOk s' r
  WakeOk-keep s s' Receiver.ready w a p h = tt
  WakeOk-keep s s' (Receiver.loading Attempt.trying) w a p h = tt
  WakeOk-keep s s' (Receiver.loading Attempt.first) w a p h = tt
  WakeOk-keep s s' (Receiver.loading Attempt.second) w a p (inl woken) = inl (w woken)
  WakeOk-keep s s' (Receiver.loading Attempt.second) w a p (inr on) = a on
  WakeOk-keep s s' (Receiver.marking b t) w a p h = tt
  WakeOk-keep s s' (Receiver.reading b) w a p h = tt
  WakeOk-keep s s' Receiver.arming w a p h = tt
  WakeOk-keep s s' Receiver.disarming w a p h = tt
  WakeOk-keep s s' Receiver.parked w a p (inl woken) = inl (w woken)
  WakeOk-keep s s' Receiver.parked w a p (inr (on, rest)) = p on rest
  WakeOk-keep s s' Receiver.dropping w a p h = tt
  WakeOk-keep s s' Receiver.gone w a p h = tt

  pub slot-none : (x : Option T) → is_some x ≡ false → slot x ≡ []
  slot-none none e = refl
  slot-none (some v) e = absurd (cc)

pub ReceiverOk-unset :
    (st st' : State) (r : Receiver) → st.value_set ≡ false → ReceiverOk st r → ReceiverOk st' r
ReceiverOk-unset st st' Receiver.ready e h = tt
ReceiverOk-unset st st' (Receiver.loading a) e h = tt
ReceiverOk-unset st st' (Receiver.marking a t) e (v, _, _, _) = absurd (cc (e, v))
ReceiverOk-unset st st' (Receiver.reading a) e (v, more) = absurd (cc (e, v))
ReceiverOk-unset st st' Receiver.arming e h = tt
ReceiverOk-unset st st' Receiver.disarming e h = tt
ReceiverOk-unset st st' Receiver.parked e h = tt
ReceiverOk-unset st st' Receiver.dropping e h = tt
ReceiverOk-unset st st' Receiver.gone e h = tt

pub pick-false : {A : Type 0} (b : Bool) (x y : A) → b ≡ false → (if b then x else y) ≡ y
pick-false true x y e = absurd (cc)
pick-false false x y e = refl

pub pick-true : {A : Type 0} (b : Bool) (x y : A) → b ≡ true → (if b then x else y) ≡ x
pick-true true x y e = refl
pick-true false x y e = absurd (cc)
