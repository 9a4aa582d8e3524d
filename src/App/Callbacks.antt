-- ===== src/App/Callbacks.antt =====
-- The machines of the service over the callbacks of its event loop (src/main.cpp).
use virtual_media.Base.{
  ◌≡◌, refl, sym, Bool, Option, some, List, [], ◌∷◌, Text, text_eq, Exception, if◌then◌else◌,
  Bool-cases, Option-cases, inl, inr, All, subst,
}
use virtual_media.Device.{NbdDevice, StateChange, device_eq}
use virtual_media.Local.{Slots}
use virtual_media.Machine.{udev_state_change, System, Machine, Outcome, done, threw, final}
use virtual_media.Machine.Run.{emit_udev_state_change, emits, step}
use virtual_media.App.{
  dispatch, Turn, takes, turn, Callback, changes, has_turn, turn_of, call_back, serve,
}
use virtual_media.App.Turns.{IsKept, IsFreshTurn, turn-IsKept}

-- What a callback is to one machine: a change of its own device, or its own turn.
abbrev pub hears : Text → Callback → Machine → Machine
hears name (changes sys dev change) s =
    if device_eq s.config.nbd_device dev
    then turn (takes (emits sys (udev_state_change change))) s
    else s
hears name (has_turn k t) s = if text_eq name k then turn t s else s

abbrev pub AllFreshCalls : List Callback → Type 0
AllFreshCalls [] = Unit
AllFreshCalls (changes sys dev change ∷ calls) = AllFreshCalls calls
AllFreshCalls (has_turn name t ∷ calls) = IsFreshTurn t × AllFreshCalls calls

abbrev pub AllKept : Slots → Type 0
AllKept = All (λ e. IsKept e.1)

pub emit_udev_state_change-hears :
    (sys : System) (dev : NbdDevice) (change : StateChange) (name : Text) (s : Machine)
    → final (emit_udev_state_change sys dev change s) ≡ hears name (changes sys dev change) s
unfolding emit_udev_state_change turn step
emit_udev_state_change-hears sys dev change name s =
    elim (Bool-cases (device_eq s.config.nbd_device dev)) [
      | inl e ↦ rw (e, emit_udev_state_change) refl
      | inr e ↦ rw (e, emit_udev_state_change) refl
    ]

hears-IsKept :
    (sys : System) (dev : NbdDevice) (change : StateChange) (name : Text) (s : Machine)
    → IsKept s
    → IsKept (hears name (changes sys dev change) s)
hears-IsKept sys dev change name s h = elim (Bool-cases (device_eq s.config.nbd_device dev)) [
  | inl e ↦ rw e (turn-IsKept (takes (emits sys (udev_state_change change))) s (tt, tt) h)
  | inr e ↦ rw e h
]

told-IsKept :
    (sys : System) (dev : NbdDevice) (change : StateChange) (s : Machine)
    → IsKept s
    → IsKept (final (emit_udev_state_change sys dev change s))
told-IsKept sys dev change s h =
    subst IsKept (sym (emit_udev_state_change-hears sys dev change s.name s))
      (hears-IsKept sys dev change s.name s h)

-- The machines behind one that was told, which are told too unless it threw.
abbrev pub go_on : Text → Slots → Slots × Option Exception → Outcome Bool → Slots × Option Exception
go_on name ms rest (threw e t) = ((name, t) ∷ ms, some e)
go_on name ms rest (done b t) = ((name, t) ∷ rest.0, rest.1)

pub dispatch-go_on :
    (sys : System) (dev : NbdDevice) (change : StateChange) (name : Text) (s : Machine) (ms : Slots)
    → dispatch sys dev change ((name, s) ∷ ms)
      ≡ go_on name ms (dispatch sys dev change ms) (emit_udev_state_change sys dev change s)
unfolding dispatch
dispatch-go_on sys dev change name s ms = go (emit_udev_state_change sys dev change s)
  where
    go :
        (o : Outcome Bool)
        → elim o as (λ _. Slots × Option Exception) [
          | threw e t ↦ ((name, t) ∷ ms, some e)
          | done b t ↦ let rest = dispatch sys dev change ms in ((name, t) ∷ rest.0, rest.1)
        ]
          ≡ go_on name ms (dispatch sys dev change ms) o
    go (threw e t) = refl
    go (done b t) = refl

go_on-AllKept :
    (name : Text) (ms : Slots) (rest : Slots × Option Exception) (o : Outcome Bool)
    → IsKept (final o)
    → AllKept ms
    → AllKept rest.0
    → AllKept (go_on name ms rest o).0
go_on-AllKept name ms rest (threw e t) h a r = (h, a)
go_on-AllKept name ms rest (done b t) h a r = (h, r)

dispatch-AllKept :
    (sys : System) (dev : NbdDevice) (change : StateChange) (ms : Slots)
    → AllKept ms
    → AllKept (dispatch sys dev change ms).0
unfolding dispatch
dispatch-AllKept sys dev change [] a = tt
dispatch-AllKept sys dev change ((name, s) ∷ ms) a =
    subst (λ r. AllKept r.0) (sym (dispatch-go_on sys dev change name s ms))
      (go_on-AllKept name ms (dispatch sys dev change ms) (emit_udev_state_change sys dev change s)
        (told-IsKept sys dev change s a.0) a.1 (dispatch-AllKept sys dev change ms a.1))

turn_of-AllKept :
    (name : Text) (t : Turn) (ms : Slots) → IsFreshTurn t → AllKept ms → AllKept (turn_of name t ms)
unfolding turn_of
turn_of-AllKept name t [] f a = tt
turn_of-AllKept name t ((k, s) ∷ ms) f a = elim (Bool-cases (text_eq k name)) [
  | inl e ↦ rw (e, turn_of) (turn-IsKept t s f a.0, turn_of-AllKept name t ms f a.1)
  | inr e ↦ rw (e, turn_of) (a.0, turn_of-AllKept name t ms f a.1)
]

pub serve-AllKept :
    (calls : List Callback) (ms : Slots)
    → AllFreshCalls calls
    → AllKept ms
    → AllKept (serve calls ms).0
unfolding serve call_back
serve-AllKept [] ms f a = a
serve-AllKept (has_turn name t ∷ calls) ms f a =
    serve-AllKept calls (turn_of name t ms) f.1 (turn_of-AllKept name t ms f.0 a)
serve-AllKept (changes sys dev change ∷ calls) ms f a =
    let first : Slots × Option Exception = dispatch sys dev change ms in
    let kept = dispatch-AllKept sys dev change ms a in
    elim (Option-cases first.1) [
      | inl e ↦ rw (e, serve) (serve-AllKept calls first.0 f kept)
      | inr (x, e) ↦ rw (e, serve) kept
    ]
