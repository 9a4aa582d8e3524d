-- ===== src/App/Independence.antt =====
-- Every machine of the service has a history of its own (src/main.cpp).
use virtual_media.Base.{
  Bool, ◌≡◌, refl, ap, sym, ◌∙◌, Option, none, some, List, [], ◌∷◌, Text, text_eq, Exception, ok,
  Bool-cases, inl, inr, All, subst,
}
use mathlib.Core.Path.{ap₂}
use virtual_media.Config.{MountPoint}
use virtual_media.Device.{NbdDevice, StateChange}
use virtual_media.Local.{Slots}
use virtual_media.Local.Slots.{AllBalanced}
use virtual_media.Machine.{System, Machine, Outcome, done, threw, final}
use virtual_media.Machine.Run.{emit_udev_state_change}
use virtual_media.App.{
  start_machines, dispatch, Turn, turn, Callback, changes, has_turn, turn_of, call_back, serve,
}
use virtual_media.App.Machines.{Started, start_machines-Started}
use virtual_media.App.Sound.{AllRegistered, StartsRegistered, start_machines-StartsRegistered}
use virtual_media.App.Turns.{IsKept, RestsReleased, IsKept-RestsReleased}
use virtual_media.App.Callbacks.{
  hears, AllFreshCalls, AllKept, emit_udev_state_change-hears, go_on, dispatch-go_on, serve-AllKept,
}

-- One machine that hears the callbacks alone.
abbrev pub follow : List Callback → Text → Machine → Machine
follow [] name s = s
follow (c ∷ calls) name s = follow calls name (hears name c s)

abbrev pub follow_all : List Callback → Slots → Slots
follow_all calls [] = []
follow_all calls ((name, s) ∷ ms) = (name, follow calls name s) ∷ follow_all calls ms

follow_all-nil : (ms : Slots) → ms ≡ follow_all [] ms
follow_all-nil [] = refl
follow_all-nil ((name, s) ∷ ms) = ap (λ x. (name, s) ∷ x) (follow_all-nil ms)

follow_all-cons :
    (c : Callback) (calls : List Callback) (ms : Slots)
    → follow_all calls (follow_all (c ∷ []) ms) ≡ follow_all (c ∷ calls) ms
follow_all-cons c calls [] = refl
follow_all-cons c calls ((name, s) ∷ ms) =
    ap (λ x. (name, follow calls name (hears name c s)) ∷ x) (follow_all-cons c calls ms)

go_on-hears :
    (name : Text) (t : Machine) (ms ns : Slots) (rest : Slots × Option Exception) (o : Outcome Bool)
    → final o ≡ t
    → (rest.1 ≡ none → rest.0 ≡ ns)
    → (go_on name ms rest o).1 ≡ none
    → (go_on name ms rest o).0 ≡ (name, t) ∷ ns
go_on-hears name t ms ns rest (threw x u) e h q = cc q
go_on-hears name t ms ns rest (done b u) e h q = ap₂ (λ y z. (name, y) ∷ z) e (h q)

dispatch-follow_all :
    (sys : System) (dev : NbdDevice) (change : StateChange) (ms : Slots)
    → (dispatch sys dev change ms).1 ≡ none
    → (dispatch sys dev change ms).0 ≡ follow_all (changes sys dev change ∷ []) ms
unfolding dispatch
dispatch-follow_all sys dev change [] q = refl
dispatch-follow_all sys dev change ((name, s) ∷ ms) q =
    let e = dispatch-go_on sys dev change name s ms in
    ap (λ r. r.0) e
    ∙ go_on-hears name (hears name (changes sys dev change) s) ms
        (follow_all (changes sys dev change ∷ []) ms) (dispatch sys dev change ms)
        (emit_udev_state_change sys dev change s)
        (emit_udev_state_change-hears sys dev change name s) (dispatch-follow_all sys dev change ms)
        (sym (ap (λ r. r.1) e) ∙ q)

turn_of-follow_all :
    (name : Text) (t : Turn) (ms : Slots) → turn_of name t ms ≡ follow_all (has_turn name t ∷ []) ms
unfolding turn_of
turn_of-follow_all name t [] = refl
turn_of-follow_all name t ((k, s) ∷ ms) = elim (Bool-cases (text_eq k name)) [
  | inl e ↦ rw (e, turn_of) (ap (λ x. (k, turn t s) ∷ x) (turn_of-follow_all name t ms))
  | inr e ↦ rw (e, turn_of) (ap (λ x. (k, s) ∷ x) (turn_of-follow_all name t ms))
]

serve_next-follow_all :
    (sys : System) (dev : NbdDevice) (change : StateChange) (calls : List Callback) (ms : Slots)
    (o : Option Exception)
    → (dispatch sys dev change ms).1 ≡ o
    → ((serve calls (dispatch sys dev change ms).0).1 ≡ none
        → (serve calls (dispatch sys dev change ms).0).0
          ≡ follow_all calls (dispatch sys dev change ms).0)
    → (elim o as (λ _. Slots × Option Exception) [
      | some e ↦ dispatch sys dev change ms
      | none ↦ serve calls (dispatch sys dev change ms).0
    ]).1
      ≡ none
    → (elim o as (λ _. Slots × Option Exception) [
      | some e ↦ dispatch sys dev change ms
      | none ↦ serve calls (dispatch sys dev change ms).0
    ]).0
      ≡ follow_all (changes sys dev change ∷ calls) ms
serve_next-follow_all sys dev change calls ms none e h r =
    h r
    ∙ ap (follow_all calls) (dispatch-follow_all sys dev change ms e)
    ∙ follow_all-cons (changes sys dev change) calls ms
serve_next-follow_all sys dev change calls ms (some x) e h r = cc (e, r)

serve-follow_all :
    (calls : List Callback) (ms : Slots)
    → (serve calls ms).1 ≡ none
    → (serve calls ms).0 ≡ follow_all calls ms
unfolding serve call_back
serve-follow_all [] ms q = follow_all-nil ms
serve-follow_all (has_turn name t ∷ calls) ms q =
    serve-follow_all calls (turn_of name t ms) q
    ∙ ap (follow_all calls) (turn_of-follow_all name t ms)
    ∙ follow_all-cons (has_turn name t) calls ms
serve-follow_all (changes sys dev change ∷ calls) ms q =
    serve_next-follow_all sys dev change calls ms (dispatch sys dev change ms).1 refl
      (serve-follow_all calls (dispatch sys dev change ms).0) q

registered-AllKept : (ms : Slots) → AllRegistered ms → AllBalanced ms → AllKept ms
registered-AllKept [] h b = tt
registered-AllKept ((name, s) ∷ ms) h b = ((h.0, b.0), registered-AllKept ms h.1 b.1)

-- A machine that is registered, in balance, and has given everything back where it is ready.
abbrev pub AllSound : Slots → Type 0
AllSound = All (λ e. IsKept e.1 × RestsReleased e.1)

AllKept-AllSound : (ms : Slots) → AllKept ms → AllSound ms
AllKept-AllSound [] a = tt
AllKept-AllSound ((name, s) ∷ ms) a = ((a.0, IsKept-RestsReleased s a.0), AllKept-AllSound ms a.1)

-- Where no callback has ended the service, each machine is what the callbacks make of it alone.
abbrev pub AreAlone : List Callback → Slots → Slots × Option Exception → Type 0
AreAlone calls ms (after, none) = after ≡ follow_all calls ms
AreAlone calls ms (after, some e) = Unit

serve-AreAlone :
    (calls : List Callback) (ms : Slots) (r : Slots × Option Exception)
    → (r.1 ≡ none → r.0 ≡ follow_all calls ms)
    → AreAlone calls ms r
serve-AreAlone calls ms (after, none) h = h refl
serve-AreAlone calls ms (after, some e) h = tt

-- From the start of the service on, after any callbacks of its event loop in any order over the
-- machines, which are changes of devices, events, timer handlers and beginnings of calls of Mount,
-- where mounts carry targets that hold no mount yet: every machine is registered, what its trace
-- acquires is given back or held, and it has given everything back where it is ready; and unless
-- the device monitor's callback has thrown, it is what it makes alone of the changes of its own
-- device and of its own turns, in their order.
pub start_machines-serve :
    (sys : System) (points : List (Text × MountPoint)) (ms : Slots) (calls : List Callback)
    → start_machines sys points ≡ ok ms
    → AllFreshCalls calls
    → AllSound (serve calls ms).0 × AreAlone calls ms (serve calls ms)
start_machines-serve sys points ms calls e f = (
  AllKept-AllSound (serve calls ms).0 (
      serve-AllKept calls ms f (
        registered-AllKept ms
          (subst StartsRegistered e (start_machines-StartsRegistered sys points))
          (subst Started e (start_machines-Started sys points)))),
  serve-AreAlone calls ms (serve calls ms) (serve-follow_all calls ms),
)
