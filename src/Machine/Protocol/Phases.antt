-- ===== src/Machine/Protocol/Phases.antt =====
-- The phase of a machine, and how a change of its state ends (src/state_machine.hpp).
use virtual_media.Base.{
  ◌∙◌, ap, sym, subst, ℕ, suc, ◌≡◌, refl, Bool, false, Option, none, some, List, ◌++◌, arith,
  from_option,
}
use virtual_media.Device.{StateChange}
use virtual_media.Notification
use virtual_media.Notification.{Notification}
use virtual_media.Machine.Types.{
  Process, Gadget, Target, Error, State, initial, ready, activating, active, deactivating, System,
  Machine, final,
}
use virtual_media.Machine.Resources.{drop_state, set_target}
use virtual_media.Machine.Run.{
  enter_ready, enter_deactivating, on_enter, replace_state, change_state, Input,
}
use virtual_media.Machine.Balance.{is_activating}
use virtual_media.Machine.Protocol.{Phase, idle, mounting, mounted, leaving, Move}

-- The phase of a state with its notification; a machine that is not registered has none, and is
-- left out by `IsRegistered`.
abbrev pub phase : State → Notification → Phase
phase initial n = idle
phase (ready e) n = idle
phase (activating p g) n = mounting n.started
phase (active p g) n = mounted
phase (deactivating p g u b) n = leaving n.started u b

-- No request is open where the machine rests, and a ready machine has no target.
abbrev pub IsSettled : State → Notification → Option Target → Type 0
IsSettled initial n t = ⊥
IsSettled (ready e) n t = (n.started ≡ false) × (t ≡ none)
IsSettled (active p g) n t = n.started ≡ false
IsSettled _ n t = Unit

-- The notification of a machine, a fresh one where it has none.
abbrev pub notification : Machine → Notification
notification s = from_option Notification.fresh s.completion

-- A machine that is registered on D-Bus.
pub record IsRegistered (s : Machine) : Type 0 where
  pub notifies : s.completion ≡ some (notification s)
  pub settled : IsSettled s.state (notification s) s.target

abbrev pub phase_of : Machine → Phase
phase_of s = phase s.state (notification s)

pub settled-IsRegistered :
    (t : Machine) (st : State) (m : Notification)
    → t.state ≡ st
    → t.completion ≡ some m
    → IsSettled st m t.target
    → IsRegistered t
settled-IsRegistered t st m q c h =
    let n = ap (from_option Notification.fresh) c in
    record {
      notifies = c ∙ ap some (sym n);
      settled =
          subst (λ x. IsSettled x (notification t) t.target) (sym q)
            (subst (λ x. IsSettled st x t.target) (sym n) h);
    }

-- What an input made of a machine in a phase that had told some codes.
abbrev pub Follows : Phase → Input → List ℕ → Machine → Type 0
Follows p i old t =
    (st : State) × (m : Notification) × (cs : List ℕ) × (t.state ≡ st)
    × (t.completion ≡ some m)
    × Move p i cs (phase st m)
    × (m.sent ≡ cs ++ old)
    × IsSettled st m t.target

abbrev entered : State → State
entered (deactivating p g u b) = deactivating none none u b
entered st = st

-- A state that is not activating is entered without another one.
pub change_state-completion :
    (sys : System) (fuel : ℕ) (st : State) (s : Machine)
    → is_activating st ≡ false
    → (final (change_state (suc fuel) sys st s)).state ≡ entered st
      × ((final (change_state (suc fuel) sys st s)).completion ≡ s.completion)
unfolding change_state on_enter replace_state enter_ready enter_deactivating set_target drop_state
change_state-completion sys fuel initial s h = ground arith
change_state-completion sys fuel (ready e) s h = ground arith
change_state-completion sys fuel (activating p g) s h = cc
change_state-completion sys fuel (active p g) s h = ground arith
change_state-completion sys fuel (deactivating p g u b) s h = ground arith

pub change_state-target :
    (sys : System) (fuel : ℕ) (e : Option Error) (s : Machine)
    → (final (change_state (suc fuel) sys (ready e) s)).target ≡ none
unfolding change_state on_enter replace_state enter_ready set_target
change_state-target sys fuel e s = refl

module _ (p : Phase) (i : Input) (old : List ℕ) (sys : System) (fuel : ℕ) (s : Machine)
    (m : Notification) (cs : List ℕ) (c : s.completion ≡ some m) (q : m.sent ≡ cs ++ old) where
  pub lands_ready :
      (e : Option Error)
      → Move p i cs idle
      → m.started ≡ false
      → Follows p i old (final (change_state (suc fuel) sys (ready e) s))
  lands_ready e v z =
      let r = change_state-completion sys fuel (ready e) s refl in
      (ready e, m, cs, r.0, r.1 ∙ c, v, q, (z, change_state-target sys fuel e s))

  pub lands_active :
      (pr : Option Process) (g : Option Gadget)
      → Move p i cs mounted
      → m.started ≡ false
      → Follows p i old (final (change_state (suc fuel) sys (active pr g) s))
  lands_active pr g v z =
      let r = change_state-completion sys fuel (active pr g) s refl in
      (active pr g, m, cs, r.0, r.1 ∙ c, v, q, z)

  pub lands_leaving :
      (pr : Option Process) (g : Option Gadget) (u : Option StateChange) (b : Bool)
      → Move p i cs (leaving m.started u b)
      → Follows p i old (final (change_state (suc fuel) sys (deactivating pr g u b) s))
  lands_leaving pr g u b v =
      let r = change_state-completion sys fuel (deactivating pr g u b) s refl in
      (deactivating none none u b, m, cs, r.0, r.1 ∙ c, v, q, tt)

-- A machine with its state and its notification spelt out.
abbrev pub at : Machine → State → Bool → Notification → Machine
at s st o n = record s { state = st; completion = some (record n { started = o }) }
