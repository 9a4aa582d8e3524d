-- ===== src/Machine/Run.antt =====
-- `changeState` and `emitEvent` of src/state_machine.hpp, and the events of one machine in order.
use virtual_media.Base.{
  ℕ, zero, suc, Bool, true, false, Option, none, some, List, [], ◌∷◌, if◌then◌else◌,
}
use virtual_media.Device.{NbdDevice, StateChange, device_eq}
use virtual_media.Notification
use virtual_media.Notification.{Notification}
use virtual_media.Machine.Types.{
  State, initial, ready, activating, active, deactivating, Event, udev_state_change, System,
  Machine, done, threw, M, ◌>>◌, pure, modify, final,
}
use virtual_media.Machine.Resources.{drop_state, drop_process, drop_gadget, set_target}
use virtual_media.Machine.Legacy.{enter_activating}
use virtual_media.Machine.Handlers.{
  handle_initial, handle_ready, handle_activating, handle_active, handle_deactivating,
}

-- `ReadyState::onEnter`: the target is given up.
unfoldable pub enter_ready : Machine → Machine
unfolding set_target
enter_ready s =
    let t = set_target none s in
    record t { config = record t.config { remaining_inactivity_timeout = 0 } }

-- `DeactivatingState::onEnter`: the gadget and then the process are given up.
unfoldable pub enter_deactivating : Machine → Machine
unfolding drop_process drop_gadget
enter_deactivating s = elim s.state [
  | deactivating p g u b ↦ record (drop_process p (drop_gadget g s)) {
    state = deactivating none none u b;
  }
  | initial ↦ s
  | ready e ↦ s
  | activating p g ↦ s
  | active p g ↦ s
]

-- `onEnter` of the state that the machine is in.
unfoldable pub on_enter : System → State → M (Option State)
unfolding enter_ready enter_deactivating
on_enter sys initial = pure none
on_enter sys (ready e) = modify enter_ready >> pure none
on_enter sys (activating p g) = enter_activating sys
on_enter sys (active p g) = pure none
on_enter sys (deactivating p g u b) = modify enter_deactivating >> pure none

-- The new state is in place before the old one is destroyed.
unfoldable pub replace_state : State → Machine → Machine
unfolding drop_state
replace_state new s = drop_state s.state (record s { state = new })

-- `changeState`: `false` where the fuel ran out.
unfoldable pub change_state : ℕ → System → State → M Bool
change_state zero sys new s = done false s
change_state (suc fuel) sys new s = elim (on_enter sys new (replace_state new s)) [
  | threw e t ↦ threw e t
  | done none t ↦ done true t
  | done (some next) t ↦ change_state fuel sys next t
]

unfoldable pub handle_event : System → State → Event → M (Option State)
handle_event sys initial e = handle_initial sys e
handle_event sys (ready err) e = handle_ready e
handle_event sys (activating p g) e = handle_activating sys p g e
handle_event sys (active p g) e = handle_active p g e
handle_event sys (deactivating p g u b) e = handle_deactivating p g u b e

-- `emitEvent`; two changes of state are the most that one event makes.
unfoldable pub emit_event : System → Event → M Bool
emit_event sys e s = elim (handle_event sys s.state e s) [
  | threw x t ↦ threw x t
  | done none t ↦ done true t
  | done (some new) t ↦ change_state 2 sys new t
]

-- `emitUdevStateChangeEvent`: a change of another device is ignored.
unfoldable pub emit_udev_state_change : System → NbdDevice → StateChange → M Bool
unfolding emit_event
emit_udev_state_change sys dev change s =
    if device_eq s.config.nbd_device dev
    then emit_event sys (udev_state_change change) s
    else done true s

-- What happens to a machine: an event, with what the system answers during it, or a handler of
-- the notification's timer.
pub data Input : Type 0 where
  emits : System → Event → Input
  expires runs_aborted : Input

unfoldable pub update_completion : (Notification → Notification) → Machine → Machine
update_completion f s = elim s.completion [
  | none ↦ s
  | some n ↦ record s { completion = some (f n) }
]

-- An exception leaves the machine as it was when it was thrown.
unfoldable pub step : Input → Machine → Machine
unfolding update_completion
step (emits sys e) s = final (emit_event sys e s)
step expires s = update_completion Notification.expire s
step runs_aborted s = update_completion Notification.run_aborted s

unfoldable pub run : List Input → Machine → Machine
run [] s = s
run (i ∷ is) s = run is (step i s)
