-- ===== src/Tests/Protocols.antt =====
-- Histories of a machine at concrete inputs (src/state, src/state_machine.hpp).
use virtual_media.Base.{
  ◌≡◌, ◌+◌, ℕ, refl, true, false, none, some, List, [], ◌∷◌, ◌++◌, codes, length,
}
use virtual_media.Device.{inserted, removed}
use virtual_media.Notification
use virtual_media.Notification.{Notification}
use virtual_media.Machine.{
  insert_gadget, spawn_process, register_dbus, mount, unmount, deactivating, subprocess_stopped,
  udev_state_change, Machine, final,
}
use virtual_media.Machine.Resources.{ready_state}
use virtual_media.Machine.Handlers.{
  handle_initial, is_legacy, handle_active, notification_start, handle_deactivating, evaluate,
}
use virtual_media.Machine.Run.{
  handle_event, change_state, on_enter, replace_state, emit_event, Input, emits, expires, step, run,
}
use virtual_media.Machine.Completion.{signals, kind, both_orders}
use virtual_media.Machine.Protocol.{idle, leaving, Moves}
use virtual_media.Machine.Protocol.Answers.{open_requests}
use virtual_media.Machine.Protocol.Phases.{IsRegistered, phase_of}
use virtual_media.Machine.Protocol.Success.{Succeeds, step-Succeeds}
use virtual_media.Machine.Protocol.Histories.{
  run-Moves, accepted, run-answered, IsReleased, run-IsReleased,
}
use virtual_media.App.{new_machine}
use virtual_media.App.Lifecycle.{started-both_orders}
use virtual_media.Tests.Machines.{
  system, small, point, image, ready_machine, active_machine, started,
}

-- The last answer has been sent, and no request is open.
abbrev answered : Notification
answered = record { started = false; waiting = none; aborted = 1; sent = 0 ∷ [] }

abbrev idle_machine : Machine
idle_machine = record ready_machine { completion = some answered }

idle_machine-IsRegistered : IsRegistered idle_machine
idle_machine-IsRegistered = record { notifies = refl; settled = (refl, refl) }

-- A mount that succeeds, its unmount, and a mount whose image is too small.
abbrev events : List Input
events =
    emits system (mount (some image))
    ∷ emits system (udev_state_change inserted)
    ∷ emits system unmount
    ∷ emits system subprocess_stopped
    ∷ emits system (udev_state_change removed)
    ∷ emits small (mount (some image))
    ∷ emits small (udev_state_change inserted)
    ∷ []

run-Moves_example :
    (cs : List ℕ) × Moves idle
      (expires ∷ events)
      cs
      (phase_of (run (expires ∷ events) idle_machine))
    × (signals (run (expires ∷ events) idle_machine) ≡ cs ++ 0 ∷ [])
    × IsRegistered (run (expires ∷ events) idle_machine)
run-Moves_example = run-Moves (expires ∷ events) idle_machine idle_machine-IsRegistered

run-answered_example :
    length (signals (run events idle_machine)) + open_requests (phase_of (run events idle_machine))
    ≡ 1 + 0 + accepted events idle_machine
run-answered_example =
    run-answered events idle_machine idle_machine-IsRegistered
      (tt, (tt, (tt, (tt, (tt, (tt, (tt, tt)))))))

-- An active machine that holds its child and its gadget.
abbrev holding_machine : Machine
holding_machine = record active_machine {
  completion = some answered;
  trace = insert_gadget false (codes "session_1") ∷ spawn_process (codes "nbdkit") [] ∷ [];
}

abbrev ending : List Input
ending =
    emits system unmount
    ∷ emits system subprocess_stopped
    ∷ emits system (udev_state_change removed)
    ∷ []

run-IsReleased_example : IsReleased (run ending holding_machine)
unfolding run step emit_event handle_event handle_active notification_start change_state on_enter
    replace_state handle_deactivating evaluate ready_state
run-IsReleased_example =
    run-IsReleased ending holding_machine (tt, (tt, (tt, tt)))
      (record { processes = refl; gadgets = refl; mounts = refl; directories = refl })
      (record { notifies = refl; settled = refl }) refl

abbrev registered : Machine
registered = final (emit_event system register_dbus (new_machine (codes "Slot_2") point))

started-both_orders_example :
    let t = both_orders true system system (run events registered) in
    (kind t.state ≡ 1) × (t.target ≡ none) × IsReleased t
unfolding emit_event handle_event new_machine handle_initial is_legacy ready_state change_state
    on_enter
started-both_orders_example =
    started-both_orders system (codes "Slot_2") point true registered events true system system refl
      (refl, (tt, (tt, (tt, (tt, (refl, (tt, tt)))))))

-- The device of an unmount is gone, and its process is about to be.
abbrev closing_machine : Machine
closing_machine = record ready_machine {
  completion = some started;
  state = deactivating none none (some removed) false;
}

step-Succeeds_example :
    Succeeds
      (leaving true (some removed) false)
      (emits system subprocess_stopped)
      (phase_of (step (emits system subprocess_stopped) closing_machine))
unfolding step emit_event handle_event handle_deactivating evaluate ready_state change_state
    on_enter replace_state Notification.notify
step-Succeeds_example =
    step-Succeeds (emits system subprocess_stopped) closing_machine
      (record { notifies = refl; settled = tt }) refl
