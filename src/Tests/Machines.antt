-- ===== src/Tests/Machines.antt =====
-- A machine at concrete inputs (src/state_machine.hpp, src/state).
use virtual_media.Base.{
  ◌==◌, ◌≡◌, ◌+◌, ◌*◌, arith, refl, true, false, Option, none, some, List, [], ◌∷◌, codes,
  if◌then◌else◌, pos, negsuc,
}
use virtual_media.Config.{MountPoint, legacy}
use virtual_media.Credentials.{make_credentials}
use virtual_media.Device.{nbd0, inserted, removed}
use virtual_media.Notification.{Notification}
use virtual_media.Machine.{
  Process, Gadget, Target, initial, ready, activating, active, register_dbus, mount, unmount,
  subprocess_stopped, udev_state_change, System, Machine,
}
use virtual_media.Machine.Run.{emit_event, Input, emits, expires, runs_aborted, step, run}
use virtual_media.Machine.Balance.{IsBalanced}
use virtual_media.Machine.Balance.Steps.{Ends, emit_event-Ends, run-IsBalanced}
use virtual_media.Machine.Inactivity.{Timer, is_expired, run_ticks, reaches, second, run_ticks-idle}
use virtual_media.Machine.Completion.{
  signals, insert_code, gadget_status, kind, both_orders, insert_pending, removed_pending,
  unmount_active,
}

-- A system in which all succeeds, and nothing is in the way.
abbrev pub system : System
system = record {
  legacy_enabled = true;
  multi_host = false;
  second_host = false;
  exists = λ p. false;
  is_regular_file = λ p. true;
  is_owner_writable = λ p. true;
  status_error = λ p. 0;
  create_directories_error = λ p. 0;
  permissions_error = λ p. 0;
  create_directories = λ p. true;
  remove = λ p. true;
  spawn = λ app args. true;
  mount_call = λ c. 0;
  umount = λ p. true;
  configure = λ rw info. some (pos 0);
  secret_file = some (codes "/tmp/secret");
}

-- The image is too small for its gadget.
abbrev pub small : System
small = record system { configure = λ rw info. some (negsuc 1) }

abbrev pub point : MountPoint
point = record {
  nbd_device = nbd0;
  unix_socket = codes "/run/virtual-media/nbd0.sock";
  end_point_id = codes "/nbd/0";
  timeout = none;
  blocksize = none;
  remaining_inactivity_timeout = 0;
  mode = legacy;
}

abbrev pub image : Target
image = record {
  img_url = codes "smb://host/images/a.iso";
  is_rw = false;
  mount_point = none;
  credentials = some (make_credentials (codes "admin") (codes "a,b"));
  mount_point_nfs = none;
}

abbrev new_machine : Machine
new_machine = record {
  name = codes "Slot_0";
  config = point;
  additional_info = codes "session_1";
  completion = none;
  target = none;
  state = initial;
  exit_code = negsuc 0;
  trace = [];
}

abbrev pub started : Notification
started = record { started = true; waiting = some (pos 35); aborted = 0; sent = 0 ∷ [] }

abbrev child : Option Process
child = some (record { spawned = true })

abbrev gadget : Option Gadget
gadget = some (record { status = pos 0 })

abbrev activating_machine : Machine
activating_machine = record new_machine {
  completion = some started;
  target = some image;
  state = activating child none;
}

abbrev pub active_machine : Machine
active_machine = record new_machine {
  completion = some started;
  target = some image;
  state = active child gadget;
}

-- A mount, its end by an unmount, and a second mount that the timer overtakes.
abbrev history : List Input
history =
    emits system register_dbus
    ∷ emits system (mount (some image))
    ∷ emits system (udev_state_change inserted)
    ∷ emits system unmount
    ∷ emits system subprocess_stopped
    ∷ emits system (udev_state_change removed)
    ∷ emits small (mount (some image))
    ∷ expires
    ∷ runs_aborted
    ∷ emits small (udev_state_change inserted)
    ∷ []

run-IsBalanced_example : IsBalanced (run history new_machine)
run-IsBalanced_example =
    run-IsBalanced history new_machine (tt, (refl, (tt, (tt, (tt, (tt, (refl, (tt, tt))))))))
      (record { processes = refl; gadgets = refl; mounts = refl; directories = refl })

abbrev pub ready_machine : Machine
ready_machine = record new_machine { completion = some started; state = ready none }

emit_event-Ends_example : Ends (emit_event system (mount (some image)) ready_machine)
emit_event-Ends_example =
    emit_event-Ends system (mount (some image)) ready_machine refl
      (record { processes = refl; gadgets = refl; mounts = refl; directories = refl })

abbrev entered_machine : Machine
entered_machine = record new_machine {
  completion = some started;
  target = some image;
  state = activating none none;
}

insert_pending_example :
    let s' = step (emits small (udev_state_change inserted)) activating_machine in
    let z = gadget_status small activating_machine in
    (signals s' ≡ insert_code z ∷ 0 ∷ [])
    × (kind s'.state ≡ (if insert_code z == 0 then 3 else 1))
    × (s'.target ≡ (if insert_code z == 0 then some image else none))
insert_pending_example = insert_pending small activating_machine child none started refl refl refl

removed_pending_example :
    let s' =
      step
        (emits system subprocess_stopped)
        (step (emits system (udev_state_change removed)) activating_machine) in
    (signals s' ≡ 0 ∷ 0 ∷ []) × (s'.state ≡ ready none) × (s'.target ≡ none)
removed_pending_example =
    removed_pending system system activating_machine child none started refl refl refl

unmount_active_example :
    let s' = both_orders false system system (step (emits system unmount) active_machine) in
    (signals s' ≡ 0 ∷ 0 ∷ []) × (s'.state ≡ ready none) × (s'.target ≡ none)
unmount_active_example =
    unmount_active false system system system active_machine child gadget started refl refl

-- An active state whose stats were never read.
abbrev timer : Timer
timer = record { last_access = 0; last_stats = []; remaining = 600 }

run_ticks-idle_example :
    is_expired (run_ticks 600 ((none, 700 * second) ∷ []) timer)
    ≡ reaches (0 + 600 * second) ((none, 700 * second) ∷ [])
run_ticks-idle_example = run_ticks-idle 600 ((none, 700 * second) ∷ []) timer (omega arith) (tt, tt)
