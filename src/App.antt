-- ===== src/App.antt =====
-- The service as a whole: `App` of src/main.cpp, and the bodies of the D-Bus methods `Mount` and
-- `Unmount` of one mount point, which src/state/initial_state.hpp registers.
pub mod Lifecycle
pub mod Start
pub mod Sound
pub mod Callbacks
pub mod Machines
pub mod Independence
pub mod Turns
pub mod Methods
use virtual_media.Base.{
  Bool, true, false, ◌&&◌, Option, none, some, List, [], ◌∷◌, Text, codes, find, is_some, text_eq,
  if◌then◌else◌, Exception, Result, ok, err, negsuc,
}
use virtual_media.Config.{MountPoint, MountPoints}
use virtual_media.Credentials.{Credentials, make_credentials, read_secret}
use virtual_media.Device.{NbdDevice, StateChange}
use virtual_media.Local.{Slots}
use virtual_media.Machine.{
  Target, State, initial, ready, activating, active, deactivating, register_dbus, mount, unmount,
  System, Machine, Outcome, done, threw, M,
}
use virtual_media.Machine.Run.{Input, step, emit_event, emit_udev_state_change}

-- Whether the configuration is that of the second of two services.
unfoldable pub is_second_service : Bool → Text → Bool
is_second_service multi_host config_path =
    multi_host && is_some (find (codes "virtual-media1") config_path)

-- The name of the service, the path of its objects and the base path.
unfoldable pub service_names : Bool → Text → Text × Text × Text
unfolding is_second_service
service_names multi_host config_path =
    if is_second_service multi_host config_path
    then (
      codes "xyz.openbmc_project.VirtualMedia1",
      codes "/xyz/openbmc_project/VirtualMedia1",
      codes "VirtualMedia1",
    )
    else (
      codes "xyz.openbmc_project.VirtualMedia",
      codes "/xyz/openbmc_project/VirtualMedia",
      codes "VirtualMedia",
    )

unfoldable pub new_machine : Text → MountPoint → Machine
new_machine name point = record {
  name = name;
  config = point;
  additional_info = [];
  completion = none;
  target = none;
  state = initial;
  exit_code = negsuc 0;
  trace = [];
}

unfoldable pub prepend : Text → Outcome Bool → Result Slots → Result Slots
prepend name (threw e s) rest = err e
prepend name (done b s) (err e) = err e
prepend name (done b s) (ok ms) = ok ((name, s) ∷ ms)

-- The machines of the mount points, each with its objects on D-Bus; an exception ends the service.
unfoldable pub start_machines : System → List (Text × MountPoint) → Result Slots
unfolding prepend new_machine
start_machines sys [] = ok []
start_machines sys ((name, point) ∷ points) =
    prepend name (emit_event sys register_dbus (new_machine name point)) (start_machines sys points)

-- The callback of the device monitor: every machine is told of the change, and an exception ends
-- the service before the next one is.
unfoldable pub dispatch : System → NbdDevice → StateChange → Slots → Slots × Option Exception
dispatch sys dev change [] = ([], none)
dispatch sys dev change ((name, s) ∷ ms) = elim (emit_udev_state_change sys dev change s) [
  | threw e t ↦ ((name, t) ∷ ms, some e)
  | done b t ↦ let rest = dispatch sys dev change ms in ((name, t) ∷ rest.0, rest.1)
]

-- `getState().get_if<ReadyState>()`.
unfoldable pub is_ready_state : State → Bool
is_ready_state (ready e) = true
is_ready_state initial = false
is_ready_state (activating p g) = false
is_ready_state (active p g) = false
is_ready_state (deactivating p g u b) = false

-- The information of the client is kept by a machine that is ready.
unfoldable pub take_info : Text → Machine → Machine
unfolding is_ready_state
take_info info s = if is_ready_state s.state then record s { additional_info = info } else s

-- What happens to the machine of a mount point in one go: an event or a handler of its timer, or
-- the part of a call of `Mount` up to its first wait.
pub data Turn : Type 0 where
  takes : Input → Turn
  begins : Text → Turn

unfoldable pub turn : Turn → Machine → Machine
unfolding take_info
turn (takes i) s = step i s
turn (begins info) s = take_info info s

unfoldable pub turns : List Turn → Machine → Machine
unfolding turn
turns [] s = s
turns (t ∷ ts) s = turns ts (turn t s)

-- The extra data of a call of `Mount`: none, or a pipe, with what happens to the machine while the
-- coroutine waits for the pipe and what the read gives it, an exception where it fails, as it does
-- at the end of the file.
pub data Extra : Type 0 where
  no_secret : Extra
  secret : List Turn → Result Text → Extra

-- The machine when the coroutine goes on.
unfoldable pub waits : Extra → Machine → Machine
unfolding turns
waits no_secret s = s
waits (secret ts read) s = turns ts s

-- The credentials of the pipe, if there is one.
unfoldable pub receive_credentials : Extra → Result (Option Credentials)
receive_credentials no_secret = ok none
receive_credentials (secret ts (err e)) = err e
receive_credentials (secret ts (ok read)) = elim (read_secret read) [
  | err e ↦ err e
  | ok (user, pass) ↦ ok (some (make_credentials user pass))
]

-- `Mount` of a legacy mount point: the URL, whether it is to be written, the extra data, and the
-- information of the client.
unfoldable pub legacy_mount : System → Text → Bool → Extra → Text → M Bool
unfolding waits
legacy_mount sys url is_rw extra info s = elim (receive_credentials extra) [
  | err e ↦ threw e (waits extra (take_info info s))
  | ok credentials ↦
      emit_event sys
        (mount (
          some (record {
            img_url = url;
            is_rw = is_rw;
            mount_point = none;
            credentials = credentials;
            mount_point_nfs = none;
          })))
        (waits extra (take_info info s))
]

-- `Mount` of a proxy mount point.
unfoldable pub proxy_mount : System → Text → M Bool
proxy_mount sys info s = emit_event sys (mount none) (take_info info s)

-- `Unmount`.
unfoldable pub unmount_method : System → M Bool
unmount_method sys = emit_event sys unmount

-- What the event loop calls: the callback of the device monitor, or a turn of one machine.
pub data Callback : Type 0 where
  changes : System → NbdDevice → StateChange → Callback
  has_turn : Text → Turn → Callback

turn_of : Text → Turn → Slots → Slots
unfolding turn
turn_of name t [] = []
turn_of name t ((k, s) ∷ ms) =
    let rest = turn_of name t ms in if text_eq k name then (k, turn t s) ∷ rest else (k, s) ∷ rest

unfoldable pub call_back : Callback → Slots → Slots × Option Exception
unfolding turn_of
call_back (changes sys dev change) ms = dispatch sys dev change ms
call_back (has_turn name t) ms = (turn_of name t ms, none)

-- Callbacks one after another. An exception of a D-Bus method is the answer of the call; one of the
-- device monitor's callback ends the service. A turn that throws elsewhere is followed by the
-- others all the same, so that a history that ends with it is one of them.
unfoldable pub serve : List Callback → Slots → Slots × Option Exception
unfolding call_back
serve [] ms = (ms, none)
serve (c ∷ calls) ms =
    let first = call_back c ms in elim first.1 [ some e ↦ first | none ↦ serve calls first.0 ]
