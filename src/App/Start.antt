-- ===== src/App/Start.antt =====
-- The order of the start of the service: `main`, `App::App` and `App::run` of src/main.cpp.
use virtual_media.Base.{Bool, none, some, Text, codes, if◌then◌else◌, ok, err, ℤ}
use virtual_media.Config.{MountPoints}
use virtual_media.Config.Load.{Loading, loaded, terminated, exit_early}
use virtual_media.Device.Open.{Udev, made, system_error, make_monitor}
use virtual_media.Local.{Slots}
use virtual_media.Retry.{Disk, Interface}
use virtual_media.Retry.Start.{add_interfaces}
use virtual_media.Machine.{System}
use virtual_media.App.{is_second_service, service_names, start_machines}

-- How the start ends: with an exit code, by an exception that nothing handles, or with the service
-- that runs, its machines and its reconnect settings.
pub data Start : Type 0 where
  exits : ℤ → Start
  aborts : Start
  runs : Text × Text × Text → Slots → Interface → Start

-- The object path of the reconnect settings.
unfoldable pub settings_path : Bool → Text → Text
settings_path multi_host config_path =
    if is_second_service multi_host config_path
    then codes "/xyz/openbmc_project/VirtualMedia1"
    else codes "/xyz/openbmc_project/VirtualMedia"

-- The constructor of `App` and `run`, up to the event loop.
unfoldable pub run_app : Udev → System → Disk → Interface → Text × Text × Text → MountPoints → Start
run_app udev sys disk s names points = elim (make_monitor udev) [
  | system_error e m ↦ aborts
  | made ↦ elim (start_machines sys points) [
    | err e ↦ aborts
    | ok machines ↦ elim (add_interfaces disk s) [ err e ↦ aborts | ok t ↦ runs names machines t ]
  ]
]

-- `main`: the configuration, the directory of the sockets, and the service.
unfoldable pub main : Bool → Text → Loading → Bool → Udev → System → Disk → Interface → Start
unfolding run_app
main multi_host path terminated directory_made udev sys disk s = aborts
main multi_host path (loaded c) directory_made udev sys disk s =
    elim (exit_early c directory_made) [
      | some code ↦ exits code
      | none ↦ elim c.variables [
        | none ↦ aborts
        | some v ↦ run_app udev sys disk s (service_names multi_host path) v.1
      ]
    ]
