-- ===== src/App/Sound.antt =====
-- What holds once the service runs, and how else its start ends (src/main.cpp).
use virtual_media.Base.{
  ◌≡◌, Bool, true, false, [], ◌∷◌, Text, Result, ok, err, ℤ, negsuc, Option, ◌⊎◌, Exception,
}
use virtual_media.Config.{Json, MountPoints}
use virtual_media.Config.Load.{loaded, terminated, load_configuration, invalid, IsConfigured}
use virtual_media.Device.Open.{Udev, make_monitor, is_made}
use virtual_media.Local.{Slots}
use virtual_media.Local.Slots.{AllBalanced}
use virtual_media.Machine.{register_dbus, System, Outcome, done, threw}
use virtual_media.Machine.Run.{emit_event}
use virtual_media.Machine.Protocol.Phases.{IsRegistered}
use virtual_media.Retry.{Disk, Interface}
use virtual_media.Retry.Start.{add_interfaces}
use virtual_media.App.{new_machine, prepend, service_names, start_machines}
use virtual_media.App.Lifecycle.{Registers, register-Registers}
use virtual_media.App.Start.{Start, exits, aborts, runs}

abbrev pub AllRegistered : Slots → Type 0
AllRegistered [] = Unit
AllRegistered ((name, s) ∷ ms) = IsRegistered s × AllRegistered ms

abbrev pub StartsRegistered : Result Slots → Type 0
StartsRegistered (err e) = Unit
StartsRegistered (ok ms) = AllRegistered ms

prepend-StartsRegistered :
    (name : Text) (o : Outcome Bool) (r : Result Slots)
    → Registers o
    → StartsRegistered r
    → StartsRegistered (prepend name o r)
unfolding prepend
prepend-StartsRegistered name (threw e s) r h k = tt
prepend-StartsRegistered name (done b s) (err e) h k = tt
prepend-StartsRegistered name (done b s) (ok ms) h k = (h, k)

pub start_machines-StartsRegistered :
    (sys : System) (points : MountPoints) → StartsRegistered (start_machines sys points)
unfolding start_machines
start_machines-StartsRegistered sys [] = tt
start_machines-StartsRegistered sys ((name, point) ∷ points) =
    prepend-StartsRegistered name (emit_event sys register_dbus (new_machine name point))
      (start_machines sys points) (register-Registers sys name point)
      (start_machines-StartsRegistered sys points)

-- Starting with these answers.
module _ (multi_host legacy_enabled directory_made : Bool) (path : Text)
    (file : Option (Result Json)) (udev : Udev) (sys : System) (disk : Disk) (s : Interface) where
  -- Libudev is missing, a machine cannot register, or the reconnect settings cannot be read.
  abbrev pub HasFailed : ℤ × MountPoints → Type 0
  HasFailed v =
      (is_made (make_monitor udev) ≡ false)
      ⊎ ((e : Exception) × (start_machines sys v.1 ≡ err e))
      ⊎ ((e : Exception) × (add_interfaces disk s ≡ err e))

  -- What each end of the start tells: -1 is the code for an invalid configuration and for a
  -- directory that cannot be made; an exception comes from the configuration, or from behind both
  -- guards; and a service that runs has come through every part.
  abbrev pub IsSound : Start → Type 0
  IsSound (exits code) =
      (code ≡ negsuc 0)
      × ((load_configuration legacy_enabled file ≡ loaded invalid)
          ⊎ ((directory_made ≡ false) × (v : ℤ × MountPoints) × IsConfigured legacy_enabled file v))
  IsSound aborts =
      (load_configuration legacy_enabled file ≡ terminated)
      ⊎ ((directory_made ≡ true)
          × (v : ℤ × MountPoints) × IsConfigured legacy_enabled file v
          × HasFailed v)
  IsSound (runs names machines t) =
      (directory_made ≡ true)
      × (names ≡ service_names multi_host path)
      × (is_made (make_monitor udev) ≡ true)
      × (add_interfaces disk s ≡ ok t)
      × AllRegistered machines
      × AllBalanced machines
      × (v : ℤ × MountPoints) × IsConfigured legacy_enabled file v
      × (start_machines sys v.1 ≡ ok machines)
