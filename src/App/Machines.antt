-- ===== src/App/Machines.antt =====
-- The machines that the service starts (src/main.cpp).
use virtual_media.Base.{refl, Bool, List, [], ◌∷◌, Text, Result, ok, err}
use virtual_media.Config.{MountPoint}
use virtual_media.Local.{Slots}
use virtual_media.Local.Slots.{AllBalanced}
use virtual_media.Machine.{register_dbus, System, Outcome, done, threw}
use virtual_media.Machine.Run.{emit_event}
use virtual_media.Machine.Balance.{IsBalanced}
use virtual_media.Machine.Balance.Steps.{Ends, emit_event-Ends}
use virtual_media.App.{new_machine, prepend, start_machines}

pub new_machine-IsBalanced :
    (name : Text) (point : MountPoint) → IsBalanced (new_machine name point)
unfolding new_machine
new_machine-IsBalanced name point = record {
  processes = refl;
  gadgets = refl;
  mounts = refl;
  directories = refl;
}

-- Every machine that is started is in balance.
abbrev pub Started : Result Slots → Type 0
Started (err e) = Unit
Started (ok ms) = AllBalanced ms

prepend-Started :
    (name : Text) (o : Outcome Bool) (r : Result Slots)
    → Ends o
    → Started r
    → Started (prepend name o r)
unfolding prepend
prepend-Started name (threw e s) r h k = tt
prepend-Started name (done b s) (err e) h k = tt
prepend-Started name (done b s) (ok ms) h k = (h.1, k)

pub start_machines-Started :
    (sys : System) (points : List (Text × MountPoint)) → Started (start_machines sys points)
unfolding start_machines
start_machines-Started sys [] = tt
start_machines-Started sys ((name, point) ∷ points) =
    prepend-Started name (emit_event sys register_dbus (new_machine name point))
      (start_machines sys points)
      (emit_event-Ends sys register_dbus (new_machine name point) tt
        (new_machine-IsBalanced name point))
      (start_machines-Started sys points)
