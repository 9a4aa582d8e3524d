-- ===== src/Local/Registry.antt =====
-- `InitialState::addGlobalLocalMountService` of src/state/initial_state.hpp: every mount point that
-- is registered is kept for the service for local files, which is made once.
use virtual_media.Base.{
  ◌≡◌, ◌∙◌, refl, Bool, true, false, Option, none, some, List, [], ◌∷◌, ◌++◌, Text, codes, text_eq,
  text_eq_refl, Bool-cases, inl, inr, if◌then◌else◌,
}
use virtual_media.Machine.{Machine}
use virtual_media.Local.{Slots, find_machine}

-- `allMountPoints`, `globalLocalServiceCreated`, and the objects that were made.
pub record Registry : Type 0 where
  pub all_mount_points : Slots
  pub is_created : Bool
  pub services : List Text

-- The path of the object, by the base path of the second of two services.
unfoldable pub local_service_path : Option Text → Text
local_service_path none = codes "/xyz/openbmc_project/VirtualMedia/Local"
local_service_path (some base) = codes "/xyz/openbmc_project/" ++ (base ++ codes "/Local")

-- `allMountPoints[name] = &machine`; the order of the keys is left out.
unfoldable pub put_machine : Text → Machine → Slots → Slots
put_machine k t [] = (k, t) ∷ []
put_machine k t ((j, s) ∷ ms) =
    let rest = put_machine k t ms in if text_eq j k then (j, t) ∷ ms else (j, s) ∷ rest

unfoldable pub add_global_local_mount_service : Option Text → Text → Machine → Registry → Registry
unfolding put_machine local_service_path
add_global_local_mount_service base name s r = record {
  all_mount_points = put_machine name s r.all_mount_points;
  is_created = true;
  services = if r.is_created then r.services else local_service_path base ∷ r.services;
}

unfoldable pub register_all : Option Text → Slots → Registry → Registry
register_all base [] r = r
register_all base ((name, s) ∷ ms) r =
    register_all base ms (add_global_local_mount_service base name s r)

abbrev pub none_registered : Registry
none_registered = record { all_mount_points = []; is_created = false; services = [] }

put_machine-find_machine :
    (k : Text) (t : Machine) (ms : Slots) → find_machine k (put_machine k t ms) ≡ some t
unfolding find_machine put_machine
put_machine-find_machine k t [] = rw (text_eq_refl k) refl
put_machine-find_machine k t ((j, s) ∷ ms) = elim (Bool-cases (text_eq j k)) [
  | inl e ↦ rw (e, put_machine) (rw (e, find_machine) refl)
  | inr e ↦ rw (e, put_machine) (rw (e, find_machine) (put_machine-find_machine k t ms))
]

register_all-services :
    (base : Option Text) (ms : Slots) (r : Registry)
    → r.is_created ≡ true
    → (register_all base ms r).services ≡ r.services
unfolding register_all add_global_local_mount_service
register_all-services base [] r h = refl
register_all-services base ((name, s) ∷ ms) r h =
    register_all-services base ms (add_global_local_mount_service base name s r) refl ∙ rw h refl

-- The service for local files is made once, however many mount points register.
pub register_all-services_once :
    (base : Option Text) (name : Text) (s : Machine) (ms : Slots)
    → (register_all base ((name, s) ∷ ms) none_registered).services ≡ local_service_path base ∷ []
unfolding register_all add_global_local_mount_service
register_all-services_once base name s ms =
    register_all-services base ms (add_global_local_mount_service base name s none_registered) refl
