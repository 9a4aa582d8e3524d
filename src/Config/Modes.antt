-- ===== src/Config/Modes.antt =====
-- Which mount points a configuration can hold (src/configuration.hpp).
use virtual_media.Base.{
  ℤ, ◌≡◌, Bool, true, Option, none, some, [], ◌∷◌, Text, codes, text_eq, arith, ok, All,
  Option-cases, Bool-cases, inl, inr, ◌⊎◌,
}
use virtual_media.Config.{
  proxy, legacy, MountPoint, Json, Fields, end, field, read_mount_point, MountPoints,
  set_mount_point, read_mount_points, read_items, setup_variables, items, get_mount_point,
  read_mode, ◌then_read◌,
}

-- A mount point is in proxy mode, or in legacy mode where that is built in.
abbrev pub IsSupported : Bool → MountPoint → Type 0
IsSupported legacy_enabled mp = (mp.mode ≡ proxy) ⊎ ((mp.mode ≡ legacy) × (legacy_enabled ≡ true))

read_mode-IsSupported :
    (b : Bool) (j : Json) (mp mp' : MountPoint) → read_mode b j mp ≡ some mp' → IsSupported b mp'
unfolding read_mode
read_mode-IsSupported b j mp mp' h = ground arith

read_last-IsSupported :
    (b : Bool) (j : Json) (o : Option MountPoint) (mp : MountPoint)
    → (o then_read read_mode b j) ≡ some mp
    → IsSupported b mp
read_last-IsSupported b j none mp h = cc
read_last-IsSupported b j (some m) mp h = read_mode-IsSupported b j m mp h

read_mount_point-IsSupported :
    (b : Bool) (j : Json) (mp : MountPoint) → read_mount_point b j ≡ some mp → IsSupported b mp
unfolding read_mount_point
read_mount_point-IsSupported b j mp h = read_last-IsSupported b j _ mp h

abbrev AllSupported : Bool → MountPoints → Type 0
AllSupported b = All (λ e. IsSupported b e.1)

set_mount_point-AllSupported :
    (b : Bool) (k : Text) (mp : MountPoint) (ms : MountPoints)
    → IsSupported b mp
    → AllSupported b ms
    → AllSupported b (set_mount_point k mp ms)
unfolding set_mount_point
set_mount_point-AllSupported b k mp [] h a = (h, tt)
set_mount_point-AllSupported b k mp ((j, v) ∷ ms) h a = elim (Bool-cases (text_eq j k)) [
  | inl e ↦ rw e (h, a.1)
  | inr e ↦ rw e (a.0, set_mount_point-AllSupported b k mp ms h a.1)
]

read_mount_points-AllSupported :
    (b : Bool) (fs : Fields) (ms : MountPoints)
    → AllSupported b ms
    → AllSupported b (read_mount_points b fs ms)
unfolding read_mount_points
read_mount_points-AllSupported b end ms a = a
read_mount_points-AllSupported b (field k j fs) ms a = elim (Option-cases (read_mount_point b j)) [
  | inl e ↦ rw e (read_mount_points-AllSupported b fs ms a)
  | inr (mp, e) ↦ rw e (
      read_mount_points-AllSupported b fs (set_mount_point k mp ms)
        (set_mount_point-AllSupported b k mp ms (read_mount_point-IsSupported b j mp e) a))
]

read_items-AllSupported :
    (b : Bool) (fs : Fields) (ms : MountPoints)
    → AllSupported b ms
    → AllSupported b (read_items b fs ms)
unfolding read_items
read_items-AllSupported b end ms a = a
read_items-AllSupported b (field k j fs) ms a =
    elim (Bool-cases (text_eq k (codes "MountPoints"))) [
      | inl e ↦ rw e (
          read_items-AllSupported b fs (read_mount_points b (items j) ms)
            (read_mount_points-AllSupported b (items j) ms a))
      | inr e ↦ rw e (read_items-AllSupported b fs ms a)
    ]

get_mount_point-All :
    (b : Bool) (k : Text) (ms : MountPoints) (mp : MountPoint)
    → AllSupported b ms
    → get_mount_point k ms ≡ some mp
    → IsSupported b mp
unfolding get_mount_point
get_mount_point-All b k [] mp a h = cc
get_mount_point-All b k ((j, v) ∷ ms) mp a h = elim (Bool-cases (text_eq j k)) [
  | inl e ↦ ground arith
  | inr e ↦ get_mount_point-All b k ms mp a.1 (ground arith)
]

-- Every mount point that a configuration yields is in proxy mode, or in legacy mode where the
-- build has it: no document yields one in local mode.
pub get_mount_point-setup_variables :
    (b : Bool) (j : Json) (seconds : ℤ) (ms : MountPoints) (k : Text) (mp : MountPoint)
    → setup_variables b j ≡ ok (seconds, ms)
    → get_mount_point k ms ≡ some mp
    → IsSupported b mp
unfolding setup_variables
get_mount_point-setup_variables b j seconds ms k mp h g =
    get_mount_point-All b k ms mp (ground (arith, read_items-AllSupported b (items j) [] tt)) g
