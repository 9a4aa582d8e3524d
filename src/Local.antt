-- ===== src/Local.antt =====
-- The service for local image files that src/state/initial_state.hpp registers once: `Mount`,
-- `Unmount`, `GetCurrentMount` and `ListAvailableSlots` over the machines of all slots, and
-- `detectImageType` of src/system.hpp.
pub mod Slots
pub mod Registry
use virtual_media.Base.{
  ℕ, Bool, true, false, not, ◌&&◌, Option, none, some, List, [], ◌∷◌, ◌++◌, Text, codes, text_eq,
  if◌then◌else◌, ◌==◌, Exception, sdbus, Result, ok, err, errc_ebusy, errc_einval, errc_enoent,
  errc_eperm, ℤ, pos, negsuc,
}
use virtual_media.Url.{is_local_file}
use virtual_media.Machine.{
  Target, State, initial, ready, activating, active, deactivating, Event, mount, unmount, System,
  Machine, Outcome, done, threw,
}
use virtual_media.Machine.Run.{emit_event}

-- `allMountPoints`.
abbrev pub Slots : Type 0
Slots = List (Text × Machine)

abbrev pub slot_order : List Text
slot_order = codes "Slot_0" ∷ codes "Slot_1" ∷ codes "Slot_2" ∷ codes "Slot_3" ∷ []

unfoldable pub find_machine : Text → Slots → Option Machine
find_machine k [] = none
find_machine k ((j, s) ∷ ms) = if text_eq j k then some s else find_machine k ms

unfoldable pub set_machine : Text → Machine → Slots → Slots
set_machine k t [] = []
set_machine k t ((j, s) ∷ ms) = if text_eq j k then (j, t) ∷ ms else (j, s) ∷ set_machine k t ms

-- The path of a local file that a machine has as its target, if the file is there.
local_path : System → Option Target → Option Text
local_path sys none = none
local_path sys (some t) =
    if is_local_file t.img_url && sys.exists t.img_url then some t.img_url else none

slot_path : System → Option Machine → Option Text
unfolding local_path
slot_path sys none = none
slot_path sys (some s) = local_path sys s.target

-- The loop over the slots that looks for a local mount: its slot and path.
unfoldable pub find_mount : System → List Text → Slots → Option (Text × Text)
unfolding find_machine slot_path
find_mount sys [] ms = none
find_mount sys (k ∷ ks) ms = elim (slot_path sys (find_machine k ms)) [
  | some path ↦ some (k, path)
  | none ↦ find_mount sys ks ms
]

is_ready : State → Bool
is_ready (ready e) = true
is_ready _ = false

has_target : Option Target → Bool
has_target none = false
has_target (some t) = true

unfoldable pub is_available : Option Machine → Bool
unfolding is_ready has_target
is_available none = false
is_available (some s) = is_ready s.state && not (has_target s.target)

-- The slots of an order that are available: `ListAvailableSlots`.
unfoldable pub list_available : List Text → Slots → List Text
unfolding find_machine is_available
list_available [] ms = []
list_available (k ∷ ks) ms =
    let rest = list_available ks ms in if is_available (find_machine k ms) then k ∷ rest else rest

-- `GetCurrentMount`.
unfoldable pub get_current_mount : System → Slots → Text
unfolding find_mount
get_current_mount sys ms = elim (find_mount sys slot_order ms) [
  | none ↦ []
  | some (k, path) ↦ k ++ b':' ∷ path
]

-- `detectImageType` on the five bytes that stand from 0x8001 on; `none` if they cannot be read.
unfoldable pub detect_image_type : Option Text → ℤ
detect_image_type none = negsuc 0
detect_image_type (some bytes) = if text_eq bytes (codes "CD001") then pos 1 else pos 0

is_cd : ℤ → Bool
is_cd (pos n) = n == 1
is_cd (negsuc n) = false

-- The tests that `Mount` makes on the path.
unfoldable pub validate : System → (Text → Option Text) → Text → Bool → Result (Unit {0})
unfolding detect_image_type is_cd
validate sys bytes path is_rw =
    if not (is_local_file path)
    then err (sdbus errc_einval)
    else if not (sys.exists path)
    then err (sdbus errc_enoent)
    else if not (sys.is_regular_file path)
    then err (sdbus errc_einval)
    else if is_cd (detect_image_type (bytes path)) && is_rw
    then err (sdbus errc_eperm)
    else ok tt

local_target : Text → Bool → Target
local_target path is_rw = record {
  img_url = path;
  is_rw = is_rw;
  mount_point = none;
  credentials = none;
  mount_point_nfs = none;
}

-- An event for the machine of a slot, and the answer to the client.
unfoldable pub emit_at :
    {A : Type 0} → System → Text → Event → A → Machine → Slots → Slots × Result A
emit_at sys k e a s ms = elim (emit_event sys e s) [
  | done b t ↦ (set_machine k t ms, ok a)
  | threw x t ↦ (set_machine k t ms, err x)
]

-- The mount on the machine of a slot.
unfoldable pub mount_at : System → Text → Bool → Text → Option Machine → Slots → Slots × Result Text
unfolding local_target emit_at
mount_at sys path is_rw k none ms = (ms, err (sdbus errc_ebusy))
mount_at sys path is_rw k (some s) ms =
    emit_at sys k (mount (some (local_target path is_rw))) k
      (record s { additional_info = codes "LMEDIA" }) ms

-- The loop that looks for an available slot.
unfoldable pub mount_first : System → Text → Bool → List Text → Slots → Slots × Result Text
unfolding mount_at
mount_first sys path is_rw [] ms = (ms, err (sdbus errc_ebusy))
mount_first sys path is_rw (k ∷ ks) ms =
    let rest = mount_first sys path is_rw ks ms in
    if is_available (find_machine k ms)
    then mount_at sys path is_rw k (find_machine k ms) ms
    else rest

-- `Mount`.
unfoldable pub local_mount :
    System → (Text → Option Text) → Text → Bool → Slots → Slots × Result Text
local_mount sys bytes path is_rw ms = elim (find_mount sys slot_order ms) [
  | some m ↦ (ms, err (sdbus errc_ebusy))
  | none ↦ elim (validate sys bytes path is_rw) [
    | err e ↦ (ms, err e)
    | ok u ↦ mount_first sys path is_rw slot_order ms
  ]
]

unfoldable pub unmount_at : System → Text → Option Machine → Slots → Slots × Result Bool
unfolding emit_at
unmount_at sys k none ms = (ms, ok false)
unmount_at sys k (some s) ms = emit_at sys k unmount true s ms

-- `Unmount`.
unfoldable pub local_unmount : System → Slots → Slots × Result Bool
unfolding unmount_at
local_unmount sys ms = elim (find_mount sys slot_order ms) [
  | none ↦ (ms, ok false)
  | some (k, path) ↦ unmount_at sys k (find_machine k ms) ms
]
