-- ===== src/UsbGadget/Eject.antt =====
-- The child that `UsbGadget::configure` of src/system.hpp starts to watch for an eject by the host.
use virtual_media.Base.{
  ℕ, ◌-◌, ◌≡◌, refl, Bool, true, false, ◌||◌, ◌&&◌, Option, none, some, List, [], ◌∷◌, ◌++◌, Text,
  codes, text_eq, if◌then◌else◌, ℤ, pos, negsuc, is_negative, ◌==◌, arith, join_path,
}
use virtual_media.Config.{show_int, show_int-digit}
use virtual_media.Url.{is_digit, gadget_dir_prefix}
use virtual_media.Session.{unmount_call}

-- The first digit of a path, -1 without one.
first_digit : Text → ℤ
unfolding is_digit
first_digit [] = negsuc 0
first_digit (c ∷ s) = let rest = first_digit s in if is_digit c then pos (c - b'0') else rest

-- `eject_status`: whether the file is empty, and its path.
unfoldable pub eject_status : Bool → Text → ℤ
unfolding first_digit
eject_status empty path = if empty then first_digit path else negsuc 0

is_proxy_slot : ℤ → Bool
is_proxy_slot (pos n) = n == 0 || n == 1
is_proxy_slot (negsuc n) = false

-- The object and the interface that the child calls, below the base path of the service.
unfoldable pub eject_call : Text → ℤ → Text × Text
unfolding is_proxy_slot show_int
eject_call base_path slot =
    if is_proxy_slot slot
    then (
      codes "/xyz/openbmc_project/" ++ (base_path ++ (codes "/Proxy/Slot_" ++ show_int slot)),
      codes "xyz.openbmc_project.VirtualMedia.Proxy",
    )
    else (
      codes "/xyz/openbmc_project/" ++ (base_path ++ (codes "/Legacy/Slot_" ++ show_int slot)),
      codes "xyz.openbmc_project.VirtualMedia.Legacy",
    )

-- The loop of the child: in each round, whether the gadget is still there and whether its file is
-- empty.
unfoldable pub watch_eject : Text → Text → List (Bool × Bool) → Option (Text × Text)
unfolding eject_status eject_call
watch_eject path base_path [] = none
watch_eject path base_path ((there, empty) ∷ rounds) =
    let rest = watch_eject path base_path rounds in
    if there
    then (if is_negative (eject_status empty path)
        then rest
        else some (eject_call base_path (eject_status empty path)))
    else none

-- The file of the gadget of a slot that has one digit, in the first or the second service.
abbrev pub file_of : Bool → ℕ → Text
file_of second d =
    join_path (gadget_dir_prefix second ++ (codes "Slot_" ++ d ∷ []))
      (codes "functions/mass_storage.usb0/lun.0/file")

-- A round in which the file is empty comes before the gadget is gone.
abbrev pub is_ejected : List (Bool × Bool) → Bool
is_ejected [] = false
is_ejected ((there, empty) ∷ rounds) = there && (empty || is_ejected rounds)

eject_status-file_of :
    (second empty : Bool) (d : ℕ)
    → is_digit d ≡ true
    → eject_status empty (file_of second d)
      ≡ (if empty then (if second then pos 1 else pos (d - b'0')) else negsuc 0)
unfolding eject_status first_digit gadget_dir_prefix is_digit join_path
eject_status-file_of true true d e = refl
eject_status-file_of true false d e = refl
eject_status-file_of false true d e = rw e refl
eject_status-file_of false false d e = refl

eject_call-unmount_call :
    (base_path : Text) (d : ℕ)
    → is_digit d ≡ true
    → eject_call base_path (pos (d - b'0')) ≡ unmount_call base_path (codes "Slot_" ++ d ∷ [])
unfolding eject_call unmount_call is_digit show_int is_proxy_slot text_eq
eject_call-unmount_call base_path d e = ground (arith, show_int-digit (d - b'0'))

-- In the first of two services the child of a slot, whose number is one digit, unmounts that slot,
-- as the end of its session would, and in the second, whose path has a digit before the name, it
-- unmounts slot 1 instead; it does so in the first round in which the file is empty, and not at all
-- once the gadget is gone.
pub watch_eject-unmount_call :
    (second : Bool) (d : ℕ) (base_path : Text) (rounds : List (Bool × Bool))
    → is_digit d ≡ true
    → watch_eject (file_of second d) base_path rounds ≡ (
        if is_ejected rounds
        then some (unmount_call base_path (codes "Slot_" ++ (if second then b'1' else d) ∷ []))
        else none)
unfolding watch_eject
watch_eject-unmount_call second d base_path [] e = refl
watch_eject-unmount_call second d base_path ((there, empty) ∷ rounds) e = ground (
  arith,
  watch_eject-unmount_call second d base_path rounds e,
  eject_status-file_of second empty d e,
  eject_call-unmount_call base_path d e,
  eject_call-unmount_call base_path 49 refl,
)
