-- ===== src/UsbGadget/Configure.antt =====
-- `UsbGadget::configure` of src/system.hpp.
use virtual_media.Base.{
  ℕ, Bool, true, false, ◌&&◌, ◌||◌, not, Option, none, some, List, [], ◌∷◌, Text, codes, text_eq,
  if◌then◌else◌, ltb, ◌==◌, Exception, invalid_argument, out_of_range, runtime_error,
  filesystem_error, type_error, undefined, sdbus, resource, ℤ, pos, negsuc, is_negative, pos_part,
  starts_with, ok, err,
}
use virtual_media.Device.{StateChange, inserted, removed, not_monitored}
use virtual_media.Local.{detect_image_type}
use virtual_media.Url.{extract_slot_number}
use virtual_media.UsbGadget.{
  Host, Saved, Globals, Outcome, done, returned, threw, Statement, remove_directory, start_monitor,
  watch_eject, drop_cache, ◌>>=◌, ◌>>◌, pure, return_with, throw, act,
}
use virtual_media.UsbGadget.Statements.{
  write, gadget_dir, func_mass_storage_dir, strings_dir, config_dir, mass_storage_dir,
  config_strings_dir, lun_file, udc_file, prepare, min_image_size, image_size, usb_vmedia_name,
  shares_path, creds_at,
}
use virtual_media.UsbGadget.Registration.{register, unregister}
use virtual_media.UsbGadget.Ports.{bind_port}

is_cd_image : ℤ → Bool
is_cd_image (pos n) = n == 1
is_cd_image (negsuc n) = false

-- The status that stands for an image that is too small.
abbrev pub too_small : ℤ
too_small = negsuc 1

unfoldable pub check_size : ℕ → Statement (Unit {0})
check_size n = if ltb n min_image_size then return_with too_small else pure tt

-- The image, which is too small below 600 KB, becomes the file of the gadget.
unfoldable pub attach_image : Host → Text → Text → Statement (Unit {0})
unfolding is_cd_image detect_image_type write image_size check_size usb_vmedia_name
attach_image h name path =
    image_size (h.block_file path)
    >>= check_size
    >> write h (lun_file h name (codes "cdrom"))
        (if is_cd_image (detect_image_type (h.cd_bytes path)) then codes "1" else codes "0")
    >> write h (lun_file h name (codes "file")) path
    >> write h (lun_file h name (codes "inquiry_string")) (usb_vmedia_name name)

-- The slot number, without which the function returns `false`.
unfoldable pub slot_number : Text → Statement ℕ
slot_number name = elim (extract_slot_number name) [
  | err e ↦ throw e
  | ok n ↦ if is_negative n then return_with (pos 0) else pure (pos_part n)
]

-- Whether the mount of a slot gets a thread that monitors it.
unfoldable pub needs_monitor : Option Saved → Globals → Bool
unfolding shares_path
needs_monitor none g = false
needs_monitor (some c) g =
    not (starts_with c.url (codes "https://")) && (not (shares_path g) || g.is_reconnecting)

unfoldable pub monitor_mount : Text → ℕ → Statement (Unit {0})
unfolding needs_monitor creds_at
monitor_mount name slot g =
    if (text_eq name (codes "Slot_2") || text_eq name (codes "Slot_3"))
      && needs_monitor (creds_at slot g) g
    then act (start_monitor name) (record g { is_reconnecting = false })
    else pure tt g

-- The body of the `try`, for an inserted device, up to the choice of a port.
unfoldable pub set_up : Host → Text → Text → Bool → Text → Statement (Unit {0})
set_up h name path is_rw info =
    prepare h name is_rw
    >> attach_image h name path
    >> register h name info
    >> (slot_number name >>= monitor_mount name)
    >> act (watch_eject (lun_file h name (codes "file")))
    >> act (drop_cache path)

-- The body of the `try`, for an inserted device.
unfoldable pub configure_inserted : Host → Text → Text → Bool → Text → Statement (Unit {0})
configure_inserted h name path is_rw info = set_up h name path is_rw info >> bind_port h name

abbrev pub gadget_dirs : Host → Text → List Text
gadget_dirs h name =
    mass_storage_dir h name
    ∷ func_mass_storage_dir h name
    ∷ config_strings_dir h name
    ∷ config_dir h name
    ∷ strings_dir h name
    ∷ gadget_dir h name
    ∷ []

-- The directories are removed, each one whatever became of the others.
unfoldable pub remove_dirs : Host → Bool → List Text → Statement Bool
remove_dirs h success [] = pure success
remove_dirs h success (dir ∷ dirs) =
    act (remove_directory dir (h.remove_error dir))
    >> remove_dirs h (success && h.remove_error dir == 0) dirs

abbrev pub status_of : Bool → ℤ
status_of success = if success then pos 0 else negsuc 0

-- What follows the `try`.
unfoldable pub clean_up : Host → Text → Bool → Statement ℤ
unfolding write unregister remove_dirs
clean_up h name success =
    write h (udc_file h name) []
    >> unregister h name
    >> remove_dirs h success (gadget_dirs h name)
    >>= λ removed. pure (status_of removed)

-- The exceptions that have a handler.
unfoldable pub is_caught : Exception → Bool
is_caught invalid_argument = true
is_caught filesystem_error = true
is_caught (sdbus e) = true
is_caught out_of_range = false
is_caught runtime_error = false
is_caught type_error = false
is_caught undefined = false
is_caught (resource e) = false

-- The function after the `try` of an inserted device.
unfoldable pub after_insert : Host → Text → Outcome (Unit {0}) → Outcome ℤ
unfolding clean_up is_caught
after_insert h name (done u g) = clean_up h name true g
after_insert h name (returned z g) = returned z g
after_insert h name (threw e g) = if is_caught e then clean_up h name false g else threw e g

unfoldable pub is_insertion : StateChange → Bool
is_insertion inserted = true
is_insertion removed = false
is_insertion not_monitored = false

-- `configure`.
unfoldable pub configure : Host → Text → Text → StateChange → Bool → Text → Statement ℤ
unfolding configure_inserted after_insert clean_up is_insertion
configure h name path change is_rw info g =
    if is_insertion change
    then after_insert h name (configure_inserted h name path is_rw info g)
    else clean_up h name true g
