-- ===== src/UsbGadget/Statements.antt =====
-- The statements that `UsbGadget::configure` of src/system.hpp is made of, and the paths.
use virtual_media.Base.{
  ℕ, Bool, false, ◌&&◌, ◌||◌, Option, none, some, ◌++◌, Text, codes, text_eq, if◌then◌else◌, ◌==◌,
  join_path, filesystem_error, runtime_error, sdbus, ℤ, pos, ◌-◌, negsuc, take,
}
use virtual_media.Url.{gadget_dir_prefix, get_path_without_file_name}
use virtual_media.UsbGadget.{
  Reply, failed, answered, BlockFile, not_block, no_open, no_size, block_size, Host, Saved, Globals,
  Statement, echo, make_directory, make_symlink, remove_link, set_power_save, ◌>>◌, pure, throw,
  act,
}

-- `echoToFile`.
unfoldable pub echo_to_file : Host → Text → Text → Statement Bool
echo_to_file h path content =
    act (echo path content (h.echo path content)) >> pure (h.echo path content)

-- `echoToFile` whose result is dropped.
unfoldable pub write : Host → Text → Text → Statement (Unit {0})
write h path content = act (echo path content (h.echo path content))

-- `fs::create_directories`.
unfoldable pub create_directories : Host → Text → Statement (Unit {0})
create_directories h path =
    if h.create_directories path then act (make_directory path) else throw filesystem_error

-- `powerSaveMode`: whatever the call throws is caught.
unfoldable pub power_save_mode : ℕ → Statement (Unit {0})
power_save_mode status = if status == 0 || status == 1 then act (set_power_save status) else pure tt

abbrev pub power_save_mode_enable : ℕ
power_save_mode_enable = 1

abbrev pub power_save_mode_disable : ℕ
power_save_mode_disable = 0

-- A D-Bus call: its reply, or the exception.
unfoldable pub call : {A : Type 0} → Reply A → Statement A
call (failed e) = throw (sdbus e)
call (answered a) = pure a

abbrev pub gadget_dir : Host → Text → Text
gadget_dir h name = gadget_dir_prefix (h.multi_host && h.second_host) ++ name

abbrev pub func_mass_storage_dir : Host → Text → Text
func_mass_storage_dir h name = join_path (gadget_dir h name) (codes "functions/mass_storage.usb0")

abbrev pub strings_dir : Host → Text → Text
strings_dir h name = join_path (gadget_dir h name) (codes "strings/0x409")

abbrev pub config_dir : Host → Text → Text
config_dir h name = join_path (gadget_dir h name) (codes "configs/c.1")

abbrev pub mass_storage_dir : Host → Text → Text
mass_storage_dir h name = join_path (config_dir h name) (codes "mass_storage.usb0")

abbrev pub config_strings_dir : Host → Text → Text
config_strings_dir h name = join_path (config_dir h name) (codes "strings/0x409")

abbrev pub lun_file : Host → Text → Text → Text
lun_file h name file = join_path (func_mass_storage_dir h name) (codes "lun.0/" ++ file)

abbrev pub udc_file : Host → Text → Text
udc_file h name = join_path (gadget_dir h name) (codes "UDC")

-- An old link of the configuration is taken away.
unfoldable pub remove_old_link : Host → Text → Statement (Unit {0})
remove_old_link h path =
    if h.is_symlink path
    then (if h.remove_link path then act (remove_link path) else throw filesystem_error)
    else pure tt

unfoldable pub create_symlink : Host → Text → Statement (Unit {0})
create_symlink h path =
    if h.create_symlink path then act (make_symlink path) else throw filesystem_error

-- The directories and their files, up to the image.
unfoldable pub prepare : Host → Text → Bool → Statement (Unit {0})
unfolding power_save_mode create_directories write remove_old_link create_symlink
prepare h name is_rw =
    power_save_mode power_save_mode_disable
    >> create_directories h (gadget_dir h name)
    >> write h (join_path (gadget_dir h name) (codes "idVendor")) (codes "0x1d6b")
    >> write h (join_path (gadget_dir h name) (codes "idProduct")) (codes "0x0104")
    >> create_directories h (strings_dir h name)
    >> write h (join_path (strings_dir h name) (codes "manufacturer")) (codes "OpenBMC")
    >> write h (join_path (strings_dir h name) (codes "product")) (codes "Virtual Media Device")
    >> create_directories h (config_strings_dir h name)
    >> write h (join_path (config_strings_dir h name) (codes "configuration")) (codes "config 1")
    >> create_directories h (func_mass_storage_dir h name)
    >> create_directories h (join_path (func_mass_storage_dir h name) (codes "lun.0"))
    >> remove_old_link h (mass_storage_dir h name)
    >> create_symlink h (mass_storage_dir h name)
    >> write h (lun_file h name (codes "removable")) (codes "1")
    >> write h (lun_file h name (codes "ro")) (if is_rw then codes "0" else codes "1")

abbrev pub min_image_size : ℕ
min_image_size = 614400

-- The size that is read: 0 for what is not a block file.
unfoldable pub image_size : BlockFile → Statement ℕ
image_size not_block = pure 0
image_size no_open = throw runtime_error
image_size no_size = throw runtime_error
image_size (block_size n) = pure n

-- `char usbVmediaName[USB_VMEDIA_NAME_SIZE]`, the terminator included.
abbrev pub usb_vmedia_name_size : ℕ
usb_vmedia_name_size = 29

-- `snprintf(usbVmediaName, …)`.
unfoldable pub usb_vmedia_name : Text → Text
usb_vmedia_name name = take (usb_vmedia_name_size - 1) (codes "Virtual USB " ++ name)

-- `isSamePath`.
unfoldable pub is_same_path : Globals → ℤ
is_same_path g = elim g.creds_slot_2 [
  | none ↦ pos 0
  | some a ↦ elim g.creds_slot_3 [
    | none ↦ pos 0
    | some b ↦
        if text_eq (get_path_without_file_name a.url) (get_path_without_file_name b.url)
        then pos 1
        else negsuc 0
  ]
]

-- `isSamePath() == 1`.
unfoldable pub shares_path : Globals → Bool
unfolding is_same_path
shares_path g = elim (is_same_path g) [ pos n ↦ n == 1 | negsuc n ↦ false ]

-- `creds[slot]`.
unfoldable pub creds_at : ℕ → Globals → Option Saved
creds_at slot g = if slot == 0 then g.creds_slot_2 else g.creds_slot_3
