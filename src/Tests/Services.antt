-- ===== src/Tests/Services.antt =====
-- The reconnect settings and the service for local files at concrete inputs
-- (src/vm_interface.cpp, src/state/initial_state.hpp).
use virtual_media.Base.{
  ◌≡◌, refl, true, false, Option, none, some, [], ◌∷◌, Text, codes, ok, pos, negsuc, arith, text_eq,
  starts_with,
}
use virtual_media.Retry.{Disk, parses, Interface}
use virtual_media.Retry.ImageUrls.{
  Backup, url_of, contains_slot, is_supported, save_image_url_to_json,
  save_image_url_to_json-properties,
}
use virtual_media.Retry.Bounds.{InRange}
use virtual_media.Config.{MountPoint, proxy}
use virtual_media.Device.{nbd2}
use virtual_media.Notification.{fresh}
use virtual_media.Url.{is_local_file}
use virtual_media.Machine.{ready, System, Machine}
use virtual_media.Local.{Slots, slot_order, find_mount, list_available, validate, local_mount}
use virtual_media.Local.Slots.{mount_head, local_mount-list_available}

abbrev good_disk : Disk
good_disk = record { reading = parses; can_write = true }

abbrev stored : Interface
stored = record {
  retry_count = 3;
  retry_interval = 15;
  is_registered = true;
  json_data = record { count = none; interval = none };
  file = record { count = some 3; interval = some 15 };
}

settings_InRange : InRange stored
settings_InRange = record {
  count_low = omega arith;
  count_high = omega arith;
  interval_low = omega arith;
  interval_high = omega arith;
}

-- The image is there, and nothing else.
abbrev system : System
system = record {
  legacy_enabled = true;
  multi_host = false;
  second_host = false;
  exists = is_local_file;
  is_regular_file = λ p. true;
  is_owner_writable = λ p. true;
  status_error = λ p. 0;
  create_directories_error = λ p. 0;
  permissions_error = λ p. 0;
  create_directories = λ p. true;
  remove = λ p. true;
  spawn = λ app args. true;
  mount_call = λ c. 0;
  umount = λ p. true;
  configure = λ rw info. some (pos 0);
  secret_file = none;
}

abbrev point : MountPoint
point = record {
  nbd_device = nbd2;
  unix_socket = codes "/run/virtual-media/nbd2.sock";
  end_point_id = codes "/nbd/2";
  timeout = none;
  blocksize = none;
  remaining_inactivity_timeout = 0;
  mode = proxy;
}

abbrev slot : Machine
slot = record {
  name = codes "Slot_2";
  config = point;
  additional_info = [];
  completion = some fresh;
  target = none;
  state = ready none;
  exit_code = negsuc 0;
  trace = [];
}

abbrev slots : Slots
slots = (codes "Slot_2", slot) ∷ []

-- The bytes of every image are those of a CD.
abbrev cd_bytes : Text → Option Text
cd_bytes path = some (codes "CD001")

nothing_mounted : find_mount system slot_order slots ≡ none
unfolding find_mount text_eq
nothing_mounted = refl

image_accepted : validate system cd_bytes (codes "/tmp/lmedia/a.iso") false ≡ ok tt
unfolding validate is_local_file starts_with text_eq
image_accepted = refl

local_mount-list_available_example :
    local_mount system cd_bytes (codes "/tmp/lmedia/a.iso") false slots
    ≡ mount_head system (codes "/tmp/lmedia/a.iso") false (list_available slot_order slots) slots
local_mount-list_available_example =
    local_mount-list_available system cd_bytes (codes "/tmp/lmedia/a.iso") false slots
      nothing_mounted image_accepted

abbrev disk : Disk
disk = record { reading = parses; can_write = true }

abbrev backup : Backup
backup = record {
  json_data = none;
  file = some ((codes "Slot_2", none) ∷ (codes "Slot_3", some (codes "nfs://b")) ∷ []);
  properties = none;
}

save_image_url_to_json-properties_example :
    let b = save_image_url_to_json disk disk (codes "smb://a") (codes "Slot_2") backup in
    (b.properties ≡ some (codes "smb://a", codes "nfs://b"))
    × (url_of (codes "Slot_2") b.file ≡ codes "smb://a")
    × (url_of (codes "Slot_3") b.file ≡ codes "nfs://b")
unfolding is_supported contains_slot url_of text_eq
save_image_url_to_json-properties_example =
    save_image_url_to_json-properties disk disk (codes "smb://a") (codes "Slot_2") backup refl refl
      refl refl refl
