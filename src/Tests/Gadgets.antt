-- ===== src/Tests/Gadgets.antt =====
-- `UsbGadget` at concrete inputs (src/system.hpp).
use virtual_media.Base.{
  text_eq, find_last_of, ◌≡◌, refl, arith, Bool, true, false, none, some, List, [], ◌∷◌, Text,
  codes, find, pos, negsuc, errc_erange, All, inl, inr,
}
use virtual_media.Config.{legacy}
use virtual_media.Device.{nbd0, inserted, removed}
use virtual_media.Notification.{Notification}
use virtual_media.Machine.{activating, udev_state_change, System, Machine}
use virtual_media.Machine.Run.{emits, step}
use virtual_media.Machine.Completion.{signals, kind}
use virtual_media.Session.{unmount_call}
use virtual_media.Url.{is_digit, stoi, extract_slot_number}
use virtual_media.UsbGadget.{answered, block_size, Host, Globals, Outcome, done, returned, threw}
use virtual_media.UsbGadget.Statements.{
  prepare, image_size, power_save_mode, create_directories, write, remove_old_link, create_symlink,
}
use virtual_media.UsbGadget.Ports.{after, usb_virtual_hub, has_ports, is_free}
use virtual_media.UsbGadget.Registration.{register}
use virtual_media.UsbGadget.Configure.{
  set_up, attach_image, check_size, slot_number, monitor_mount, is_insertion, configure_inserted,
  configure,
}
use virtual_media.UsbGadget.Results.{Explained, configure-Explained}
use virtual_media.UsbGadget.Removal.{Removed, configure-Removed}
use virtual_media.UsbGadget.FirstPort.{IsNumbered, Configures, configure-Configures}
use virtual_media.UsbGadget.Eject.{file_of, watch_eject, watch_eject-unmount_call}
use virtual_media.UsbGadget.Pending.{with_gadget, small_pending}

-- The second port of the hub is free, and all else succeeds.
abbrev host : Host
host = record {
  multi_host = false;
  second_host = false;
  exists = λ p. false;
  is_directory = λ p. true;
  is_symlink = λ p. false;
  echo = λ path content. true;
  create_directories = λ p. true;
  remove_link = λ p. true;
  create_symlink = λ p. true;
  directory = λ p. some (codes "driver" ∷ codes "1e6a0000.usb-vhub:p2" ∷ []);
  remove_error = λ p. 0;
  cd_bytes = λ p. some (codes "CD001");
  block_file = λ p. block_size 1000;
  web_sessions = answered [];
  register = λ s. answered true;
  vmedia_sessions = answered [];
  unregister = λ id. answered true;
}

abbrev globals : Globals
globals = record {
  active_sessions = (codes "Slot_2", 7) ∷ [];
  creds_slot_2 = none;
  creds_slot_3 = none;
  is_reconnecting = false;
  trace = [];
}

abbrev device : Text
device = codes "/dev/nbd2"

configure-Explained_example :
    Explained host
      (codes "Slot_2")
      device
      (configure_inserted host (codes "Slot_2") device false (codes "session_7") globals)
      (configure host (codes "Slot_2") device inserted false (codes "session_7") globals)
configure-Explained_example =
    configure-Explained host (codes "Slot_2") device false (codes "session_7") globals

configure-Removed_example :
    Removed host
      (codes "Slot_2")
      true
      globals
      (configure host (codes "Slot_2") device removed false [] globals)
unfolding is_insertion
configure-Removed_example =
    configure-Removed host (codes "Slot_2") device removed false [] globals refl

abbrev hub : Text
hub = codes "1e6a0000"

abbrev hub_entries : List Text
hub_entries = codes "driver" ∷ codes "1e6a0000.usb-vhub:p2" ∷ []

hub_entries-IsNumbered : All (IsNumbered hub) hub_entries
unfolding find stoi after
hub_entries-IsNumbered = (inl refl, (inr (pos 2, refl), tt))

abbrev rounds : List (Bool × Bool)
rounds = (true, false) ∷ (true, true) ∷ []

watch_eject-unmount_call_example :
    watch_eject (file_of true 50) (codes "VirtualMedia1") rounds
    ≡ some (unmount_call (codes "VirtualMedia1") (codes "Slot_1"))
unfolding is_digit
watch_eject-unmount_call_example =
    watch_eject-unmount_call true 50 (codes "VirtualMedia1") rounds refl

abbrev waiting_completion : Notification
waiting_completion = record { started = true; waiting = some (pos 35); aborted = 0; sent = 0 ∷ [] }

-- A system in which all succeeds.
abbrev system : System
system = record {
  legacy_enabled = true;
  multi_host = false;
  second_host = false;
  exists = λ p. false;
  is_regular_file = λ p. true;
  is_owner_writable = λ p. true;
  status_error = λ p. 0;
  create_directories_error = λ p. 0;
  permissions_error = λ p. 0;
  create_directories = λ p. true;
  remove = λ p. true;
  spawn = λ app args. true;
  mount_call = λ c. 0;
  umount = λ p. true;
  configure = λ is_rw info. none;
  secret_file = none;
}

-- A mount that waits for its device.
abbrev machine : Machine
machine = record {
  name = codes "Slot_2";
  config = record {
    nbd_device = nbd0;
    unix_socket = codes "/run/virtual-media/nbd0.sock";
    end_point_id = codes "/nbd/0";
    timeout = none;
    blocksize = none;
    remaining_inactivity_timeout = 0;
    mode = legacy;
  };
  additional_info = codes "session_7";
  completion = some waiting_completion;
  target = none;
  state = activating none none;
  exit_code = negsuc 0;
  trace = [];
}

abbrev globals_of : Outcome (Unit {0}) → Globals
globals_of (done a g) = g
globals_of (returned z g) = g
globals_of (threw e g) = g

abbrev prepared : Globals
prepared = globals_of (prepare host (codes "Slot_2") false globals)

prepared_lem : prepare host (codes "Slot_2") false globals ≡ done tt prepared
unfolding prepare power_save_mode create_directories write remove_old_link create_symlink
prepared_lem = refl

small_pending_example :
    let s' =
      step (emits (with_gadget host globals machine system) (udev_state_change inserted)) machine in
    (signals s' ≡ errc_erange ∷ 0 ∷ []) × (kind s'.state ≡ 1) × (s'.target ≡ none)
small_pending_example =
    small_pending system host globals prepared machine none none waiting_completion 1000 refl refl
      refl prepared_lem refl (omega arith)

-- The image is large enough.
abbrev large_host : Host
large_host = record host { block_file = λ p. block_size 700000 }

abbrev set_up_globals : Globals
set_up_globals =
    globals_of (set_up large_host (codes "Slot_2") device false (codes "LMEDIA") globals)

set_up_lem :
    set_up large_host (codes "Slot_2") device false (codes "LMEDIA") globals
    ≡ done tt set_up_globals
unfolding set_up prepare power_save_mode create_directories write remove_old_link create_symlink
    attach_image image_size check_size register slot_number monitor_mount extract_slot_number
    find_last_of text_eq
set_up_lem = refl

configure-Configures_example :
    Configures large_host
      (codes "Slot_2")
      (some (codes "1e6a0000.usb-vhub:p2"))
      (configure large_host (codes "Slot_2") device inserted false (codes "LMEDIA") globals)
unfolding usb_virtual_hub has_ports find stoi after is_free text_eq
configure-Configures_example =
    configure-Configures large_host (codes "Slot_2") device false (codes "LMEDIA") globals
      set_up_globals hub_entries set_up_lem refl refl hub_entries-IsNumbered
