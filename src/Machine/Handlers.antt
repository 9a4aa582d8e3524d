-- ===== src/Machine/Handlers.antt =====
-- The `handleEvent` overloads of the five states: src/state.
use virtual_media.Base.{
  Bool, true, false, Option, none, some, ◌++◌, Text, codes, text_eq, if◌then◌else◌, ◌==◌, ◌&&◌,
  ◌||◌, not, undefined, sdbus, ℤ, pos, negsuc, add_ℕ, from_option, join_path, errc_eperm,
  errc_enoent, errc_ebusy, errc_einval, errc_erange, errc_eproto, errc_eopnotsupp,
  errc_econnrefused,
}
use virtual_media.Config.{Mode, proxy, legacy, local, default_timeout}
use virtual_media.Device.{StateChange, removed, inserted, NbdDevice, to_string}
use virtual_media.Notification
use virtual_media.Url.{is_https_url, gadget_dir_prefix}
use virtual_media.Machine.Types.{
  Process, Gadget, Target, State, initial, ready, activating, active, deactivating, Event,
  register_dbus, mount, unmount, subprocess_stopped, udev_state_change, clean_gadget, clean_mount,
  add_interface, System, Machine, done, threw, M, ◌>>◌, pure, throw, modify,
}
use virtual_media.Machine.Resources.{
  act, drop_gadget, set_target, notify, make_gadget, ready_with_error, ready_state,
}

-- `getObjectPath`.
unfoldable pub get_object_path : Bool → NbdDevice → Mode → Text
get_object_path multi_host d mode =
    let n = to_string d in
    (if multi_host
        && (text_eq n (codes "nbd4")
            || text_eq n (codes "nbd5")
            || text_eq n (codes "nbd6")
            || text_eq n (codes "nbd7"))
      then codes "/xyz/openbmc_project/VirtualMedia1"
      else codes "/xyz/openbmc_project/VirtualMedia")
    ++ elim mode [ proxy ↦ codes "/Proxy/" | local ↦ codes "/Local/" | legacy ↦ codes "/Legacy/" ]

-- `cleanUpMountPoint`.
clean_up_mount_point : System → Machine → Machine
unfolding act gadget_dir_prefix
clean_up_mount_point sys s =
    let gadget = gadget_dir_prefix (sys.multi_host && sys.second_host) ++ s.name in
    let file = join_path (codes "/tmp") s.name in
    let s' = if sys.exists gadget then act clean_gadget s else s in
    if sys.exists file && sys.umount file then act (clean_mount file) s' else s'

-- The mount point, process and service interfaces of one object path; the last initialises the
-- notification.
add_interfaces : System → Machine → Machine
unfolding act get_object_path
add_interfaces sys s =
    let path = get_object_path sys.multi_host s.config.nbd_device s.config.mode ++ s.name in
    record (act (add_interface path) (act (add_interface path) (act (add_interface path) s))) {
      completion = some Notification.fresh;
    }

is_cleaned : Mode → Bool
is_cleaned proxy = false
is_cleaned legacy = true
is_cleaned local = true

unfoldable pub is_legacy : Mode → Bool
is_legacy legacy = true
is_legacy _ = false

-- `InitialState`. The process-wide local service, which this also registers, is not part of the
-- machine but of `Local`.
unfoldable pub handle_initial : System → Event → M (Option State)
unfolding clean_up_mount_point add_interfaces is_cleaned
handle_initial sys register_dbus s =
    (if is_legacy s.config.mode && not sys.legacy_enabled
        then ready_with_error errc_einval "Legacy mode is not supported"
        else (modify (λ t.
              add_interfaces sys
                (if is_cleaned t.config.mode then clean_up_mount_point sys t else t))
            >> ready_state))
      s
handle_initial sys _ s = done none s

-- `notificationStart`: the timeout of the mount point and five seconds.
unfoldable pub notification_start : M (Unit {0})
notification_start s = elim s.completion [
  | none ↦ threw undefined s
  | some n ↦ done tt (record s {
    completion =
        some (Notification.start (add_ℕ (from_option default_timeout s.config.timeout) 5) n);
  })
]

-- `if (event.target) getTarget() = std::move(event.target)`.
unfoldable pub take_target : Option Target → Machine → Machine
unfolding set_target
take_target none s = s
take_target (some t) s = set_target (some t) s

unfoldable pub handle_ready : Event → M (Option State)
handle_ready (mount t) =
    notification_start >> (modify (take_target t) >> pure (some (activating none none)))
handle_ready unmount = throw (sdbus errc_eperm)
handle_ready _ = pure none

-- A state whose process and gadget have moved away.
unfoldable pub emptied : State → State
emptied initial = initial
emptied (ready e) = ready e
emptied (activating p g) = activating none none
emptied (active p g) = active none none
emptied (deactivating p g u b) = deactivating none none u b

-- The state's process and gadget move to a new state.
unfoldable pub moved_out : Machine → Machine
unfolding emptied
moved_out s = record s { state = emptied s.state }

-- The status of a gadget that could not be used: -2 for an image that is too small.
unfoldable pub is_too_small : ℤ → Bool
is_too_small (negsuc n) = n == 1
is_too_small _ = false

unfoldable pub is_zero : ℤ → Bool
is_zero (pos n) = n == 0
is_zero _ = false

-- What the status of the gadget that an activating state holds leads to.
unfoldable pub use_gadget : Option Process → Gadget → M (Option State)
unfolding moved_out
use_gadget p g =
    if is_zero g.status
    then (notify 0 >> (modify moved_out >> pure (some (active p (some g)))))
    else if is_too_small g.status
    then ready_with_error errc_erange "Image size is below minimum supported limit (600KB)"
    else ready_with_error errc_einval "USB gadget configuration failed"

-- `gadget = make_unique<Gadget>(…)` in an activating state.
unfoldable pub insert : System → Option Process → Option Gadget → M (Option State)
unfolding drop_gadget
insert sys p old s =
    let (g, s') = make_gadget sys s in
    use_gadget p g (record (drop_gadget old s') { state = activating p (some g) })

unfoldable pub fails_https : Option Target → Bool
fails_https none = false
fails_https (some t) = is_https_url t.img_url

unfoldable pub handle_activating :
    System → Option Process → Option Gadget → Event → M (Option State)
unfolding moved_out
handle_activating sys p g (udev_state_change inserted) = insert sys p g
handle_activating sys p g (udev_state_change c) =
    modify moved_out >> pure (some (deactivating p g (some c) false))
handle_activating sys p g subprocess_stopped = λ s.
    (if fails_https s.target
        then ready_with_error errc_eproto "HTTPS media redirection failed"
        else ready_with_error errc_enoent "Invalid image path or image does not exist")
      s
handle_activating sys p g _ = throw (sdbus errc_ebusy)

unfoldable pub handle_active : Option Process → Option Gadget → Event → M (Option State)
unfolding moved_out
handle_active p g (udev_state_change c) =
    modify moved_out >> pure (some (deactivating p g (some c) false))
handle_active p g subprocess_stopped = modify moved_out >> pure (some (deactivating p g none true))
handle_active p g unmount =
    notification_start >> (modify moved_out >> pure (some (deactivating p g none false)))
handle_active p g (mount t) = throw (sdbus errc_eperm)
handle_active p g register_dbus = throw (sdbus errc_eopnotsupp)

-- `evaluate`: both events are there, and the device was removed or was not.
unfoldable pub evaluate : Option StateChange → Bool → M (Option State)
evaluate (some removed) true = ready_state
evaluate (some c) true = ready_with_error errc_econnrefused "Not expected udev state"
evaluate _ _ = pure none

unfoldable pub handle_deactivating :
    Option Process → Option Gadget → Option StateChange → Bool → Event → M (Option State)
handle_deactivating p g u b (udev_state_change c) =
    modify (λ s. record s { state = deactivating p g (some c) b }) >> evaluate (some c) b
handle_deactivating p g u b subprocess_stopped =
    modify (λ s. record s { state = deactivating p g u true }) >> evaluate u true
handle_deactivating p g u b _ = throw (sdbus errc_ebusy)
