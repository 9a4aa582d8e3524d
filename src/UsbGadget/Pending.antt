-- ===== src/UsbGadget/Pending.antt =====
-- The status of `UsbGadget::configure` (src/system.hpp) and the mount that waits for it
-- (src/state/activating_state.hpp).
use virtual_media.Base.{
  ℕ, ◌<◌, ◌≡◌, refl, subst, ◌∙◌, codes, ◌==◌, Bool, true, false, Option, none, some, ◌∷◌, Text,
  if◌then◌else◌, ℤ, arith, errc_erange,
}
use virtual_media.Device.{inserted, to_path}
use virtual_media.Notification.{Notification}
use virtual_media.Machine.{Process, Gadget, activating, udev_state_change, System, Machine}
use virtual_media.Machine.Run.{emits, step}
use virtual_media.Machine.Completion.{signals, kind, insert_code, gadget_status, insert_pending}
use virtual_media.UsbGadget.{
  Host, Globals, Outcome, done, returned, threw, block_size, Statement, act, watch_eject,
  drop_cache, ◌>>=◌, ◌>>◌,
}
use virtual_media.UsbGadget.Statements.{prepare, lun_file, image_size, min_image_size}
use virtual_media.UsbGadget.Registration.{register}
use virtual_media.UsbGadget.Ports.{bind_port}
use virtual_media.UsbGadget.Leaves.{done_then, returned_then}
use virtual_media.UsbGadget.Configure.{
  attach_image, slot_number, monitor_mount, check_size, configure_inserted, set_up, after_insert,
  is_insertion, configure, too_small,
}

-- The status that a call comes to, none if it throws.
abbrev pub status : Outcome ℤ → Option ℤ
status (done z g) = some z
status (returned z g) = some z
status (threw e g) = none

-- The path of the machine's device.
abbrev pub device_path : Machine → Text
device_path s = to_path s.config.nbd_device

-- The machine's system, with the function of the model for `UsbGadget::configure`.
abbrev pub with_gadget : Host → Globals → Machine → System → System
with_gadget h globals s sys = record sys {
  configure = λ is_rw info. status (configure h s.name (device_path s) inserted is_rw info globals);
}

-- An image below 600 KB is turned away once the directories are made.
attach_image_small :
    (h : Host) (name path : Text) (g : Globals) (k : ℕ)
    → h.block_file path ≡ block_size k
    → k < min_image_size
    → attach_image h name path g ≡ returned too_small g
unfolding attach_image image_size check_size
attach_image_small h name path g k e l = rw (e, attach_image) (ground arith)

configure_inserted_small :
    (h : Host) (name path : Text) (is_rw : Bool) (info : Text) (g g' : Globals) (k : ℕ)
    → prepare h name is_rw g ≡ done tt g'
    → h.block_file path ≡ block_size k
    → k < min_image_size
    → configure_inserted h name path is_rw info g ≡ returned too_small g'
unfolding configure_inserted set_up
configure_inserted_small h name path is_rw info g g' k p e l =
    let attached : Statement (Unit {0}) = prepare h name is_rw >> attach_image h name path in
    let slot : Statement (Unit {0}) = slot_number name >>= monitor_mount name in
    let eject : Statement (Unit {0}) = act (watch_eject (lun_file h name (codes "file"))) in
    let small =
      done_then (prepare h name is_rw) (attach_image h name path) g g' p
      ∙ attach_image_small h name path g' k e l in
    let registered = returned_then attached (register h name info) g g' too_small small in
    let placed = returned_then (attached >> register h name info) slot g g' too_small registered in
    let watched =
      returned_then (attached >> register h name info >> slot) eject g g' too_small placed in
    let dropped =
      returned_then (attached >> register h name info >> slot >> eject) (act (drop_cache path)) g g'
        too_small watched in
    returned_then (attached >> register h name info >> slot >> eject >> act (drop_cache path))
      (bind_port h name) g g' too_small dropped

pub configure_small :
    (h : Host) (name path : Text) (is_rw : Bool) (info : Text) (g g' : Globals) (k : ℕ)
    → prepare h name is_rw g ≡ done tt g'
    → h.block_file path ≡ block_size k
    → k < min_image_size
    → configure h name path inserted is_rw info g ≡ returned too_small g'
unfolding configure is_insertion configure_inserted after_insert
configure_small h name path is_rw info g g' k p e l =
    rw (configure_inserted_small h name path is_rw info g g' k p e l, configure) refl

-- Whether the target of the machine is to be written.
abbrev pub target_is_rw : Machine → Bool
target_is_rw s = elim s.target [ none ↦ false | some t ↦ t.is_rw ]

gadget_status_small :
    (sys : System) (h : Host) (globals globals' : Globals) (s : Machine) (k : ℕ)
    → prepare h s.name (target_is_rw s) globals ≡ done tt globals'
    → h.block_file (device_path s) ≡ block_size k
    → k < min_image_size
    → gadget_status (with_gadget h globals s sys) s ≡ too_small
gadget_status_small sys h globals globals' s k q f l =
    rw
      (configure_small h s.name (device_path s) (target_is_rw s) s.additional_info globals globals'
        k q f l)
      refl

-- A machine that activates, its mount not answered yet, is told that the device is inserted, and
-- the directories of the gadget can be made: if the device is a block file below 600 KB, the client
-- gets ERANGE and the machine is ready without a target.
pub small_pending :
    (sys : System) (h : Host) (globals globals' : Globals) (s : Machine) (p : Option Process)
    (g : Option Gadget) (n : Notification) (k : ℕ)
    → s.state ≡ activating p g
    → s.completion ≡ some n
    → n.started ≡ true
    → prepare h s.name (target_is_rw s) globals ≡ done tt globals'
    → h.block_file (device_path s) ≡ block_size k
    → k < min_image_size
    → let s' = step (emits (with_gadget h globals s sys) (udev_state_change inserted)) s in
      (signals s' ≡ errc_erange ∷ n.sent) × (kind s'.state ≡ 1) × (s'.target ≡ none)
small_pending sys h globals globals' s p g n k e c b q f l =
    subst
      (λ z.
        let s' = step (emits (with_gadget h globals s sys) (udev_state_change inserted)) s in
        (signals s' ≡ insert_code z ∷ n.sent)
        × (kind s'.state ≡ (if insert_code z == 0 then 3 else 1))
        × (s'.target ≡ (if insert_code z == 0 then s.target else none)))
      (gadget_status_small sys h globals globals' s k q f l)
      (insert_pending (with_gadget h globals s sys) s p g n e c b)
