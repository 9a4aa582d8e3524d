-- ===== src/Machine/Completion.antt =====
-- Which completion a client of a mount is told (src/state, src/state_machine.hpp).
use virtual_media.Base.{
  ℕ, ◌≡◌, refl, Bool, true, false, Option, none, some, List, [], ◌∷◌, if◌then◌else◌, arith,
  errc_erange, errc_einval, errc_eproto, errc_enoent, ℤ, pos, negsuc, zero, suc, ◌==◌, from_option,
}
use virtual_media.Device.{removed, inserted}
use virtual_media.Notification
use virtual_media.Notification.{Notification}
use virtual_media.Url.{is_https_url}
use virtual_media.Machine.Types.{
  Process, Gadget, Target, State, initial, ready, activating, active, deactivating, unmount,
  subprocess_stopped, udev_state_change, System, Machine,
}
use virtual_media.Machine.Resources.{
  drop_state, set_target, notify, make_gadget, target_is_rw, ready_with_error, ready_state,
  drop_gadget,
}
use virtual_media.Machine.Handlers.{
  handle_activating, handle_deactivating, handle_active, notification_start, insert, use_gadget,
  is_zero, is_too_small, fails_https, evaluate,
}
use virtual_media.Machine.Run.{
  on_enter, replace_state, change_state, handle_event, emit_event, emits, step, enter_ready,
  enter_deactivating,
}

-- The signals sent so far, the latest first.
abbrev pub signals : Machine → List ℕ
signals s = elim s.completion [ none ↦ [] | some n ↦ n.sent ]

-- The code that a mount ends with once its device is inserted, by the status of the gadget.
abbrev pub insert_code : ℤ → ℕ
insert_code (pos zero) = 0
insert_code (negsuc (suc zero)) = errc_erange
insert_code _ = errc_einval

-- The status that `UsbGadget::configure` gives the machine's gadget, -1 if it throws.
abbrev pub gadget_status : System → Machine → ℤ
gadget_status sys s =
    from_option (negsuc 0)
      (sys.configure (elim s.target [ none ↦ false | some t ↦ t.is_rw ]) s.additional_info)

-- The code of a mount whose process ends.
abbrev pub stop_code : Option Target → ℕ
stop_code none = errc_enoent
stop_code (some t) = if is_https_url t.img_url then errc_eproto else errc_enoent

abbrev pub kind : State → ℕ
kind initial = 0
kind (ready e) = 1
kind (activating p g) = 2
kind (active p g) = 3
kind (deactivating p g u b) = 4

insert_code-is_zero : (z : ℤ) → (insert_code z == 0) ≡ is_zero z
unfolding is_zero
insert_code-is_zero (pos zero) = refl
insert_code-is_zero (pos (suc n)) = ground arith
insert_code-is_zero (negsuc zero) = refl
insert_code-is_zero (negsuc (suc zero)) = refl
insert_code-is_zero (negsuc (suc (suc n))) = refl

insert_code-is_too_small :
    (z : ℤ)
    → is_zero z ≡ false
    → insert_code z ≡ (if is_too_small z then errc_erange else errc_einval)
unfolding is_zero is_too_small
insert_code-is_too_small (pos zero) h = cc
insert_code-is_too_small (pos (suc n)) h = refl
insert_code-is_too_small (negsuc zero) h = refl
insert_code-is_too_small (negsuc (suc zero)) h = refl
insert_code-is_too_small (negsuc (suc (suc n))) h = ground arith

insert_code_zero : (z : ℤ) → is_zero z ≡ true → insert_code z ≡ 0
unfolding is_zero
insert_code_zero z h = ground (arith, insert_code-is_zero z)

gadget_status-make_gadget :
    (sys : System) (s : Machine) → (make_gadget sys s).0.status ≡ gadget_status sys s
unfolding make_gadget target_is_rw
gadget_status-make_gadget sys s = ground arith

-- The same with the tests of the handler.
insert_pending_tests :
    (sys : System) (s : Machine) (p : Option Process) (g : Option Gadget) (n : Notification)
    → s.state ≡ activating p g
    → s.completion ≡ some n
    → n.started ≡ true
    → let s' = step (emits sys (udev_state_change inserted)) s in
      let z = (make_gadget sys s).0.status in
      (signals s'
        ≡ (if is_zero z then 0 else if is_too_small z then errc_erange else errc_einval) ∷ n.sent)
      × (kind s'.state ≡ (if is_zero z then 3 else 1))
      × (s'.target ≡ (if is_zero z then s.target else none))
unfolding step emit_event handle_event handle_activating insert use_gadget ready_with_error notify
    Notification.notify change_state on_enter replace_state enter_ready set_target make_gadget
    drop_state drop_gadget
insert_pending_tests sys s p g n e c h = ground arith

-- A machine that activates, its mount not answered yet, is told that the device is inserted: the
-- client gets 0 and the machine is active if the gadget's status is 0; it gets ERANGE for a
-- status of -2, and EINVAL for any other, and the machine is ready without a target.
pub insert_pending :
    (sys : System) (s : Machine) (p : Option Process) (g : Option Gadget) (n : Notification)
    → s.state ≡ activating p g
    → s.completion ≡ some n
    → n.started ≡ true
    → let s' = step (emits sys (udev_state_change inserted)) s in
      let z = gadget_status sys s in
      (signals s' ≡ insert_code z ∷ n.sent)
      × (kind s'.state ≡ (if insert_code z == 0 then 3 else 1))
      × (s'.target ≡ (if insert_code z == 0 then s.target else none))
insert_pending sys s p g n e c h = ground (
  arith,
  insert_pending_tests sys s p g n e c h,
  gadget_status-make_gadget sys s,
  insert_code-is_zero (gadget_status sys s),
  insert_code-is_too_small (gadget_status sys s),
  insert_code_zero (gadget_status sys s),
)

-- The end of the process while the machine activates is answered with EPROTO for an HTTPS target
-- and with ENOENT for any other, and leaves a ready machine without a target.
pub stopped_pending :
    (sys : System) (s : Machine) (p : Option Process) (g : Option Gadget) (n : Notification)
    → s.state ≡ activating p g
    → s.completion ≡ some n
    → n.started ≡ true
    → let s' = step (emits sys subprocess_stopped) s in
      (signals s' ≡ stop_code s.target ∷ n.sent) × (kind s'.state ≡ 1) × (s'.target ≡ none)
unfolding step emit_event handle_event handle_activating ready_with_error notify Notification.notify
    change_state on_enter replace_state enter_ready set_target drop_state fails_https
stopped_pending sys s p g n e c h = ground arith

-- A machine that activates and is told that the device was removed ends, when its process has
-- stopped too, ready and without a target; the client of the mount that never became active is
-- answered with 0, which stands for success.
pub removed_pending :
    (sys later : System) (s : Machine) (p : Option Process) (g : Option Gadget) (n : Notification)
    → s.state ≡ activating p g
    → s.completion ≡ some n
    → n.started ≡ true
    → let s' =
        step (emits later subprocess_stopped) (step (emits sys (udev_state_change removed)) s) in
      (signals s' ≡ 0 ∷ n.sent) × (s'.state ≡ ready none) × (s'.target ≡ none)
unfolding step emit_event handle_event handle_activating handle_deactivating evaluate ready_state
    notify Notification.notify change_state on_enter replace_state enter_ready enter_deactivating
    set_target drop_state
removed_pending sys later s p g n e c h = ground arith

abbrev pub both_orders : Bool → System → System → Machine → Machine
both_orders true sys later s =
    step (emits later subprocess_stopped) (step (emits sys (udev_state_change removed)) s)
both_orders false sys later s =
    step (emits later (udev_state_change removed)) (step (emits sys subprocess_stopped) s)

-- An unmount of an active machine is answered with 0 once the device is removed and the process
-- has stopped, in either order, and leaves a ready machine without a target.
pub unmount_active :
    (first : Bool) (sys sys' later : System) (s : Machine) (p : Option Process) (g : Option Gadget)
    (n : Notification)
    → s.state ≡ active p g
    → s.completion ≡ some n
    → let s' = both_orders first sys' later (step (emits sys unmount) s) in
      (signals s' ≡ 0 ∷ n.sent) × (s'.state ≡ ready none) × (s'.target ≡ none)
unfolding step emit_event handle_event handle_active handle_deactivating evaluate ready_state notify
    Notification.notify notification_start Notification.start change_state on_enter replace_state
    enter_ready enter_deactivating set_target drop_state
unmount_active true sys sys' later s p g n e c = ground arith
unmount_active false sys sys' later s p g n e c = ground arith
