-- ===== src/Tests/Apps.antt =====
-- The service at concrete inputs (src/main.cpp, src/state/initial_state.hpp, src/system.hpp).
use virtual_media.Base.{
  ◌≡◌, refl, false, none, some, List, [], ◌∷◌, Text, codes, ltb, ok, pos, if◌then◌else◌,
}
use virtual_media.ChildProcess.{
  stop, reap, disconnect, terminate, on_terminate, wait, on_exit, stop-reap,
}
use virtual_media.Config.{MountPoint}
use virtual_media.Credentials.{count, payload, make_credentials}
use virtual_media.Device.{nbd1, nbd0, inserted, removed}
use virtual_media.Local.{Slots}
use virtual_media.Notification
use virtual_media.Machine.{mount, register_dbus, Machine, final}
use virtual_media.Machine.Resources.{ready_state}
use virtual_media.Machine.Handlers.{handle_initial, is_legacy}
use virtual_media.Machine.Run.{
  emits, expires, emit_event, handle_event, change_state, on_enter, replace_state,
}
use virtual_media.App.{
  new_machine, start_machines, prepend, is_ready_state, take_info, takes, begins, turns, Extra,
  secret, waits, receive_credentials, legacy_mount, Callback, changes, has_turn, serve,
}
use virtual_media.App.Turns.{IsKept, RestsReleased}
use virtual_media.App.Independence.{AllSound, AreAlone, start_machines-serve}
use virtual_media.App.Methods.{AnswersBusy, legacy_mount-IsKept, legacy_mount-payload}
use virtual_media.Tests.Machines.{system, point, image}

abbrev registered : Text → MountPoint → Machine
registered name p = final (emit_event system register_dbus (new_machine name p))

abbrev machines : Slots
machines =
    (codes "Slot_2", registered (codes "Slot_2") point)
    ∷ (codes "Slot_3", registered (codes "Slot_3") (record point { nbd_device = nbd1 }))
    ∷ []

-- A mount of one slot becomes active, while the device of the other is gone.
abbrev calls : List Callback
calls =
    has_turn (codes "Slot_2") (begins (codes "session_2"))
    ∷ has_turn (codes "Slot_2") (takes (emits system (mount (some image))))
    ∷ changes system nbd1 removed
    ∷ changes system nbd0 inserted
    ∷ has_turn (codes "Slot_3") (takes expires)
    ∷ []

start_machines-serve_example :
    AllSound (serve calls machines).0 × AreAlone calls machines (serve calls machines)
unfolding start_machines prepend emit_event handle_event new_machine handle_initial is_legacy
    ready_state change_state on_enter
start_machines-serve_example =
    start_machines-serve system
      ((codes "Slot_2", point) ∷ (codes "Slot_3", record point { nbd_device = nbd1 }) ∷ []) machines
      calls refl (tt, ((refl, tt), (tt, tt)))

abbrev slot : Machine
slot = registered (codes "Slot_2") point

slot-IsKept : IsKept slot
unfolding emit_event handle_event new_machine handle_initial is_legacy ready_state change_state
    on_enter replace_state Notification.notify Notification.fresh
slot-IsKept = (
  record { notifies = refl; settled = (refl, refl) },
  record { processes = refl; gadgets = refl; mounts = refl; directories = refl },
)

-- Another client mounts while the first one's pipe is read.
abbrev overtaken : Extra
overtaken =
    secret (begins (codes "session_3") ∷ takes (emits system (mount (some image))) ∷ [])
      (ok (payload (codes "u") (codes "p")))

legacy_mount-IsKept_example :
    IsKept (
      final
        (legacy_mount system (codes "smb://host/a.iso") false overtaken (codes "session_2") slot))
    × RestsReleased (
        final
          (legacy_mount system (codes "smb://host/a.iso") false overtaken (codes "session_2") slot))
    × AnswersBusy
        (receive_credentials overtaken)
        (legacy_mount system (codes "smb://host/a.iso") false overtaken (codes "session_2") slot)
        (waits overtaken (take_info (codes "session_2") slot))
legacy_mount-IsKept_example =
    legacy_mount-IsKept system (codes "smb://host/a.iso") false overtaken (codes "session_2") slot
      (tt, ((refl, tt), tt)) slot-IsKept

legacy_mount-payload_example :
    let s' : Machine = turns (takes expires ∷ []) (
      if is_ready_state slot.state
      then record slot { additional_info = codes "session_2" }
      else slot) in
    legacy_mount system
      (codes "smb://host/a.iso")
      false
      (secret (takes expires ∷ []) (ok (payload (codes "u") (codes "p"))))
      (codes "session_2")
      slot
    ≡ emit_event system
        (mount (
          some (record {
            img_url = codes "smb://host/a.iso";
            is_rw = false;
            mount_point = none;
            credentials = some (make_credentials (codes "u") (codes "p"));
            mount_point_nfs = none;
          })))
        s'
unfolding count
legacy_mount-payload_example =
    legacy_mount-payload system (codes "smb://host/a.iso") false (takes expires ∷ []) (codes "u")
      (codes "p") (codes "session_2") slot refl refl

-- A child that does not end is terminated after two seconds.
stop-reap_example :
    (stop (λ n. ltb n 30) ≡ (disconnect ∷ terminate ∷ on_terminate ∷ [], 2000))
    × (reap (λ n. ltb n 30) (pos 9) ≡ (terminate ∷ wait ∷ on_exit (pos 9) ∷ [], 2000))
stop-reap_example = stop-reap 30 (pos 9)
