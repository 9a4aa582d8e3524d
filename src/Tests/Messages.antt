-- ===== src/Tests/Messages.antt =====
-- Devices and notifications at concrete inputs (src/system.hpp, src/utils.hpp).
use virtual_media.Base.{
  ℕ, ◌≡◌, refl, true, Option, none, some, List, [], ◌∷◌, Text, codes, ◌≢◌, pos, arith, text_eq,
  if◌then◌else◌,
}
use virtual_media.Device.{
  nbd0, nbd1, unknown, removed, inserted, Devices, UdevMessage, get_state, monitor, receive, parse,
}
use virtual_media.Device.Monitor.{replay, monitor-replay}
use virtual_media.Notification.{
  Notification, start, notify, expire, run_aborted, Op, starts, notifies, expires, runs_aborted,
}
use virtual_media.Notification.Laws.{notify-expire, notify-run_aborted}

abbrev two_devices : Devices
two_devices = (nbd0, removed) ∷ (nbd1, inserted) ∷ []

-- The size texts of the tests are "0" and "8".
abbrev size_of : Text → Option ℕ
size_of s = if text_eq s (codes "0") then some 0 else if text_eq s (codes "8") then some 8 else none

abbrev message : Text → Text → UdevMessage
message name size = record {
  action = some (codes "change");
  sysname = some name;
  size_text = some size;
  stoul = size_of;
}

-- A device is inserted, reported again, and removed; another one is removed.
abbrev messages : List UdevMessage
messages =
    message (codes "nbd0") (codes "8")
    ∷ message (codes "nbd0") (codes "8")
    ∷ message (codes "nbd1") (codes "0")
    ∷ message (codes "nbd0") (codes "0")
    ∷ []

monitor_run :
    (monitor messages two_devices).1 ≡ (nbd0, inserted) ∷ (nbd1, removed) ∷ (nbd0, removed) ∷ []
unfolding monitor receive text_eq
monitor_run = refl

monitor-replay_example :
    replay nbd0 (get_state nbd0 two_devices) (monitor messages two_devices).1
    ≡ some (get_state nbd0 (monitor messages two_devices).0)
monitor-replay_example = monitor-replay nbd0 messages two_devices

nbd10_known : parse (some (codes "nbd10")) ≢ unknown
unfolding parse text_eq
nbd10_known = ground arith

abbrev mount_twice : List Op
mount_twice = starts (pos 35) ∷ notifies 0 ∷ starts (pos 35) ∷ expires ∷ runs_aborted ∷ []

abbrev waiting : Notification
waiting = record { started = true; waiting = some (pos 35); aborted = 1; sent = 0 ∷ [] }

notify-expire_example :
    ((expire waiting).sent ≡ 0 ∷ []) × ((notify 22 (expire waiting)).sent ≡ 0 ∷ [])
notify-expire_example = notify-expire 22 waiting refl

notify-run_aborted_example : (notify 0 (run_aborted (start (pos 35) waiting))).sent ≡ 0 ∷ []
unfolding notify run_aborted start
notify-run_aborted_example = notify-run_aborted (pos 35) 0 waiting refl
