-- ===== src/Tests/Starts.antt =====
-- The start of the service, its signals and its helpers at concrete inputs (src/main.cpp,
-- src/vm_interface.cpp, src/system.hpp, src/utils.hpp).
use virtual_media.Base.{
  ◌≡◌, refl, true, false, length, Option, Result, none, some, [], ◌∷◌, codes, if◌then◌else◌, ltb,
  ◌==◌, take, text_eq, pos, ok, err, sdbus, errc_eio, out_of_range,
}
use virtual_media.Config.{Json, object, end}
use virtual_media.Credentials.Volatile as Volatile
use virtual_media.Credentials.Volatile.{destroyed, stars, volatile_life, volatile_life_lem}
use virtual_media.Device.Open.{Udev}
use virtual_media.Retry.{Disk, Interface, Document, fails, parses}
use virtual_media.Reconnect.Paths.{
  joined, detached, terminated, comes_back, is_mounted_path_accessible,
  is_mounted_path_accessible-comes_back,
}
use virtual_media.ChildProcess.Console.{at_once, suffixes, read_console, read_console-at_once}
use virtual_media.ChildProcess.Console as Console
use virtual_media.Session.{
  SessionInfo, handle_sessions, has_key, find_removed_session_ids, find_key_for_value, erase,
  remove_sessions, set_difference, sort, ids, insert_sorted, session_ids,
}
use virtual_media.Session.Children.{failed, forked, no_child, fates_of, end_all, end_all-fates_of}
use virtual_media.Session.Signals.{
  session_interface, session_callback, session_callback-handle_sessions,
}

abbrev udev : Udev
udev = record { has_udev = true; has_monitor = true; filter_result = 0; receive_result = 0 }

abbrev disk : Disk
disk = record { reading = parses; can_write = true }

abbrev broken : Disk
broken = record { reading = fails; can_write = true }

abbrev file : Document
file = record { count = some 3; interval = some 15 }

-- A file without mount points.
abbrev empty_file : Option (Result Json)
empty_file = some (ok (object end))

abbrev interface : Interface
interface = record {
  retry_count = 3;
  retry_interval = 15;
  is_registered = true;
  json_data = file;
  file = file;
}

is_mounted_path_accessible-comes_back_example : is_mounted_path_accessible (comes_back 5 true) 5 ≡ (
    if ltb 5 5
    then (joined (pos 1), 5)
    else (if 5 == 5 then (terminated, 5) else (detached (pos 0), 5)))
is_mounted_path_accessible-comes_back_example = is_mounted_path_accessible-comes_back 5 true 4

read_console-at_once_example :
    read_console
      (Console.joined (codes "a" ∷ codes "b" ∷ []))
      (at_once (codes "a" ∷ codes "b" ∷ []))
    ≡ suffixes (codes "a" ∷ codes "b" ∷ [])
read_console-at_once_example =
    read_console-at_once (codes "a" ∷ codes "b" ∷ []) ((refl, tt), ((refl, tt), tt))

abbrev session : SessionInfo
session = record {
  session_id = 7;
  ip_address = codes "10.0.0.1";
  user_name = codes "admin";
  session_type = 1;
  privilege = 4;
  user_id = 1;
  mount_type = codes "CD";
  slot_id = codes "Slot_2";
}

session_callback-handle_sessions_example :
    (session_callback
        (ok (record {
          interface_name = session_interface;
          properties = (codes "Other", []) ∷ (codes "VmediaSessionInfo", session ∷ []) ∷ [];
        }))
        ((codes "Slot_2", 6) ∷ [])
      ≡ handle_sessions (session ∷ []) ((codes "Slot_2", 6) ∷ []))
    × (session_callback
          (ok
            (record { interface_name = session_interface; properties = (codes "Other", []) ∷ [] }))
          ((codes "Slot_2", 6) ∷ [])
        ≡ ((codes "Slot_2", 6) ∷ [], []))
    × (session_callback
          (ok (record {
            interface_name = codes "Web";
            properties = (codes "VmediaSessionInfo", session ∷ []) ∷ [];
          }))
          ((codes "Slot_2", 6) ∷ [])
        ≡ ((codes "Slot_2", 6) ∷ [], []))
    × (session_callback (err out_of_range) ((codes "Slot_2", 6) ∷ [])
        ≡ ((codes "Slot_2", 6) ∷ [], []))
unfolding text_eq
session_callback-handle_sessions_example =
    session_callback-handle_sessions ((codes "Other", []) ∷ []) [] (session ∷ []) (codes "Web")
      out_of_range ((codes "Slot_2", 6) ∷ []) (refl, tt) tt refl

volatile_life_lem_example :
    volatile_life (some (codes "/tmp/VM-a")) (some 4) true 1024 false (codes "pass") ≡ (
      if 4 == 4
      then (
        ok (
            if false
            then destroyed none
            else Volatile.terminated (
                some (
                  codes "/tmp/VM-a",
                  if true then take 1024 (stars (length (codes "pass"))) else codes "pass",
                ))),
        none,
      )
      else (err (sdbus errc_eio), some (codes "/tmp/VM-a", take 4 (codes "pass"))))
volatile_life_lem_example = volatile_life_lem (codes "/tmp/VM-a") 4 true 1024 false (codes "pass")

-- The fork for the slot fails as its session ends, and a later signal finds no session of it.
end_all-fates_of_example :
    fates_of
      (codes "Slot_2")
      (end_all
        ((λ slot. if text_eq slot (codes "Slot_2") then failed else forked (ok true), [])
          ∷ (λ slot. forked (ok true), [])
          ∷ [])
        ((codes "Slot_2", 6) ∷ (codes "Slot_3", 7) ∷ [])).1
    ≡ no_child ∷ []
unfolding text_eq has_key handle_sessions find_removed_session_ids find_key_for_value erase
    remove_sessions set_difference sort ids insert_sorted session_ids
end_all-fates_of_example =
    end_all-fates_of (codes "Slot_2")
      (λ slot. if text_eq slot (codes "Slot_2") then failed else forked (ok true)) []
      ((λ slot. forked (ok true), []) ∷ []) ((codes "Slot_2", 6) ∷ (codes "Slot_3", 7) ∷ [])
      (refl, refl, (refl, refl, tt)) refl refl
