-- ===== src/Tests/Sessions.antt =====
-- Sessions and reconnects at concrete inputs (src/system.hpp).
use virtual_media.Base.{
  ◌≡◌, refl, true, false, none, some, [], ◌∷◌, codes, arith, find_last_of, text_eq, min, ◌+◌,
}
use virtual_media.Retry.{Interface, get_all, set_many}
use virtual_media.Session.{
  Sessions, SessionInfo, handle_sessions, session_ids, find_removed_session_ids, set_difference,
  sort, insert_sorted, has_key,
}
use virtual_media.Session.Order.{occurrences}
use virtual_media.Session.Count.{count_of, IsMap, handle_sessions-count}
use virtual_media.Session.Slots.{times, presence, handle_sessions-presence}
use virtual_media.Url.{get_path_without_file_name}
use virtual_media.UsbGadget.{Saved}
use virtual_media.UsbGadget.Statements.{creds_at, shares_path, is_same_path}
use virtual_media.Reconnect.{
  Peer, Reconnecting, inaccessible, goes_on, monitor_round, handle_unmount_and_retry,
}
use virtual_media.Reconnect.Threads.{Within, handle_unmount_and_retry-set_many}
use virtual_media.Reconnect.Monitoring.{CallsNoMount, monitor_round-CallsNoMount}

-- One session has mounted two slots.
abbrev sessions : Sessions
sessions = (codes "Slot_2", 7) ∷ (codes "Slot_3", 7) ∷ []

abbrev session : SessionInfo
session = record {
  session_id = 7;
  ip_address = codes "10.0.0.1";
  user_name = codes "root";
  session_type = 2;
  privilege = 4;
  user_id = 1;
  mount_type = codes "remote";
  slot_id = codes "Slot_3";
}

sessions-IsMap : IsMap sessions
unfolding has_key text_eq
sessions-IsMap = (refl, refl, (refl, refl, tt))

-- The session is still there, and one of its slots is unmounted.
removes_one : find_removed_session_ids (7 ∷ 7 ∷ []) (7 ∷ []) ≡ 7 ∷ []
unfolding find_removed_session_ids set_difference sort insert_sorted
removes_one = refl

handle_sessions-count_example :
    count_of 7 (handle_sessions (session ∷ []) sessions).0
    ≡ min (count_of 7 sessions) (occurrences 7 (session_ids (session ∷ [])))
handle_sessions-count_example = handle_sessions-count 7 (session ∷ []) sessions sessions-IsMap

handle_sessions-presence_example :
    presence (codes "Slot_2") (handle_sessions (session ∷ []) sessions).0
      + times (codes "Slot_2") (handle_sessions (session ∷ []) sessions).1
    ≡ presence (codes "Slot_2") sessions
handle_sessions-presence_example =
    handle_sessions-presence (codes "Slot_2") (session ∷ []) sessions sessions-IsMap

-- Both slots have an image of one server.
abbrev saved : Saved
saved = record {
  url = codes "smb://host/a.iso";
  is_rw = false;
  additional_info = codes "session_7";
}

abbrev reconnecting : Reconnecting
reconnecting = record {
  globals = record {
    active_sessions = sessions;
    creds_slot_2 = some saved;
    creds_slot_3 = some saved;
    is_reconnecting = false;
    trace = [];
  };
  is_retrying = λ slot. false;
  calls = [];
}

-- Every call is answered, and no slot comes back.
abbrev peer : Peer
peer = record {
  retry_count = 3;
  retry_interval = 15;
  unmount_answered = λ slot. true;
  is_active = λ slot attempt. false;
  mount_answered = λ slot attempt. true;
  is_back = λ slot attempt i. false;
}

abbrev interface : Interface
interface = record {
  retry_count = 3;
  retry_interval = 15;
  is_registered = true;
  json_data = record { count = none; interval = none };
  file = record { count = none; interval = none };
}

handle_unmount_and_retry-set_many_example :
    Within 12 500 reconnecting (handle_unmount_and_retry peer (codes "Slot_2") reconnecting)
unfolding get_all set_many
handle_unmount_and_retry-set_many_example =
    handle_unmount_and_retry-set_many [] interface peer (codes "Slot_2") reconnecting
      (record {
        count_low = omega arith;
        count_high = omega arith;
        interval_low = omega arith;
        interval_high = omega arith;
      })
      refl

monitor_round-CallsNoMount_example :
    let (round, r') = monitor_round 0 (codes "Slot_2") inaccessible reconnecting in
    (round ≡ goes_on (codes "Slot_3"))
    × (creds_at 0 r'.globals ≡ some saved)
    × CallsNoMount r' (handle_unmount_and_retry peer (codes "Slot_3") r')
unfolding creds_at shares_path is_same_path text_eq get_path_without_file_name find_last_of
monitor_round-CallsNoMount_example = monitor_round-CallsNoMount peer false reconnecting refl refl
