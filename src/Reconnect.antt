-- ===== src/Reconnect.antt =====
-- How a lost mount of slots 2 and 3 is made again: `retryMount`, `handleUnmountAndRetry` and
-- `mountMonitorThread` of src/system.hpp. Nobody else writes the credentials of a slot while
-- a function runs, and the file descriptor that a call of `Mount` hands on is left out. The state
-- is that of the gadgets with the map of running retries.
pub mod Paths
pub mod Bounds
pub mod Threads
pub mod Monitoring
use virtual_media.Base.{
  ℕ, zero, suc, ◌+◌, Bool, true, false, ◌&&◌, ◌||◌, not, Option, none, some, List, [], ◌∷◌, Text,
  codes, text_eq, if◌then◌else◌, ok, err, ℤ, pos, negsuc, is_negative, pos_part, ◌==◌,
}
use virtual_media.Url.{extract_slot_number}
use virtual_media.UsbGadget.{Saved, Globals}
use virtual_media.UsbGadget.Statements.{shares_path, creds_at}

-- What the service answers on D-Bus: the reconnect settings, and by slot whether a call of
-- `Unmount` is answered, whether the slot is active before an attempt, whether a call of `Mount` is
-- answered, and whether the slot is active or its image there in a second after it.
pub record Peer : Type 0 where
  pub retry_count : ℕ
  pub retry_interval : ℕ
  pub unmount_answered : Text → Bool
  pub is_active : Text → ℕ → Bool
  pub mount_answered : Text → ℕ → Bool
  pub is_back : Text → ℕ → ℕ → Bool

pub data Call : Type 0 where
  unmount_slot : Text → Call
  mount_again : Text → Saved → Call
  -- seconds
  sleep : ℕ → Call

-- The latest call first.
pub record Reconnecting : Type 0 where
  pub globals : Globals
  -- `retryThreadCreatedMap`
  pub is_retrying : Text → Bool
  pub calls : List Call

abbrev pub add_call : Call → Reconnecting → Reconnecting
add_call c r = record r { calls = c ∷ r.calls }

unfoldable pub set_retrying : Text → Bool → Reconnecting → Reconnecting
set_retrying slot b r = record r {
  is_retrying = λ other. if text_eq slot other then b else r.is_retrying other;
}

-- `creds[slot] = nullptr`.
unfoldable pub clear_creds : ℕ → Reconnecting → Reconnecting
clear_creds slot r =
    if slot == 0
    then record r { globals = record r.globals { creds_slot_2 = none } }
    else record r { globals = record r.globals { creds_slot_3 = none } }

-- The seconds after a call of `Mount`, until the slot is back.
unfoldable pub await_mount : Peer → Text → ℕ → ℕ → ℕ → List Call → Bool × List Call
await_mount p slot attempt zero i calls = (false, calls)
await_mount p slot attempt (suc left) i calls =
    let rest = await_mount p slot attempt left (suc i) (sleep 1 ∷ calls) in
    if p.is_back slot attempt i then (true, calls) else rest

-- The attempts; whether the slot is back.
unfoldable pub attempts : Peer → Text → Saved → ℕ → ℕ → List Call → Bool × List Call
unfolding await_mount
attempts p slot c zero attempt calls = (false, calls)
attempts p slot c (suc left) attempt calls = elim (p.is_active slot attempt) [
  | true ↦ (true, calls)
  | false ↦
      let tried = mount_again slot c ∷ sleep p.retry_interval ∷ calls in
      elim (p.mount_answered slot attempt) [
        | false ↦ attempts p slot c left (suc attempt) tried
        | true ↦
            let awaited = await_mount p slot attempt 10 0 tried in
            elim awaited.0 [
              | true ↦ awaited
              | false ↦ attempts p slot c left (suc attempt) awaited.1
            ]
      ]
]

-- The credentials of a slot that is not back are dropped.
unfoldable pub after_attempts : ℕ → Bool × List Call → Reconnecting → Reconnecting
unfolding clear_creds
after_attempts slot tried r =
    let r' = record r { calls = tried.1 } in if tried.0 then r' else clear_creds slot r'

unfoldable pub retry_slot : Peer → Text → ℕ → Reconnecting → Reconnecting
unfolding attempts after_attempts creds_at
retry_slot p path slot r = elim (creds_at slot r.globals) [
  | none ↦ clear_creds slot r
  | some c ↦ after_attempts slot (attempts p path c p.retry_count 1 r.calls) r
]

-- `retryMount`; `none` where an exception ends the thread, and with it the process.
unfoldable pub retry_mount : Peer → Text → Reconnecting → Option Reconnecting
unfolding retry_slot
retry_mount p path r = elim (extract_slot_number path) [
  | err e ↦ none
  | ok n ↦ if is_negative n then some r else some (retry_slot p path (pos_part n) r)
]

-- `unMount` and the pause after it.
unfoldable pub unmount_and_sleep : Peer → Text → ℕ → Reconnecting → Option Reconnecting
unmount_and_sleep p slot seconds r =
    if p.unmount_answered slot
    then some (add_call (sleep seconds) (add_call (unmount_slot slot) r))
    else none

infixl 5 ◌>>=◌
abbrev pub ◌>>=◌ : Option Reconnecting → (Reconnecting → Option Reconnecting) → Option Reconnecting
none >>= f = none
some r >>= f = f r

unfoldable pub retry_and_finish : Peer → Text → Reconnecting → Option Reconnecting
unfolding retry_mount set_retrying
retry_and_finish p slot r = retry_mount p slot r >>= λ r'. some (set_retrying slot false r')

-- `handleUnmountAndRetry`, the settings read: both slots where they share a server.
unfoldable pub handle_unmount_and_retry : Peer → Text → Reconnecting → Option Reconnecting
handle_unmount_and_retry p path r =
    if shares_path r.globals
    then unmount_and_sleep p (codes "Slot_2") 10 r
      >>= unmount_and_sleep p (codes "Slot_3") 10
      >>= retry_and_finish p (codes "Slot_2")
      >>= retry_and_finish p (codes "Slot_3")
    else unmount_and_sleep p path 5 r >>= retry_and_finish p path

-- What `isMountedPathAccessible` returns: `statfs` did not come back, failed, or succeeded.
pub data Access : Type 0 where
  timed_out inaccessible accessible : Access

-- How a round of the monitor ends: it goes on with a path, it stops, or it stops and a retry of the
-- path is started in a thread of its own.
pub data Round : Type 0 where
  goes_on : Text → Round
  stops : Round
  retries : Text → Round

-- The marks of a retry that is started.
unfoldable pub start_retry : Text → Reconnecting → Reconnecting
unfolding set_retrying
start_retry path r =
    let marked =
      if shares_path r.globals
      then set_retrying (codes "Slot_3") true (set_retrying (codes "Slot_2") true r)
      else set_retrying path true r in
    record marked { globals = record marked.globals { is_reconnecting = true } }

-- The other of two slots that share a server, by the slot number; another number stays.
unfoldable pub other_slot : ℕ → Text → ℕ × Text
other_slot slot path =
    if slot == 0
    then (1, codes "Slot_3")
    else if slot == 1
    then (0, codes "Slot_2")
    else (slot, path)

unfoldable pub lose_path : ℕ → Text → Reconnecting → Round × Reconnecting
unfolding other_slot clear_creds
lose_path slot path r =
    if shares_path r.globals
    then (goes_on (other_slot slot path).1, clear_creds (other_slot slot path).0 r)
    else (stops, clear_creds slot r)

-- One round of `mountMonitorThread` on a path with its slot number.
unfoldable pub monitor_round : ℕ → Text → Access → Reconnecting → Round × Reconnecting
unfolding start_retry lose_path
monitor_round slot path timed_out r =
    if r.is_retrying path then (stops, r) else (retries path, start_retry path r)
monitor_round slot path inaccessible r =
    if r.is_retrying path then (goes_on path, r) else lose_path slot path r
monitor_round slot path accessible r = (goes_on path, r)
