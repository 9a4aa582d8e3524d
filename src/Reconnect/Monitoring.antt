-- ===== src/Reconnect/Monitoring.antt =====
-- What the monitor of two slots that share a server leaves for a reconnect (src/system.hpp).
use virtual_media.Base.{
  ℕ, ◌≡◌, ok, pos, ◌∷◌, find_last_of, refl, Bool, true, false, not, Option, none, some, Text, codes,
  arith, Bool-cases, inl, inr, if◌then◌else◌,
}
use virtual_media.Url.{extract_slot_number}
use virtual_media.UsbGadget.{Globals}
use virtual_media.UsbGadget.Statements.{shares_path, creds_at, is_same_path}
use virtual_media.Reconnect.{
  Peer, Reconnecting, inaccessible, goes_on, monitor_round, lose_path, other_slot, clear_creds,
  sleep, unmount_slot, handle_unmount_and_retry, unmount_and_sleep, retry_and_finish, retry_mount,
  retry_slot, set_retrying,
}
use virtual_media.Reconnect.Bounds.{mounts}

abbrev pub slot_of : Bool → ℕ
slot_of third = if third then 1 else 0

abbrev pub name_of : Bool → Text
name_of third = if third then codes "Slot_3" else codes "Slot_2"

-- No call of `Mount` more.
abbrev pub CallsNoMount : Reconnecting → Option Reconnecting → Type 0
CallsNoMount r none = Unit
CallsNoMount r (some r') = mounts r'.calls ≡ mounts r.calls

slot_of-name_of : (third : Bool) → extract_slot_number (name_of third) ≡ ok (pos (slot_of third))
unfolding extract_slot_number find_last_of
slot_of-name_of true = refl
slot_of-name_of false = refl

missing_retry-CallsNoMount :
    (p : Peer) (third : Bool) (r : Reconnecting)
    → creds_at (slot_of third) r.globals ≡ none
    → CallsNoMount r (retry_and_finish p (name_of third) r)
unfolding retry_and_finish retry_mount retry_slot set_retrying clear_creds
missing_retry-CallsNoMount p third r c =
    rw (slot_of-name_of third, CallsNoMount) (rw (c, retry_slot) (ground arith))

missing_slot-CallsNoMount :
    (p : Peer) (third : Bool) (r : Reconnecting)
    → shares_path r.globals ≡ false
    → creds_at (slot_of third) r.globals ≡ none
    → CallsNoMount r (handle_unmount_and_retry p (name_of third) r)
unfolding handle_unmount_and_retry unmount_and_sleep
missing_slot-CallsNoMount p third r e c = elim (Bool-cases (p.unmount_answered (name_of third))) [
  | inr u ↦ rw (e, CallsNoMount) (rw (u, CallsNoMount) tt)
  | inl u ↦
      rw (e, CallsNoMount)
        (rw (u, CallsNoMount)
          (missing_retry-CallsNoMount p third
            (record r { calls = sleep 5 ∷ unmount_slot (name_of third) ∷ r.calls }) c))
]

shares_path-missing :
    (third : Bool) (g : Globals) → creds_at (slot_of third) g ≡ none → shares_path g ≡ false
unfolding shares_path is_same_path creds_at
shares_path-missing true g c = ground (arith, c)
shares_path-missing false g c = ground (arith, c)

-- Of two slots that share a server and have no retry running, one is monitored and its path fails:
-- the monitor goes on with the other slot, keeps the credentials of the one that was lost, and
-- drops those of the other, so that no reconnect of it calls `Mount`.
pub monitor_round-CallsNoMount :
    (p : Peer) (third : Bool) (r : Reconnecting)
    → r.is_retrying (name_of third) ≡ false
    → shares_path r.globals ≡ true
    → let (round, r') = monitor_round (slot_of third) (name_of third) inaccessible r in
      (round ≡ goes_on (name_of (not third)))
      × (creds_at (slot_of third) r'.globals ≡ creds_at (slot_of third) r.globals)
      × CallsNoMount r' (handle_unmount_and_retry p (name_of (not third)) r')
unfolding monitor_round lose_path other_slot clear_creds creds_at
monitor_round-CallsNoMount p true r q e =
    let r' : Reconnecting = clear_creds 0 r in
    rw q (
      rw (e, lose_path)
        (
          refl,
          refl,
          missing_slot-CallsNoMount p false r' (shares_path-missing false r'.globals refl) refl,
        ))
monitor_round-CallsNoMount p false r q e =
    let r' : Reconnecting = clear_creds 1 r in
    rw q (
      rw (e, lose_path)
        (
          refl,
          refl,
          missing_slot-CallsNoMount p true r' (shares_path-missing true r'.globals refl) refl,
        ))
