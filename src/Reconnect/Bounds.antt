-- ===== src/Reconnect/Bounds.antt =====
-- How often a mount is tried again, and for how long (src/system.hpp).
use virtual_media.Base.{
  ℕ, zero, suc, ◌+◌, ◌*◌, ◌≤◌, ◌≡◌, refl, ◌⊎◌, inl, inr, Bool, true, none, Option-cases, List, [],
  ◌∷◌, Text, arith, Bool-cases,
}
use virtual_media.UsbGadget.{Saved}
use virtual_media.UsbGadget.Statements.{creds_at}
use virtual_media.Reconnect.{
  Peer, Call, unmount_slot, mount_again, sleep, Reconnecting, await_mount, attempts, after_attempts,
  retry_slot, clear_creds,
}

abbrev pub mounts : List Call → ℕ
mounts [] = 0
mounts (mount_again slot c ∷ calls) = suc (mounts calls)
mounts (unmount_slot slot ∷ calls) = mounts calls
mounts (sleep n ∷ calls) = mounts calls

abbrev pub seconds : List Call → ℕ
seconds [] = 0
seconds (mount_again slot c ∷ calls) = seconds calls
seconds (unmount_slot slot ∷ calls) = seconds calls
seconds (sleep n ∷ calls) = n + seconds calls

await_mount-Bounds :
    (p : Peer) (slot : Text) (attempt left i : ℕ) (calls : List Call)
    → let r = await_mount p slot attempt left i calls in
      (mounts r.1 ≡ mounts calls) × (seconds r.1 ≤ left + seconds calls)
unfolding await_mount
await_mount-Bounds p slot attempt zero i calls = (refl, omega arith)
await_mount-Bounds p slot attempt (suc left) i calls =
    ground (arith, await_mount-Bounds p slot attempt left (suc i) (sleep 1 ∷ calls))

attempts-Bounds :
    (p : Peer) (slot : Text) (c : Saved) (left attempt : ℕ) (calls : List Call)
    → let r = attempts p slot c left attempt calls in
      (mounts r.1 ≤ left + mounts calls)
      × (seconds r.1 ≤ left * (p.retry_interval + 10) + seconds calls)
      × ((r.0 ≡ true) ⊎ (mounts r.1 ≡ left + mounts calls))
unfolding attempts
attempts-Bounds p slot c zero attempt calls = (omega arith, omega arith, inr (omega arith))
attempts-Bounds p slot c (suc left) attempt calls = elim (Bool-cases (p.is_active slot attempt)) [
  | inl a ↦ rw (a, attempts) (omega arith, ground arith, inl refl)
  | inr a ↦
      let tried : List Call = mount_again slot c ∷ sleep p.retry_interval ∷ calls in
      let awaited : Bool × List Call = await_mount p slot attempt 10 0 tried in
      elim (Bool-cases (p.mount_answered slot attempt)) [
        | inr m ↦
            rw (a, attempts)
              (rw (m, attempts) (ground (arith, attempts-Bounds p slot c left (suc attempt) tried)))
        | inl m ↦ elim (Bool-cases awaited.0) [
          | inl b ↦
              rw (a, attempts)
                (rw (m, attempts)
                  (rw (b, attempts)
                    (ground (arith, await_mount-Bounds p slot attempt 10 0 tried, b))))
          | inr b ↦
              rw (a, attempts)
                (rw (m, attempts)
                  (rw (b, attempts)
                    (ground (
                      arith,
                      await_mount-Bounds p slot attempt 10 0 tried,
                      attempts-Bounds p slot c left (suc attempt) awaited.1,
                    ))))
        ]
      ]
]

-- A retry calls `Mount` at most as often as the settings say, and lets at most the interval and ten
-- seconds pass for each; it leaves the credentials as they are, or drops those of the slot, which
-- were missing or for which all the calls were made.
pub retry_slot-Bounds :
    (p : Peer) (path : Text) (slot : ℕ) (r : Reconnecting)
    → let r' = retry_slot p path slot r in
      (mounts r'.calls ≤ p.retry_count + mounts r.calls)
      × (seconds r'.calls ≤ p.retry_count * (p.retry_interval + 10) + seconds r.calls)
      × ((r'.globals ≡ r.globals)
          ⊎ ((creds_at slot r'.globals ≡ none)
              × ((creds_at slot r.globals ≡ none)
                  ⊎ (mounts r'.calls ≡ p.retry_count + mounts r.calls))))
unfolding retry_slot clear_creds creds_at after_attempts
retry_slot-Bounds p path slot r = elim (Option-cases (creds_at slot r.globals)) [
  | inl e ↦ ground (arith, e)
  | inr (c, e) ↦
      let tried : Bool × List Call = attempts p path c p.retry_count 1 r.calls in
      rw (e, retry_slot)
        (elim (Bool-cases tried.0) [
          | inl b ↦
              rw (b, after_attempts)
                (ground (arith, b, attempts-Bounds p path c p.retry_count 1 r.calls))
          | inr b ↦
              rw (b, after_attempts)
                (ground (arith, b, attempts-Bounds p path c p.retry_count 1 r.calls))
        ])
]
