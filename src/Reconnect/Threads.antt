-- ===== src/Reconnect/Threads.antt =====
-- What the thread that makes lost mounts again does and how long it sleeps (src/system.hpp).
use virtual_media.Base.{
  ℕ, ◌+◌, ◌*◌, ◌≤◌, ◌≡◌, inl, inr, Option, none, some, codes, Result-cases, is_negative, pos_part,
  List, Text, arith, Bool-cases,
}
use native.Mathlib.Nat.{mul-le-mul}
use virtual_media.Url.{extract_slot_number}
use virtual_media.UsbGadget.Statements.{shares_path}
use virtual_media.Retry.{Disk, Interface, get_all, set_many}
use virtual_media.Retry.Bounds.{InRange, set_many-InRange}
use virtual_media.Reconnect.{
  Peer, Reconnecting, ◌>>=◌, unmount_and_sleep, retry_and_finish, retry_mount, set_retrying,
  handle_unmount_and_retry,
}
use virtual_media.Reconnect.Bounds.{mounts, seconds, retry_slot-Bounds}

-- No more calls of `Mount` and no more seconds than these, where the process goes on.
abbrev pub Within : ℕ → ℕ → Reconnecting → Option Reconnecting → Type 0
Within m s r none = Unit
Within m s r (some r') =
    (mounts r'.calls ≤ m + mounts r.calls) × (seconds r'.calls ≤ s + seconds r.calls)

widen :
    (m s m' s' : ℕ) (r r' : Reconnecting) (o : Option Reconnecting)
    → Within m s r (some r')
    → Within m' s' r' o
    → Within (m + m') (s + s') r o
widen m s m' s' r r' none h k = tt
widen m s m' s' r r' (some r'') h k = (omega arith, omega arith)

bind-Within :
    (m s m' s' : ℕ) (r : Reconnecting) (o : Option Reconnecting)
    (f : Reconnecting → Option Reconnecting)
    → Within m s r o
    → ((r' : Reconnecting) → Within m' s' r' (f r'))
    → Within (m + m') (s + s') r (o >>= f)
bind-Within m s m' s' r none f h k = tt
bind-Within m s m' s' r (some r') f h k = widen m s m' s' r r' (f r') h (k r')

relax :
    (m s m' s' : ℕ) (r : Reconnecting) (o : Option Reconnecting)
    → m ≤ m'
    → s ≤ s'
    → Within m s r o
    → Within m' s' r o
relax m s m' s' r none h k w = tt
relax m s m' s' r (some r') h k w = (omega arith, omega arith)

unmount_and_sleep-Within :
    (p : Peer) (slot : Text) (n : ℕ) (r : Reconnecting)
    → Within 0 n r (unmount_and_sleep p slot n r)
unfolding unmount_and_sleep
unmount_and_sleep-Within p slot n r = ground arith

retry_and_finish-Within :
    (p : Peer) (slot : Text) (r : Reconnecting)
    → Within p.retry_count (p.retry_count * (p.retry_interval + 10)) r (retry_and_finish p slot r)
unfolding retry_and_finish retry_mount set_retrying
retry_and_finish-Within p slot r = elim (Result-cases (extract_slot_number slot)) [
  | inl (x, e) ↦ rw (e, Within) tt
  | inr (n, e) ↦ elim (Bool-cases (is_negative n)) [
    | inl k ↦ rw (e, Within) (rw (k, Within) (omega arith, omega arith))
    | inr k ↦
        rw (e, Within)
          (rw (k, Within) (let b = retry_slot-Bounds p slot (pos_part n) r in (b.0, b.1)))
  ]
]

-- The thread that makes the mounts again, of one slot or of both, calls `Mount` at most twice as
-- often as the settings say, and sleeps at most twenty seconds more than the retries.
pub handle_unmount_and_retry-Within :
    (p : Peer) (path : Text) (r : Reconnecting)
    → Within
        (2 * p.retry_count)
        (20 + 2 * (p.retry_count * (p.retry_interval + 10)))
        r
        (handle_unmount_and_retry p path r)
unfolding handle_unmount_and_retry
handle_unmount_and_retry-Within p path r =
    let t : ℕ = p.retry_count * (p.retry_interval + 10) in
    let two : Text = codes "Slot_2" in
    let three : Text = codes "Slot_3" in
    let first : Option Reconnecting = unmount_and_sleep p two 10 r in
    let both : Option Reconnecting = first >>= unmount_and_sleep p three 10 in
    elim (Bool-cases (shares_path r.globals)) [
      | inl e ↦
          rw (e, Within)
            (relax (0 + 0 + p.retry_count + p.retry_count) (10 + 10 + t + t) (2 * p.retry_count)
              (20 + 2 * t) r (both >>= retry_and_finish p two >>= retry_and_finish p three)
              (omega arith) (omega arith)
              (bind-Within (0 + 0 + p.retry_count) (10 + 10 + t) p.retry_count t r
                (both >>= retry_and_finish p two) (retry_and_finish p three)
                (bind-Within (0 + 0) (10 + 10) p.retry_count t r both (retry_and_finish p two)
                  (bind-Within 0 10 0 10 r first (unmount_and_sleep p three 10)
                    (unmount_and_sleep-Within p two 10 r) (unmount_and_sleep-Within p three 10))
                  (retry_and_finish-Within p two))
                (retry_and_finish-Within p three)))
      | inr e ↦
          rw (e, Within)
            (relax (0 + p.retry_count) (5 + t) (2 * p.retry_count) (20 + 2 * t) r
              (unmount_and_sleep p path 5 r >>= retry_and_finish p path) (omega arith) (omega arith)
              (bind-Within 0 5 p.retry_count t r (unmount_and_sleep p path 5 r)
                (retry_and_finish p path) (unmount_and_sleep-Within p path 5 r)
                (retry_and_finish-Within p path)))
    ]

product_le : (n d : ℕ) → n ≤ 6 → d ≤ 30 → n * (d + 10) ≤ 240
product_le n d h k = let wide : d + 10 ≤ 40 = omega arith in omega (arith, mul-le-mul h wide)

-- The settings are those of the interface after any calls of SetAll, from settings in their ranges:
-- the thread calls `Mount` at most twelve times and sleeps at most 500 seconds.
pub handle_unmount_and_retry-set_many :
    (disk_calls : List (Disk × (ℕ × ℕ))) (s : Interface) (p : Peer) (path : Text) (r : Reconnecting)
    → InRange s
    → (p.retry_count, p.retry_interval) ≡ get_all (set_many disk_calls s)
    → Within 12 500 r (handle_unmount_and_retry p path r)
unfolding get_all
handle_unmount_and_retry-set_many disk_calls s p path r h e =
    let i = set_many-InRange disk_calls s h in
    let count : p.retry_count ≤ 6 = ground (arith, i.count_high, e) in
    let interval : p.retry_interval ≤ 30 = ground (arith, i.interval_high, e) in
    let product = product_le p.retry_count p.retry_interval count interval in
    relax (2 * p.retry_count) (20 + 2 * (p.retry_count * (p.retry_interval + 10))) 12 500 r
      (handle_unmount_and_retry p path r) (omega arith) (omega arith)
      (handle_unmount_and_retry-Within p path r)
