-- ===== src/Machine/Protocol/Answers.antt =====
-- The moves of a mount point: requests are answered once, and a removed device whose process
-- has stopped is given up (src/state).
use virtual_media.Base.{ℕ, ◌+◌, ◌≡◌, refl, Bool, true, false, List, if◌then◌else◌, length, arith}
use virtual_media.Device.{removed}
use virtual_media.Machine.Types.{mount, unmount, subprocess_stopped, udev_state_change, System}
use virtual_media.Machine.Run.{Input, emits}
use virtual_media.Machine.Protocol.{
  Phase, idle, mounting, mounted, leaving, told, Move, idles, opens, fails, waits, succeeds,
  rejects, breaks, loses, keeps, unmounts, exits, drops, stays, sees, stops, ends_seen,
  ends_stopped, forgets_mounting, forgets_leaving, late_mounting, late_leaving, expires_none,
  late_none,
}

-- Requests that are open.
abbrev pub open_requests : Phase → ℕ
open_requests idle = 0
open_requests (mounting o) = if o then 1 else 0
open_requests mounted = 0
open_requests (leaving o u b) = if o then 1 else 0

-- Requests that are accepted: a mount of an idle mount point and an unmount of a mounted one.
abbrev pub accepts : Phase → Input → ℕ
accepts idle (emits sys (mount t)) = 1
accepts mounted (emits sys unmount) = 1
accepts _ _ = 0

abbrev pub IsEvent : Input → Type 0
IsEvent (emits sys e) = Unit
IsEvent _ = ⊥

length-told : (o : Bool) (ec : ℕ) → length (told o ec) ≡ (if o then 1 else 0)
length-told true ec = refl
length-told false ec = refl

-- A move that is an event conserves the requests: one that was open or is accepted is told its
-- code or is open.
pub Move-count :
    {p q : Phase} {i : Input} {cs : List ℕ}
    → Move p i cs q
    → IsEvent i
    → length cs + open_requests q ≡ open_requests p + accepts p i
Move-count (idles sys e h) v = ground arith
Move-count (opens sys t) v = refl
Move-count (fails sys t ec h) v = refl
Move-count (waits o sys e h) v = omega arith
Move-count (succeeds o sys) v = omega (arith, length-told o 0)
Move-count (rejects o sys ec h) v = omega (arith, length-told o ec)
Move-count (breaks o sys ec h) v = omega (arith, length-told o ec)
Move-count (loses o sys c h) v = omega arith
Move-count (keeps sys e h) v = ground arith
Move-count (unmounts sys) v = refl
Move-count (exits sys) v = refl
Move-count (drops sys c) v = refl
Move-count (stays o u b sys e h) v = omega arith
Move-count (sees o u sys c) v = omega arith
Move-count (stops o b sys) v = omega arith
Move-count (ends_seen o u sys c) v = omega (arith, length-told o _)
Move-count (ends_stopped o b sys c) v = omega (arith, length-told o _)
Move-count (forgets_mounting o) v = absurd v
Move-count (forgets_leaving o u b) v = absurd v
Move-count (late_mounting o) v = absurd v
Move-count (late_leaving o u b) v = absurd v
Move-count (expires_none p) v = absurd v
Move-count (late_none p) v = absurd v

-- The removal of the device and the end of the process, in either order, lead to the idle phase,
-- from every phase.
pub removed_stopped-idle :
    {p q r : Phase} {sys later : System} {cs ds : List ℕ}
    → Move p (emits sys (udev_state_change removed)) cs q
    → Move q (emits later subprocess_stopped) ds r
    → r ≡ idle
removed_stopped-idle (waits o sys e h) m = absurd h
removed_stopped-idle (keeps sys e h) m = absurd h
removed_stopped-idle (stays o u b sys e h) m = absurd h
removed_stopped-idle (loses o sys c h) (stays o' u b later e h') = absurd h'
removed_stopped-idle (drops sys c) (stays o' u b later e h') = absurd h'
removed_stopped-idle (sees o u sys c) (stays o' u' b later e h') = absurd h'
removed_stopped-idle (idles sys e h) (idles later e' h') = refl
removed_stopped-idle (loses o sys c h) (ends_stopped o' b later c') = refl
removed_stopped-idle (drops sys c) (ends_stopped o' b later c') = refl
removed_stopped-idle (sees o u sys c) (ends_stopped o' b later c') = refl
removed_stopped-idle (ends_seen o u sys c) (idles later e' h') = refl

pub stopped_removed-idle :
    {p q r : Phase} {sys later : System} {cs ds : List ℕ}
    → Move p (emits sys subprocess_stopped) cs q
    → Move q (emits later (udev_state_change removed)) ds r
    → r ≡ idle
stopped_removed-idle (waits o sys e h) m = absurd h
stopped_removed-idle (keeps sys e h) m = absurd h
stopped_removed-idle (stays o u b sys e h) m = absurd h
stopped_removed-idle (exits sys) (stays o' u b later e h') = absurd h'
stopped_removed-idle (stops o b sys) (stays o' u b' later e h') = absurd h'
stopped_removed-idle (idles sys e h) (idles later e' h') = refl
stopped_removed-idle (breaks o sys ec h) (idles later e' h') = refl
stopped_removed-idle (exits sys) (ends_seen o u later c) = refl
stopped_removed-idle (stops o b sys) (ends_seen o' u later c) = refl
stopped_removed-idle (ends_stopped o b sys c) (idles later e' h') = refl
