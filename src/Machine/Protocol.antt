-- ===== src/Machine/Protocol.antt =====
-- What a mount point promises its clients: the phases of the machine, the moves between them and
-- the codes that the client of a request is told (src/state, src/state_machine.hpp).
-- A phase keeps of a state whether a request is open, that is not answered yet, and what a
-- machine that deactivates has seen.
pub mod Answers
pub mod Replies
pub mod Activation
pub mod Phases
pub mod Leaving
pub mod Mounting
pub mod Refine
pub mod Success
pub mod Histories
use virtual_media.Base.{
  ℕ, ◌≡◌, Bool, true, false, Option, none, some, List, [], ◌∷◌, ◌++◌, if◌then◌else◌, ◌==◌,
  errc_econnrefused,
}
use virtual_media.Device.{StateChange, not_monitored, removed, inserted}
use virtual_media.Machine.Types.{
  Target, Event, register_dbus, mount, unmount, subprocess_stopped, udev_state_change, System,
}
use virtual_media.Machine.Run.{Input, emits, expires, runs_aborted}

-- The arguments: whether a request is open, the change of the device that was seen, and whether
-- the process has stopped.
pub data Phase : Type 0 where
  idle : Phase
  mounting : Bool → Phase
  mounted : Phase
  leaving : Bool → Option StateChange → Bool → Phase

-- What the client is told: nothing where no request is open.
abbrev pub told : Bool → ℕ → List ℕ
told o ec = if o then ec ∷ [] else []

-- How a deactivation ends, by the last change of the device.
abbrev pub leaving_code : StateChange → ℕ
leaving_code removed = 0
leaving_code _ = errc_econnrefused

-- Inputs that a phase does not react to, refused or ignored.
abbrev pub IsIdled : Event → Type 0
IsIdled (mount t) = ⊥
IsIdled _ = Unit

abbrev pub IsBusy : Event → Type 0
IsBusy (udev_state_change c) = ⊥
IsBusy subprocess_stopped = ⊥
IsBusy _ = Unit

abbrev pub IsKept : Event → Type 0
IsKept (mount t) = Unit
IsKept register_dbus = Unit
IsKept _ = ⊥

abbrev pub IsLoss : StateChange → Type 0
IsLoss inserted = ⊥
IsLoss _ = Unit

-- The moves, with the codes told. `ec` is never 0, which stands for success.
pub data Move : Phase → Input → List ℕ → Phase → Type 0 where
  idles : (sys : System) (e : Event) → IsIdled e → Move idle (emits sys e) [] idle
  opens : (sys : System) (t : Option Target) → Move idle (emits sys (mount t)) [] (mounting true)
  fails :
      (sys : System) (t : Option Target) (ec : ℕ)
      → (ec == 0) ≡ false
      → Move idle (emits sys (mount t)) (ec ∷ []) idle
  waits :
      (o : Bool) (sys : System) (e : Event)
      → IsBusy e
      → Move (mounting o) (emits sys e) [] (mounting o)
  succeeds :
      (o : Bool) (sys : System)
      → Move (mounting o) (emits sys (udev_state_change inserted)) (told o 0) mounted
  rejects :
      (o : Bool) (sys : System) (ec : ℕ)
      → (ec == 0) ≡ false
      → Move (mounting o) (emits sys (udev_state_change inserted)) (told o ec) idle
  breaks :
      (o : Bool) (sys : System) (ec : ℕ)
      → (ec == 0) ≡ false
      → Move (mounting o) (emits sys subprocess_stopped) (told o ec) idle
  loses :
      (o : Bool) (sys : System) (c : StateChange)
      → IsLoss c
      → Move (mounting o) (emits sys (udev_state_change c)) [] (leaving o (some c) false)
  keeps : (sys : System) (e : Event) → IsKept e → Move mounted (emits sys e) [] mounted
  unmounts : (sys : System) → Move mounted (emits sys unmount) [] (leaving true none false)
  exits : (sys : System) → Move mounted (emits sys subprocess_stopped) [] (leaving false none true)
  drops :
      (sys : System) (c : StateChange)
      → Move mounted (emits sys (udev_state_change c)) [] (leaving false (some c) false)
  stays :
      (o : Bool) (u : Option StateChange) (b : Bool) (sys : System) (e : Event)
      → IsBusy e
      → Move (leaving o u b) (emits sys e) [] (leaving o u b)
  sees :
      (o : Bool) (u : Option StateChange) (sys : System) (c : StateChange)
      → Move (leaving o u false) (emits sys (udev_state_change c)) [] (leaving o (some c) false)
  stops :
      (o b : Bool) (sys : System)
      → Move (leaving o none b) (emits sys subprocess_stopped) [] (leaving o none true)
  ends_seen :
      (o : Bool) (u : Option StateChange) (sys : System) (c : StateChange)
      → Move (leaving o u true) (emits sys (udev_state_change c)) (told o (leaving_code c)) idle
  ends_stopped :
      (o b : Bool) (sys : System) (c : StateChange)
      → Move (leaving o (some c) b) (emits sys subprocess_stopped) (told o (leaving_code c)) idle
  -- the timer ends, or a handler of an earlier wait runs late: the request is given up untold
  forgets_mounting : (o : Bool) → Move (mounting o) expires [] (mounting false)
  forgets_leaving :
      (o : Bool) (u : Option StateChange) (b : Bool)
      → Move (leaving o u b) expires [] (leaving false u b)
  late_mounting : (o : Bool) → Move (mounting o) runs_aborted [] (mounting false)
  late_leaving :
      (o : Bool) (u : Option StateChange) (b : Bool)
      → Move (leaving o u b) runs_aborted [] (leaving false u b)
  -- no wait runs, or no handler is late
  expires_none : (p : Phase) → Move p expires [] p
  late_none : (p : Phase) → Move p runs_aborted [] p

-- Several moves, one after the other, and the codes told, the latest first.
pub data Moves : Phase → List Input → List ℕ → Phase → Type 0 where
  rests : (p : Phase) → Moves p [] [] p
  moves :
      {p q r : Phase} {i : Input} {is : List Input} {cs ds : List ℕ}
      → Move p i cs q
      → Moves q is ds r
      → Moves p (i ∷ is) (ds ++ cs) r
