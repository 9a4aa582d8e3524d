-- ===== src/Device/Monitor.antt =====
-- What the callbacks of `DeviceMonitor::run` (src/system.hpp) tell of a device.
use virtual_media.Base.{
  ℕ, ◌≡◌, refl, ◌≢◌, Bool, true, false, Option, none, some, List, [], ◌∷◌, arith, ◌==◌,
  if◌then◌else◌, Bool-cases, Option-cases, inl, inr, sym, ap, ◌∙◌, ltb, not, ◌&&◌,
}
use virtual_media.Device.{
  NbdDevice, StateChange, not_monitored, removed, inserted, Devices, device_eq, find_device,
  set_device, get_state, UdevMessage, receive, report, receive_known, read_size, monitor, parse,
  is_known, is_change, is_inserted, is_removed,
}
use virtual_media.Device.Names.{device_eq_iff}

pub find_device-set_device :
    (d e : NbdDevice) (s t : StateChange) (ds : Devices)
    → find_device d ds ≡ some t
    → find_device e (set_device d s ds) ≡ (if device_eq d e then some s else find_device e ds)
unfolding find_device set_device
find_device-set_device d e s t [] h = cc
find_device-set_device d e s t ((c, u) ∷ ds) h = ground (
  arith,
  device_eq_iff c d,
  device_eq_iff c e,
  device_eq_iff d e,
  find_device-set_device d e s t ds,
)

-- What a round does to the state of each device: with a callback for a device, that device had
-- another state and now has the reported one, and every other device is as it was; with no
-- callback nothing changes.
abbrev pub Reports : Devices → Devices × Option (NbdDevice × StateChange) → Type 0
Reports ds (ds', none) = ds' ≡ ds
Reports ds (ds', some (d, s)) =
    (get_state d ds ≢ s)
    × ((e : NbdDevice) → get_state e ds' ≡ (if device_eq d e then s else get_state e ds))

set_device-Reports :
    (d : NbdDevice) (old s : StateChange) (ds : Devices)
    → find_device d ds ≡ some old
    → old ≢ s
    → Reports ds (set_device d s ds, some (d, s))
unfolding get_state
set_device-Reports d old s ds h k =
    (ground arith, λ e. ground (arith, find_device-set_device d e s old ds))

report-Reports :
    (d : NbdDevice) (old : StateChange) (size : ℕ) (ds : Devices)
    → find_device d ds ≡ some old
    → Reports ds (report d old size ds)
unfolding report
report-Reports d old size ds h = elim (Bool-cases (ltb 0 size && not (is_inserted old))) [
  | inl e ↦ rw e (set_device-Reports d old inserted ds h (ground arith))
  | inr e ↦ rw e (elim (Bool-cases (size == 0 && not (is_removed old))) [
    | inl f ↦ rw f (set_device-Reports d old removed ds h (ground arith))
    | inr f ↦ rw f
  ])
]

-- One round of the loop, whatever the message is, reports a device only where its state changes,
-- and changes no other state than the reported one.
pub receive-Reports : (m : UdevMessage) (ds : Devices) → Reports ds (receive m ds)
unfolding receive
receive-Reports m ds = elim (Bool-cases (is_change m.action && is_known (parse m.sysname))) [
  | inr e ↦ rw e
  | inl e ↦ rw e (elim (Option-cases (find_device (parse m.sysname) ds)) [
    | inl f ↦ rw (f, receive_known)
    | inr (old, f) ↦
        rw (f, receive_known)
          (elim (Option-cases (read_size m)) [
            | inl g ↦ rw g
            | inr (size, g) ↦ rw g (report-Reports (parse m.sysname) old size ds f)
          ])
  ])
]

same_change : StateChange → StateChange → Bool
same_change not_monitored not_monitored = true
same_change removed removed = true
same_change inserted inserted = true
same_change _ _ = false

-- The callbacks for one device replayed from a state; `none` if one repeats the state that the
-- device has.
pub replay : NbdDevice → StateChange → List (NbdDevice × StateChange) → Option StateChange
unfolding same_change
replay d now [] = some now
replay d now ((e, s) ∷ calls) =
    let rest = replay d (if device_eq e d then s else now) calls in
    if device_eq e d && same_change s now then none else rest

replay_step :
    (d e : NbdDevice) (s : StateChange) (ds ds' : Devices) (calls : List (NbdDevice × StateChange))
    → Reports ds (ds', some (e, s))
    → replay d (get_state d ds) ((e, s) ∷ calls) ≡ replay d (get_state d ds') calls
unfolding replay
replay_step d e s ds ds' calls h = ground (arith, device_eq_iff e d, h.1 d)

replay_round :
    (d : NbdDevice) (ds : Devices) (r : Devices × Option (NbdDevice × StateChange))
    (calls : List (NbdDevice × StateChange))
    → Reports ds r
    → replay d (get_state d ds) (elim r.1 [ none ↦ calls | some c ↦ c ∷ calls ])
      ≡ replay d (get_state d r.0) calls
replay_round d ds (ds', none) calls h = ap (λ t. replay d (get_state d t) calls) (sym h)
replay_round d ds (ds', some (e, s)) calls h = replay_step d e s ds ds' calls h

-- Over any messages the callbacks for a device are each a change of its state, in the order of
-- the changes, and they end in the state that the monitor keeps for it.
pub monitor-replay :
    (d : NbdDevice) (ms : List UdevMessage) (ds : Devices)
    → replay d (get_state d ds) (monitor ms ds).1 ≡ some (get_state d (monitor ms ds).0)
unfolding monitor
monitor-replay d [] ds = unfold replay in refl
monitor-replay d (m ∷ ms) ds =
    replay_round d ds (receive m ds) (monitor ms (receive m ds).0).1 (receive-Reports m ds)
    ∙ monitor-replay d ms (receive m ds).0
