-- ===== src/Device.antt =====
-- src/system.hpp: `NBDDevice`, `StateChange` and the loop of `DeviceMonitor`.
-- One round of the loop handles one message of udev; what libudev answers and the value that
-- `std::stoul` reads are fields of the message.
pub mod Names
pub mod Monitor
pub mod Open
use virtual_media.Base.{
  ℕ, suc, ◌≡◌, refl, Bool, true, false, Option, none, some, List, [], ◌∷◌, Text, codes, text_eq,
  ltb, ◌==◌, if◌then◌else◌, join_path, ◌&&◌, not, get_or,
}

pub data NbdDevice : Type 0 where
  nbd0 nbd1 nbd2 nbd3 nbd4 nbd5 nbd6 nbd7 nbd8 nbd9 nbd10 unknown : NbdDevice

-- The underlying `uint8_t`.
unfoldable pub index : NbdDevice → ℕ
index nbd0 = 0
index nbd1 = 1
index nbd2 = 2
index nbd3 = 3
index nbd4 = 4
index nbd5 = 5
index nbd6 = 6
index nbd7 = 7
index nbd8 = 8
index nbd9 = 9
index nbd10 = 10
index unknown = 255

-- `static_cast<Value>` of a position in the table of names.
unfoldable pub of_index : ℕ → NbdDevice
of_index n =
    if n == 0
    then nbd0
    else if n == 1
    then nbd1
    else if n == 2
    then nbd2
    else if n == 3
    then nbd3
    else if n == 4
    then nbd4
    else if n == 5
    then nbd5
    else if n == 6
    then nbd6
    else if n == 7
    then nbd7
    else if n == 8
    then nbd8
    else if n == 9
    then nbd9
    else if n == 10
    then nbd10
    else unknown

unfoldable pub name_matching : List Text
name_matching =
    codes "nbd0"
    ∷ codes "nbd1"
    ∷ codes "nbd2"
    ∷ codes "nbd3"
    ∷ codes "nbd4"
    ∷ codes "nbd5"
    ∷ codes "nbd6"
    ∷ codes "nbd7"
    ∷ codes "nbd8"
    ∷ codes "nbd9"
    ∷ codes "nbd10"
    ∷ []

-- `std::find` over the table, as a distance from its begin.
unfoldable pub position : Text → List Text → Option ℕ
position s [] = none
position s (t ∷ ts) =
    let rest = position s ts in
    if text_eq t s then some 0 else elim rest [ none ↦ none | some i ↦ some (suc i) ]

-- The constructor from a name.
unfoldable pub parse : Option Text → NbdDevice
unfolding position name_matching of_index
parse none = unknown
parse (some s) = elim (position s name_matching) [ none ↦ unknown | some i ↦ of_index i ]

unfoldable pub device_eq : NbdDevice → NbdDevice → Bool
unfolding index
device_eq a b = index a == index b

-- `operator bool`.
unfoldable pub is_known : NbdDevice → Bool
is_known unknown = false
is_known _ = true

unfoldable pub to_string : NbdDevice → Text
unfolding index name_matching
to_string unknown = []
to_string d = get_or name_matching (index d) []

unfoldable pub to_path : NbdDevice → Text
unfolding to_string
to_path unknown = []
to_path d = join_path (codes "/dev") (to_string d)

pub data StateChange : Type 0 where
  not_monitored removed inserted : StateChange

-- `flat_map<NBDDevice, StateChange>`.
abbrev pub Devices : Type 0
Devices = List (NbdDevice × StateChange)

unfoldable pub find_device : NbdDevice → Devices → Option StateChange
unfolding device_eq
find_device d [] = none
find_device d ((e, s) ∷ ds) = if device_eq e d then some s else find_device d ds

unfoldable pub set_device : NbdDevice → StateChange → Devices → Devices
unfolding device_eq
set_device d s [] = []
set_device d s ((e, t) ∷ ds) = if device_eq e d then (e, s) ∷ ds else (e, t) ∷ set_device d s ds

-- `devices.insert` keeps the entry of a device that is there; the map is ordered by index.
insert_device : NbdDevice → Devices → Devices
unfolding index
insert_device d [] = (d, removed) ∷ []
insert_device d ((e, t) ∷ ds) =
    if index d == index e
    then (e, t) ∷ ds
    else if ltb (index d) (index e)
    then (d, removed) ∷ (e, t) ∷ ds
    else (e, t) ∷ insert_device d ds

unfoldable pub add_device : NbdDevice → Devices → Devices
unfolding insert_device
add_device d ds = insert_device d ds

unfoldable pub get_state : NbdDevice → Devices → StateChange
unfolding find_device
get_state d ds = elim (find_device d ds) [ none ↦ not_monitored | some s ↦ s ]

-- What `udev_device_get_action`, `_get_sysname` and `_get_sysattr_value` return (`none` for a
-- null pointer) and the number that the size text holds (`none` where `std::stoul` throws).
pub record UdevMessage : Type 0 where
  pub action : Option Text
  pub sysname : Option Text
  pub size_text : Option Text
  pub stoul : Text → Option ℕ

is_change : Option Text → Bool
is_change none = false
is_change (some a) = text_eq a (codes "change")

read_size : UdevMessage → Option ℕ
read_size m = elim m.size_text [ none ↦ none | some t ↦ m.stoul t ]

is_inserted : StateChange → Bool
is_inserted inserted = true
is_inserted _ = false

is_removed : StateChange → Bool
is_removed removed = true
is_removed _ = false

-- The two tests at the end of a round: a callback is made only on a change.
report : NbdDevice → StateChange → ℕ → Devices → Devices × Option (NbdDevice × StateChange)
unfolding set_device is_inserted is_removed
report d old size ds =
    if ltb 0 size && not (is_inserted old)
    then (set_device d inserted ds, some (d, inserted))
    else if size == 0 && not (is_removed old)
    then (set_device d removed ds, some (d, removed))
    else (ds, none)

receive_known : NbdDevice → UdevMessage → Devices → Devices × Option (NbdDevice × StateChange)
unfolding report read_size find_device
receive_known d m ds = elim (find_device d ds) [
  | none ↦ (ds, none)
  | some old ↦ elim (read_size m) [ none ↦ (ds, none) | some size ↦ report d old size ds ]
]

-- One round of the `while (1)` loop: the devices, and the callback that it makes.
unfoldable pub receive : UdevMessage → Devices → Devices × Option (NbdDevice × StateChange)
unfolding receive_known is_change parse is_known
receive m ds =
    let d = parse m.sysname in
    if is_change m.action && is_known d then receive_known d m ds else (ds, none)

-- The loop over a list of messages, with the callbacks in order.
unfoldable pub monitor : List UdevMessage → Devices → Devices × List (NbdDevice × StateChange)
monitor [] ds = (ds, [])
monitor (m ∷ ms) ds =
    let (ds', call) = receive m ds in
    let (end, calls) = monitor ms ds' in (end, elim call [ none ↦ calls | some c ↦ c ∷ calls ])
