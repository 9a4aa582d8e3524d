-- ===== src/Config.antt =====
-- src/configuration.hpp: the mount points, their nbd-client arguments, and `setupVariables` over
-- the JSON document that nlohmann::json has parsed. `LEGACY_MODE_ENABLED` is an argument.
pub mod Modes
pub mod Load
use virtual_media.Base.{
  ℕ, ◌<◌, ◌≡◌, arith, zero, suc, ◌+◌, ◌-◌, ◌/◌, ◌%◌, Bool, true, false, Option, none, some, List,
  [], ◌∷◌, ◌++◌, Text, codes, text_eq, if◌then◌else◌, ltb, ◌==◌, ℤ, pos, negsuc, to_int32,
  from_option, Result, ok, err, ◌>>=◌, type_error, undefined, ◌^◌,
}
use virtual_media.Device.{NbdDevice, unknown, parse, is_known, to_path}

pub data Mode : Type 0 where
  proxy legacy local : Mode

pub record MountPoint : Type 0 where
  pub nbd_device : NbdDevice
  pub unix_socket : Text
  pub end_point_id : Text
  pub timeout : Option ℤ
  pub blocksize : Option ℤ
  pub remaining_inactivity_timeout : ℕ
  pub mode : Mode

abbrev pub default_timeout : ℤ
default_timeout = pos 30

-- `std::to_string` of a number below 10 ^ fuel.
show_digits : ℕ → ℕ → Text
show_digits zero n = []
show_digits (suc fuel) n =
    let rest = show_digits fuel (n / 10) in
    if ltb n 10 then (b'0' + n) ∷ [] else rest ++ (b'0' + n % 10) ∷ []

-- `std::to_string` of an `int`, which has ten digits at most.
unfoldable pub show_int : ℤ → Text
unfolding show_digits
show_int (pos n) = show_digits 10 n
show_int (negsuc n) = b'-' ∷ show_digits 10 (suc n)

pub show_int-digit : (n : ℕ) → n < 10 → show_int (pos n) ≡ (b'0' + n) ∷ []
unfolding show_int show_digits
show_int-digit n h = ground arith

-- `toArgs`.
unfoldable pub to_args : MountPoint → List Text
unfolding show_int to_path
to_args mp =
    codes "-t"
    ∷ show_int (from_option default_timeout mp.timeout)
    ∷ codes "-u"
    ∷ mp.unix_socket
    ∷ to_path mp.nbd_device
    ∷ codes "-nL"
    ∷ []

-- A parsed document: the library keeps integers without a sign, integers with one and other numbers
-- apart. `negative_number n` is `-1 - n`, and `float_number` has the number without its fraction,
-- which is all that is read of it.
mutual
  pub data Json : Type 0 where
    null : Json
    bool : Bool → Json
    unsigned_number : ℕ → Json
    negative_number : ℕ → Json
    float_number : ℤ → Json
    text : Text → Json
    array : Fields → Json
    object : Fields → Json

  -- The members of an object in the order of their keys; the elements of an array, each with its
  -- index as a key.
  pub data Fields : Type 0 where
    end : Fields
    field : Text → Json → Fields → Fields

find_field : Text → Fields → Option Json
find_field k end = none
find_field k (field j v fs) = if text_eq j k then some v else find_field k fs

-- `find`, which finds nothing where the value is no object.
find_member : Text → Json → Option Json
unfolding find_field
find_member k (object fs) = find_field k fs
find_member k _ = none

-- `get_ptr<const std::string*>` and `get_ptr<const uint64_t*>`.
as_text : Json → Option Text
as_text (text t) = some t
as_text _ = none

as_unsigned : Json → Option ℕ
as_unsigned (unsigned_number n) = some n
as_unsigned _ = none

-- What a key does to the mount point that is being built: `none` is the `continue` that skips it.
abbrev Reader : Type 0
Reader = MountPoint → Option MountPoint

infixl 5 ◌then_read◌
abbrev ◌then_read◌ : Option MountPoint → Reader → Option MountPoint
none then_read f = none
some mp then_read f = f mp

-- An absent text key keeps the default; one of another type skips the mount point.
read_text : Text → Json → (Text → Reader) → Reader
unfolding find_member as_text
read_text key j use_text mp = elim (find_member key j) [
  | none ↦ some mp
  | some v ↦ elim (as_text v) [ none ↦ none | some t ↦ use_text t mp ]
]

read_number : Text → Json → (ℕ → MountPoint → MountPoint) → Reader
unfolding find_member as_unsigned
read_number key j use_number mp = elim (find_member key j) [
  | none ↦ some mp
  | some v ↦ elim (as_unsigned v) [ none ↦ some mp | some n ↦ some (use_number n mp) ]
]

use_device : Text → Reader
use_device t mp =
    let d = parse (some t) in if is_known d then some (record mp { nbd_device = d }) else none

mode_of : Bool → ℕ → Option Mode
mode_of legacy_enabled n =
    if n == 0
    then some proxy
    else if n == 1
    then (if legacy_enabled then some legacy else none)
    else none

unfoldable pub read_mode : Bool → Json → Reader
unfolding find_member as_unsigned mode_of
read_mode legacy_enabled j mp = elim (find_member (codes "Mode") j) [
  | none ↦ none
  | some v ↦ elim (as_unsigned v) [
    | none ↦ none
    | some n ↦ elim (mode_of legacy_enabled n) [
      | none ↦ none
      | some m ↦ some (record mp { mode = m })
    ]
  ]
]

-- A `MountPoint` before its keys are read. The source leaves the mode and the remaining time
-- without a value; a mount point that is kept has read its mode.
abbrev empty_mount_point : MountPoint
empty_mount_point = record {
  nbd_device = unknown;
  unix_socket = [];
  end_point_id = [];
  timeout = none;
  blocksize = none;
  remaining_inactivity_timeout = 0;
  mode = proxy;
}

-- The body of the loop over the mount points.
unfoldable pub read_mount_point : Bool → Json → Option MountPoint
unfolding read_text read_number use_device
read_mount_point legacy_enabled j =
    read_text (codes "NBDDevice") j use_device empty_mount_point
    then_read read_text (codes "UnixSocket") j (λ t mp. some (record mp { unix_socket = t }))
    then_read read_text (codes "EndpointId") j (λ t mp. some (record mp { end_point_id = t }))
    then_read read_number (codes "Timeout") j (λ n mp. record mp { timeout = some (to_int32 n) })
    then_read read_number (codes "BlockSize") j
        (λ n mp. record mp { blocksize = some (to_int32 n) })
    then_read read_mode legacy_enabled j

abbrev pub MountPoints : Type 0
MountPoints = List (Text × MountPoint)

-- `mountPoints[key] = mp`; the order of a flat_map's keys is left out.
set_mount_point : Text → MountPoint → MountPoints → MountPoints
set_mount_point k mp [] = (k, mp) ∷ []
set_mount_point k mp ((j, v) ∷ ms) =
    if text_eq j k then (k, mp) ∷ ms else (j, v) ∷ set_mount_point k mp ms

read_mount_points : Bool → Fields → MountPoints → MountPoints
unfolding set_mount_point
read_mount_points legacy_enabled end ms = ms
read_mount_points legacy_enabled (field k j fs) ms =
    read_mount_points legacy_enabled fs
      (elim (read_mount_point legacy_enabled j) [ none ↦ ms | some mp ↦ set_mount_point k mp ms ])

items : Json → Fields
items (object fs) = fs
items (array fs) = fs
items _ = end

read_items : Bool → Fields → MountPoints → MountPoints
unfolding read_mount_points items
read_items legacy_enabled end ms = ms
read_items legacy_enabled (field k j fs) ms =
    read_items legacy_enabled fs (
      if text_eq k (codes "MountPoints") then read_mount_points legacy_enabled (items j) ms else ms)

-- `static_cast<int>` of a floating-point number, which has no value outside the range of `int`.
float_to_int : ℤ → Result ℤ
float_to_int (pos n) = if ltb n (2 ^ 31) then ok (pos n) else err undefined
float_to_int (negsuc n) = if ltb n (2 ^ 31) then ok (negsuc n) else err undefined

-- `get<int>`: any number, or a Boolean, as an `int`, the integers modulo 2 ^ 32.
unfoldable pub as_int : Json → Result ℤ
unfolding float_to_int
as_int (unsigned_number n) = ok (to_int32 n)
as_int (negative_number n) = ok (to_int32 (2 ^ 32 - 1 - n % 2 ^ 32))
as_int (float_number x) = float_to_int x
as_int (bool true) = ok (pos 1)
as_int (bool false) = ok (pos 0)
as_int _ = err type_error

-- `config.value("InactivityTimeout", 0)`.
read_timeout : Json → Result ℤ
unfolding find_field as_int
read_timeout (object fs) = elim (find_field (codes "InactivityTimeout") fs) [
  | none ↦ ok (pos 0)
  | some v ↦ as_int v
]
read_timeout _ = err type_error

-- `setupVariables`: the inactivity timeout and the mount points.
unfoldable pub setup_variables : Bool → Json → Result (ℤ × MountPoints)
unfolding read_timeout read_items items
setup_variables legacy_enabled j =
    read_timeout j >>= λ seconds. ok (seconds, read_items legacy_enabled (items j) [])

-- `getMountPoint`.
unfoldable pub get_mount_point : Text → MountPoints → Option MountPoint
get_mount_point k [] = none
get_mount_point k ((j, v) ∷ ms) = if text_eq j k then some v else get_mount_point k ms
