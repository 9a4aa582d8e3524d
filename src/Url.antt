-- ===== src/Url.antt =====
-- The texts that the service takes apart: the URL tests and paths of
-- src/state/activating_state.cpp, and slots, sessions and paths of src/system.hpp.
-- `std::stoi`, `std::filesystem::path::filename` and `parent_path` are written out as the
-- standard library defines them on bytes.
pub mod Scheme
pub mod Slot
use virtual_media.Base.{
  ℕ, zero, suc, ◌+◌, ◌-◌, ◌*◌, ◌<◌, ◌^◌, Bool, true, false, ◌&&◌, ◌||◌, Option, none, some, List,
  [], ◌∷◌, ◌++◌, Text, codes, text_eq, starts_with, find_last_of, if◌then◌else◌, ltb, leb, ◌==◌,
  take, drop, length, Result, ok, err, guard, ◌>>=◌, ◌>>◌, invalid_argument, out_of_range, ℤ, pos,
  negsuc, is_negative, rem_two, pos_part, codes,
}

-- `checkUrl`: the scheme against as many bytes of the URL.
unfoldable pub check_url : Text → Text → Bool
check_url scheme url = text_eq scheme (take (length scheme) url)

-- `getImagePathFromUrl` with a pointer that is not null.
unfoldable pub get_image_path_from_url : Text → Text → Option Text
unfolding check_url
get_image_path_from_url scheme url =
    if check_url scheme url then some (drop (length scheme) url) else none

abbrev pub https_scheme : Text
https_scheme = codes "https://"

abbrev pub cifs_scheme : Text
cifs_scheme = codes "smb://"

abbrev pub nfs_scheme : Text
nfs_scheme = codes "nfs://"

abbrev pub local_prefix : Text
local_prefix = codes "/tmp/lmedia/"

unfoldable pub is_https_url : Text → Bool
unfolding check_url
is_https_url url = check_url https_scheme url

unfoldable pub is_cifs_url : Text → Bool
unfolding check_url
is_cifs_url url = check_url cifs_scheme url

unfoldable pub is_nfs_url : Text → Bool
unfolding check_url
is_nfs_url url = check_url nfs_scheme url

unfoldable pub is_local_file : Text → Bool
is_local_file path = starts_with path local_prefix

-- The first scheme that fits, and the empty path where none does.
unfoldable pub get_image_path : Text → Text
unfolding get_image_path_from_url
get_image_path url = elim (get_image_path_from_url https_scheme url) [
  | some p ↦ p
  | none ↦ elim (get_image_path_from_url cifs_scheme url) [
    | some p ↦ p
    | none ↦ elim (get_image_path_from_url nfs_scheme url) [ some p ↦ p | none ↦ [] ]
  ]
]

is_slash : ℕ → Bool
is_slash c = c == b'/'

-- `path::filename`: what stands behind the last slash.
unfoldable pub filename : Text → Text
unfolding is_slash
filename p = elim (find_last_of is_slash p) [ none ↦ p | some i ↦ drop (suc i) p ]

-- A text without the slashes at its end, unless it has nothing else.
strip_slashes : Text → Text
unfolding is_slash
strip_slashes p = elim (find_last_of (λ c. if is_slash c then false else true) p) [
  | none ↦ take 1 p
  | some i ↦ take (suc i) p
]

-- `path::parent_path`: what stands before the last slash, its own slashes taken off.
unfoldable pub parent_path : Text → Text
unfolding is_slash strip_slashes
parent_path p = elim (find_last_of is_slash p) [
  | none ↦ []
  | some i ↦ strip_slashes (take (if i == 0 then 1 else i) p)
]

-- `getPathWithoutFileName`: up to the last slash or backslash, included.
unfoldable pub get_path_without_file_name : Text → Text
get_path_without_file_name p = elim (find_last_of (λ c. c == b'/' || c == b'\\') p) [
  | none ↦ []
  | some i ↦ take (suc i) p
]

unfoldable pub is_digit : ℕ → Bool
is_digit c = leb b'0' c && leb c b'9'

is_space : ℕ → Bool
is_space c = c == 32 || leb 9 c && leb c 13

-- The digits at the front, and the number that they continue.
unfoldable pub read_digits : ℕ → Text → ℕ
unfolding is_digit
read_digits n [] = n
read_digits n (c ∷ s) =
    let rest = read_digits (n * 10 + (c - b'0')) s in if is_digit c then rest else n

read_number : Text → Option ℕ
unfolding read_digits
read_number [] = none
read_number (c ∷ s) = if is_digit c then some (read_digits (c - b'0') s) else none

unfoldable pub in_int_range : Bool → Option ℕ → Result ℤ
in_int_range minus none = err invalid_argument
in_int_range true (some n) =
    if n == 0 then ok (pos 0) else if leb n (2 ^ 31) then ok (negsuc (n - 1)) else err out_of_range
in_int_range false (some n) = if ltb n (2 ^ 31) then ok (pos n) else err out_of_range

skip_spaces : Text → Text
unfolding is_space
skip_spaces [] = []
skip_spaces (c ∷ s) = if is_space c then skip_spaces s else c ∷ s

read_signed : Text → Result ℤ
unfolding in_int_range read_number
read_signed [] = err invalid_argument
read_signed (c ∷ s) =
    if c == b'-'
    then in_int_range true (read_number s)
    else if c == b'+'
    then in_int_range false (read_number s)
    else in_int_range false (read_number (c ∷ s))

-- `std::stoi` in base ten.
unfoldable pub stoi : Text → Result ℤ
unfolding skip_spaces read_signed
stoi s = read_signed (skip_spaces s)

-- `extractSlotNumber`: -1 without an underscore; else the number behind the last one, modulo 2.
unfoldable pub extract_slot_number : Text → Result ℤ
unfolding stoi
extract_slot_number path = elim (find_last_of (λ c. c == b'_') path) [
  | none ↦ ok (negsuc 0)
  | some i ↦ stoi (drop (suc i) path) >>= λ n. ok (rem_two n)
]

-- The first match of `session_(\d+)`: the digits behind it, as a text.
search_session : Text → Option Text
unfolding is_digit
search_session [] = none
search_session (c ∷ s) = elim (drop 7 s) [
  | [] ↦ none
  | d ∷ rest ↦
      if starts_with (c ∷ s) (codes "session_") && is_digit d
      then some (d ∷ rest)
      else search_session s
]

-- `extractSessionId`.
unfoldable pub extract_session_id : Text → Result ℕ
unfolding search_session in_int_range read_number
extract_session_id info = elim (search_session info) [
  | none ↦ err invalid_argument
  | some digits ↦ in_int_range false (read_number digits) >>= λ n.
      if leb (pos_part n) 255 then ok (pos_part n) else err out_of_range
]

-- `mountMethod`.
unfoldable pub mount_method : Text → Text
mount_method slot =
    if text_eq slot (codes "Slot_0") || text_eq slot (codes "Slot_1")
    then codes "console"
    else if text_eq slot (codes "Slot_2") || text_eq slot (codes "Slot_3")
    then codes "remote"
    else codes " "

-- `UsbGadget::getGadgetDirPrefix`: whether this is the second of two services.
unfoldable pub gadget_dir_prefix : Bool → Text
gadget_dir_prefix second =
    if second
    then codes "/sys/kernel/config/usb_gadget/mass-storage1-"
    else codes "/sys/kernel/config/usb_gadget/mass-storage-"
