-- ===== src/Tests/Texts.antt =====
-- Credentials, shares, configurations and URLs at concrete inputs (src/utils.hpp, src/smb.hpp,
-- src/nfs.hpp, src/configuration.hpp, src/system.hpp).
use virtual_media.Base.{
  negsuc, ℕ, ◌-◌, ◌^◌, ◌<◌, ◌≡◌, refl, true, false, none, some, [], ◌∷◌, ◌++◌, codes, if◌then◌else◌,
  ok, pos, arith, ◌==◌, text_eq, find, starts_with, find_last_of,
}
use virtual_media.Credentials.{comma, escape_comma, purge_file}
use virtual_media.Credentials.Escape.{read_value, read_value-escape_comma}
use virtual_media.Credentials.Purge.{Purged, purge_file-Purged}
use virtual_media.Share.{MountCall, safe_mount, smb_mount, nfs_call, nfs_mount, parse_nfs_args}
use virtual_media.Share.Codes.{mount-safe}
use virtual_media.Device.{nbd0, is_known, parse}
use virtual_media.Config.{
  proxy, MountPoint, Json, unsigned_number, negative_number, bool, as_int, text, object, end, field,
  setup_variables, get_mount_point, read_mount_point, read_mode,
}
use virtual_media.Config.Modes.{IsSupported, get_mount_point-setup_variables}
use virtual_media.Url.{is_local_file, read_digits, extract_slot_number}

read_value-escape_comma_example :
    read_value (escape_comma (codes "a,b,") ++ comma ∷ codes "vers=3")
    ≡ (codes "a,b,", codes "vers=3")
read_value-escape_comma_example =
    read_value-escape_comma (codes "a,b,") (codes "vers=3") (ground arith)

purge_file-Purged_example : Purged 2500 (purge_file 2500)
purge_file-Purged_example = purge_file-Purged 2500

-- Systems that refuse or accept every mount.
abbrev refuses : MountCall → ℕ
refuses c = 13

abbrev times_out : MountCall → ℕ
times_out c = 110

abbrev accepts : MountCall → ℕ
accepts c = 0

-- One that accepts mounts without the safety flags only.
abbrev accepts_unsafe : MountCall → ℕ
accepts_unsafe c = if c.flags == 0 then 0 else 13

mount-safe_example :
    (smb_mount refuses (codes "//host/share") (codes "/tmp/Slot_0") true none
      ≡ smb_mount accepts_unsafe (codes "//host/share") (codes "/tmp/Slot_0") true none)
    × (nfs_mount refuses (codes "//host/share") (codes "/tmp/Slot_0") true
        ≡ nfs_mount accepts_unsafe (codes "//host/share") (codes "/tmp/Slot_0") true)
mount-safe_example =
    mount-safe refuses accepts_unsafe (codes "//host/share") (codes "/tmp/Slot_0") true none
      λ c h. ground arith

nfs_args :
    parse_nfs_args (codes "host:/images") (codes "soft,timeo=30,retrans=1")
    ≡ some (codes ":/images", codes "soft,timeo=30,retrans=1,addr=host")
unfolding parse_nfs_args find
nfs_args = refl

nfs_times_out :
    safe_mount times_out (
      nfs_call
        (codes ":/images")
        (codes "/tmp/Slot_0")
        false
        (codes "nfs4")
        (codes "soft,timeo=30,retrans=1,addr=host"))
    ≡ 110
unfolding safe_mount
nfs_times_out = refl

smb_accepted : (smb_mount accepts (codes "//host/share") (codes "/tmp/Slot_0") true none).0 ≡ 0
unfolding smb_mount safe_mount
smb_accepted = refl

-- A document with one mount point in proxy mode and one in local mode.
abbrev document : Json
document = object (
    field (codes "InactivityTimeout") (unsigned_number 1800) (
      field (codes "MountPoints")
        (object (
          field (codes "Slot_0")
            (object (
              field (codes "NBDDevice") (text (codes "nbd0"))
                (field (codes "Mode") (unsigned_number 0) end)))
            (field (codes "Slot_1") (object (field (codes "Mode") (unsigned_number 2) end)) end)))
        end))

abbrev slot_point : MountPoint
slot_point = record {
  nbd_device = nbd0;
  unix_socket = [];
  end_point_id = [];
  timeout = none;
  blocksize = none;
  remaining_inactivity_timeout = 0;
  mode = proxy;
}

document_read : setup_variables false document ≡ ok (pos 1800, (codes "Slot_0", slot_point) ∷ [])
unfolding setup_variables text_eq read_mount_point read_mode is_known parse
document_read = refl

slot_found : get_mount_point (codes "Slot_0") ((codes "Slot_0", slot_point) ∷ []) ≡ some slot_point
unfolding get_mount_point text_eq
slot_found = refl

get_mount_point-setup_variables_example : IsSupported false slot_point
get_mount_point-setup_variables_example =
    get_mount_point-setup_variables false document (pos 1800) ((codes "Slot_0", slot_point) ∷ [])
      (codes "Slot_0") slot_point document_read slot_found

-- A timeout with a sign, and a Boolean one.
negative_timeout :
    setup_variables false (object (field (codes "InactivityTimeout") (negative_number 4) end))
    ≡ ok (negsuc 4, [])
unfolding setup_variables text_eq as_int
negative_timeout = refl

boolean_timeout :
    setup_variables false (object (field (codes "InactivityTimeout") (bool true) end))
    ≡ ok (pos 1, [])
unfolding setup_variables text_eq as_int
boolean_timeout = refl

local_image : is_local_file (codes "/tmp/lmedia/a.iso") ≡ true
unfolding is_local_file starts_with
local_image = refl

slot_three : extract_slot_number (codes "Slot_3") ≡ ok (pos 1)
unfolding extract_slot_number find_last_of
slot_three = refl

digit_three : read_digits (b'3' - b'0') [] < 2 ^ 31
unfolding read_digits
digit_three = omega arith
