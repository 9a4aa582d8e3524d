-- ===== src/Share.antt =====
-- src/smb.hpp, src/nfs.hpp and `safeMount` of src/utils.hpp. The system call `::mount` is an
-- argument: it returns 0, or the errno that it leaves.
pub mod Codes
use virtual_media.Base.{
  ℕ, ◌+◌, ◌-◌, Bool, true, false, Option, none, some, List, [], ◌∷◌, ◌++◌, Text, codes, find,
  if◌then◌else◌, ◌==◌, ◌&&◌, ◌||◌, not, take, drop, length, errc_eperm, errc_eacces, errc_eagain,
  errc_einval, errc_eaddrnotavail, errc_enetunreach, errc_enotconn, errc_etimedout,
  errc_econnrefused, errc_ehostdown, errc_ehostunreach, errc_einprogress, errc_eopnotsupp,
}
use virtual_media.Credentials.{Credentials, comma, escape_commas, count}

pub record MountCall : Type 0 where
  pub remote : Text
  pub directory : Text
  pub fs : Text
  pub flags : ℕ
  pub options : Text

-- MS_RDONLY, and MS_NOSUID | MS_NODEV | MS_NOEXEC.
abbrev pub ms_rdonly : ℕ
ms_rdonly = 1

abbrev pub safe_flags : ℕ
safe_flags = 14

-- `safeMount`: the call is made with the safety flags added.
unfoldable pub safe_mount : (MountCall → ℕ) → MountCall → ℕ
safe_mount mount c = mount (record c { flags = c.flags + safe_flags })

-- `username.find(',') == npos`.
unfoldable pub validate_username : Text → Bool
validate_username [] = true
validate_username (c ∷ s) = not (c == comma) && validate_username s

-- The mapping of errno at the end of `SmbShare::mount`.
unfoldable pub smb_error : ℕ → ℕ
smb_error e =
    if e == errc_eacces || e == errc_eagain
    then errc_eperm
    else if e == errc_enetunreach
        || e == errc_ehostunreach
        || e == errc_ehostdown
        || e == errc_eaddrnotavail
    then errc_ehostunreach
    else if e == errc_econnrefused || e == errc_enotconn || e == errc_einprogress
    then errc_econnrefused
    else e

unfoldable pub nfs_error : ℕ → ℕ
nfs_error e =
    if e == errc_eacces
    then errc_eperm
    else if e == errc_enetunreach
        || e == errc_ehostunreach
        || e == errc_ehostdown
        || e == errc_eaddrnotavail
        || e == errc_etimedout
    then errc_ehostunreach
    else if e == errc_econnrefused || e == errc_enotconn || e == errc_eopnotsupp
    then errc_econnrefused
    else e

smb_options : Text
smb_options = codes "sec=ntlmsspi,seal,soft,cache=none,retrans=1,echo_interval=1"

credentials_option : Option Credentials → Text
credentials_option none = codes "guest,username=OpenBmc"
credentials_option (some c) = codes "username=" ++ (c.user ++ (codes ",password=" ++ c.password))

abbrev pub call_flags : Bool → ℕ
call_flags is_rw = if is_rw then 0 else ms_rdonly

unfoldable pub smb_call : Text → Text → Bool → Text → MountCall
smb_call remote directory is_rw options = record {
  remote = remote;
  directory = directory;
  fs = codes "cifs";
  flags = call_flags is_rw;
  options = options;
}

-- The two attempts, with version 3.1.1 and then with 3.
smb_attempts : (MountCall → ℕ) → Text → Text → Bool → Text → ℕ
smb_attempts mount remote directory is_rw options =
    let first =
      safe_mount mount (smb_call remote directory is_rw (options ++ codes ",vers=3.1.1")) in
    if first == 0
    then 0
    else safe_mount mount (smb_call remote directory is_rw (options ++ codes ",vers=3"))

unfoldable pub smb_option_text : Option Credentials → Text
unfolding smb_options credentials_option
smb_option_text c = smb_options ++ (comma ∷ credentials_option c)

-- `SmbShare::mount`: the result and the credentials, whose commas it escapes.
unfoldable pub smb_mount :
    (MountCall → ℕ) → Text → Text → Bool → Option Credentials → ℕ × Option Credentials
unfolding smb_attempts smb_option_text smb_error escape_commas validate_username
smb_mount mount remote directory is_rw none =
    (smb_error (smb_attempts mount remote directory is_rw (smb_option_text none)), none)
smb_mount mount remote directory is_rw (some c) =
    if validate_username c.user
    then (
      smb_error
          (smb_attempts mount remote directory is_rw (smb_option_text (some (escape_commas c)))),
      some (escape_commas c),
    )
    else (errc_einval, some c)

-- `parseNfsArgs`: the path behind the host, and the options with the host's address.
-- `substr(index, length - 1)` reaches the end, since index is at least 0 and the colon is one of
-- two bytes; from index 0 it leaves the last byte out.
unfoldable pub parse_nfs_args : Text → Text → Option (Text × Text)
parse_nfs_args remote options = elim (find (codes ":/") remote) [
  | none ↦ none
  | some i ↦ some (
    take (length remote - 1) (drop i remote),
    options ++ (comma ∷ (codes "addr=" ++ take i remote)),
  )
]

unfoldable pub nfs_fallback : ℕ → Bool
nfs_fallback e =
    not (e == 0)
    && not (e == errc_etimedout)
    && not (e == errc_ehostunreach)
    && not (e == errc_enetunreach)
    && not (e == errc_ehostdown)

unfoldable pub nfs_call : Text → Text → Bool → Text → Text → MountCall
nfs_call remote directory is_rw fs options = record {
  remote = remote;
  directory = directory;
  fs = fs;
  flags = call_flags is_rw;
  options = options;
}

-- Version 4, and version 3 after it unless the host could not be reached.
nfs_attempts : (MountCall → ℕ) → Text → Text → Bool → Text → ℕ
unfolding nfs_fallback
nfs_attempts mount remote directory is_rw options =
    let first = safe_mount mount (nfs_call remote directory is_rw (codes "nfs4") options) in
    if nfs_fallback first
    then safe_mount mount
        (nfs_call remote directory is_rw (codes "nfs") (options ++ codes ",nolock"))
    else first

-- `NfsShare::mount`.
unfoldable pub nfs_mount : (MountCall → ℕ) → Text → Text → Bool → ℕ
unfolding nfs_attempts nfs_error
nfs_mount mount remote directory is_rw =
    elim (parse_nfs_args remote (codes "soft,timeo=30,retrans=1")) [
      | none ↦ errc_einval
      | some (path, options) ↦ nfs_error (nfs_attempts mount path directory is_rw options)
    ]
