-- ===== src/Share/Codes.antt =====
-- Which calls of `::mount` the shares make, and what they return (src/smb.hpp, src/nfs.hpp).
use virtual_media.Base.{
  ℕ, ◌+◌, ◌≡◌, refl, Bool, Option, none, some, ◌∷◌, ◌++◌, Text, codes, if◌then◌else◌, arith, inl,
  inr, ◌⊎◌, errc_ehostunreach, errc_etimedout, errc_enetunreach, errc_ehostdown, Option-cases,
}
use virtual_media.Credentials.{Credentials, escape_commas, comma, make_credentials}
use virtual_media.Credentials.Escape.{read_value, read_value-escape_comma}
use virtual_media.Share.{
  MountCall, ms_rdonly, safe_flags, smb_mount, nfs_mount, smb_error, nfs_error, smb_attempts,
  nfs_attempts, smb_call, nfs_call, safe_mount, parse_nfs_args, smb_option_text,
}

-- A call on the directory with the safety flags, read-only unless writing is asked for.
abbrev pub IsSafe : Text → Bool → MountCall → Type 0
IsSafe directory is_rw c =
    (c.directory ≡ directory) × (c.flags ≡ (if is_rw then 0 else ms_rdonly) + safe_flags)

-- Two answers of the system that agree on the safe calls.
abbrev pub AgreeOnSafe : Text → Bool → (MountCall → ℕ) → (MountCall → ℕ) → Type 0
AgreeOnSafe directory is_rw m m' = (c : MountCall) → IsSafe directory is_rw c → m c ≡ m' c

module _ (m m' : MountCall → ℕ) (remote directory : Text) (is_rw : Bool)
    (agree : AgreeOnSafe directory is_rw m m') where
  smb_call-safe :
      (options : Text)
      → safe_mount m (smb_call remote directory is_rw options)
        ≡ safe_mount m' (smb_call remote directory is_rw options)
  unfolding safe_mount smb_call
  smb_call-safe options = agree _ (refl, refl)

  nfs_call-safe :
      (fs options : Text)
      → safe_mount m (nfs_call remote directory is_rw fs options)
        ≡ safe_mount m' (nfs_call remote directory is_rw fs options)
  unfolding safe_mount nfs_call
  nfs_call-safe fs options = agree _ (refl, refl)

  smb_attempts-safe :
      (options : Text)
      → smb_attempts m remote directory is_rw options
        ≡ smb_attempts m' remote directory is_rw options
  unfolding smb_attempts
  smb_attempts-safe options =
      rw
        (smb_call-safe (options ++ codes ",vers=3.1.1"), smb_call-safe (options ++ codes ",vers=3"))

  nfs_attempts-safe :
      (options : Text)
      → nfs_attempts m remote directory is_rw options
        ≡ nfs_attempts m' remote directory is_rw options
  unfolding nfs_attempts
  nfs_attempts-safe options = rw (
    nfs_call-safe (codes "nfs4") options,
    nfs_call-safe (codes "nfs") (options ++ codes ",nolock"),
  )

  smb_mount-safe :
      (c : Option Credentials)
      → smb_mount m remote directory is_rw c ≡ smb_mount m' remote directory is_rw c
  unfolding smb_mount
  smb_mount-safe none = rw (smb_attempts-safe (smb_option_text none))
  smb_mount-safe (some x) = rw (smb_attempts-safe (smb_option_text (some (escape_commas x))))

module _ (m m' : MountCall → ℕ) (remote directory : Text) (is_rw : Bool)
    (agree : AgreeOnSafe directory is_rw m m') where
  nfs_mount-safe : nfs_mount m remote directory is_rw ≡ nfs_mount m' remote directory is_rw
  unfolding nfs_mount
  nfs_mount-safe = elim (Option-cases (parse_nfs_args remote (codes "soft,timeo=30,retrans=1"))) [
    | inl e ↦ rw (e, nfs_mount)
    | inr (p, e) ↦ rw (e, nfs_mount) (rw (nfs_attempts-safe m m' p.0 directory is_rw agree p.1))
  ]

-- Both mounts reach the system only through calls on the given directory that carry the flags
-- nosuid, nodev and noexec, and the read-only flag unless writing is asked for: where two
-- systems agree on such calls, the results are the same.
pub mount-safe :
    (m m' : MountCall → ℕ) (remote directory : Text) (is_rw : Bool) (c : Option Credentials)
    → AgreeOnSafe directory is_rw m m'
    → (smb_mount m remote directory is_rw c ≡ smb_mount m' remote directory is_rw c)
      × (nfs_mount m remote directory is_rw ≡ nfs_mount m' remote directory is_rw)
mount-safe m m' remote directory is_rw c agree = (
  smb_mount-safe m m' remote directory is_rw agree c,
  nfs_mount-safe m m' remote directory is_rw agree,
)

-- An NFS mount whose first attempt, with version 4, finds the host unreachable or times out
-- returns EHOSTUNREACH, whatever an attempt with version 3 would return.
pub nfs_mount_unreachable :
    (m : MountCall → ℕ) (remote directory path options : Text) (is_rw : Bool) (e : ℕ)
    → parse_nfs_args remote (codes "soft,timeo=30,retrans=1") ≡ some (path, options)
    → safe_mount m (nfs_call path directory is_rw (codes "nfs4") options) ≡ e
    → (e ≡ errc_etimedout) ⊎ (e ≡ errc_ehostunreach) ⊎ (e ≡ errc_enetunreach) ⊎ (e ≡ errc_ehostdown)
    → nfs_mount m remote directory is_rw ≡ errc_ehostunreach
unfolding nfs_mount nfs_attempts nfs_error
nfs_mount_unreachable m remote directory path options is_rw e p q h =
    rw (p, nfs_mount) (ground arith)

-- An SMB mount returns 0 only if one of its two calls of the system succeeded, the one with
-- version 3.1.1 or the one with version 3.
pub smb_mount-zero :
    (m : MountCall → ℕ) (remote directory : Text) (is_rw : Bool) (c : Option Credentials)
    → (smb_mount m remote directory is_rw c).0 ≡ 0
    → let o = smb_option_text (smb_mount m remote directory is_rw c).1 in
      (safe_mount m (smb_call remote directory is_rw (o ++ codes ",vers=3.1.1")) ≡ 0)
      ⊎ (safe_mount m (smb_call remote directory is_rw (o ++ codes ",vers=3")) ≡ 0)
unfolding smb_mount smb_attempts smb_error
smb_mount-zero m remote directory is_rw none h = ground arith
smb_mount-zero m remote directory is_rw (some c) h = ground arith

-- The password option of an SMB mount, which the version option follows, reads back as the
-- password, whatever commas it holds.
pub smb_password-read :
    (user password version : Text)
    → read_value (
        (escape_commas (make_credentials user password)).password
        ++ comma ∷ (codes "vers=" ++ version))
      ≡ (password, codes "vers=" ++ version)
unfolding escape_commas make_credentials
smb_password-read user password version =
    read_value-escape_comma password (codes "vers=" ++ version) (omega arith)
